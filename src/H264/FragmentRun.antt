-- ===== src/H264/FragmentRun.antt =====
-- The decoder over all the fragments of a NALU.
use gortsplib.Common.{
  ℕ, zero, suc, ◌+◌, ◌*◌, ◌/◌, ◌%◌, ◌≤◌, ◌<◌, ◌≡◌, refl, sym, ap, ◌∙◌, subst, Bool, true, false,
  some, List, [], ◌∷◌, ◌++◌, append_assoc, append-nil, length, length-append, take, drop,
  take-append-drop, length-take, arith,
}
use native.Mathlib.Nat.{div-add-mod, mod-lt}
use gortsplib.Common.Words.{add16}
use gortsplib.Rtp.{Packet}
use gortsplib.H264.Types.{Nalu}
use gortsplib.H264.Encoder.{
  Encoder, next, packet_of, packet_count, fu_indicator, fu_header, fragment_loop,
}
use gortsplib.H264.Decoder.{ok, Codec, Decoder, concat, join_fragments}
use gortsplib.H264.Feed.{IsPlain, Holds, Fits, Fed, Fed-more, total_size-append}
use gortsplib.H264.Packets.{Fed-of_switch}
use gortsplib.H264.Fragments.{
  concat-append, join_fragments-concat, Building, fua_switch, start_fua, middle_fua, last_fua,
  Building-middle, more_of_fua, fragment_last, fragment_more,
}

module _ (c : Codec) where
  -- One NALU of an access unit within its limits is within the limit too.
  Fits-one :
      (fb : List Nalu) (n : Nalu) → Fits c (fb ++ (n ∷ [])) → length n ≤ c.max_access_unit_size
  Fits-one fb n f = omega (arith, f.1, total_size-append fb (n ∷ []))

  Fed-last :
      (d : Decoder) (fb : List Nalu) (parts : List (List ℕ)) (rest : List ℕ) (pkt : Packet)
      (nri typ : ℕ)
      → typ < 32
      → Building d fb parts pkt.sequence_number
      → IsPlain (concat parts ++ rest)
      → Fits c (fb ++ ((concat parts ++ rest) ∷ []))
      → pkt.payload ≡ fu_indicator nri ∷ fu_header 0 1 typ ∷ rest
      → Fed c d fb (pkt ∷ []) ((concat parts ++ rest) ∷ []) pkt.marker
  Fed-last d fb parts rest pkt nri typ ht b p fits e =
      let room = Fits-one fb (concat parts ++ rest) fits in
      let grown : length (concat (parts ++ (rest ∷ []))) ≡ length (concat parts) + length rest =
        ap length whole ∙ length-append (concat parts) rest in
      let joined : join_fragments (d.fragments ++ (rest ∷ [])) (d.fragments_size + length rest)
          ≡ concat parts ++ rest =
        ap (λ l. join_fragments (l ++ (rest ∷ [])) (d.fragments_size + length rest)) b.parts_in
        ∙ join_fragments-concat (parts ++ (rest ∷ [])) (d.fragments_size + length rest)
            (omega (arith, grown, b.size_in))
        ∙ whole in
      Fed-of_switch c d done fb ((concat parts ++ rest) ∷ []) pkt e
        (fua_switch c d pkt (fu_indicator nri) (fu_header 0 1 typ ∷ rest) (omega arith)
          ∙ ap some (
              last_fua c d fb parts pkt rest typ b
                (omega (arith, room, length-append (concat parts) rest)) ht (fu_indicator nri))
          ∙ ap (λ l. some (ok (l ∷ []), done)) joined)
        (record {
          frame = b.holds.frame;
          count = b.holds.count;
          bytes = b.holds.bytes;
          plain = b.holds.plain;
        })
        (p, tt) fits
    where
      done : Decoder
      done = record d {
        fragments = [];
        fragments_size = 0;
        fragment_next_seq_num = add16 d.fragment_next_seq_num 1;
      }

      whole : concat (parts ++ (rest ∷ [])) ≡ concat parts ++ rest
      whole = concat-append parts (rest ∷ []) ∙ ap (λ l. concat parts ++ l) (append-nil rest)

  Fed-rest :
      (k : ℕ) (e : Encoder) (nri typ avail : ℕ) (marker : Bool) (rest : List ℕ) (d : Decoder)
      (fb : List Nalu) (parts : List (List ℕ))
      → typ < 32
      → Building d fb parts e.sequence_number
      → IsPlain (concat parts ++ rest)
      → Fits c (fb ++ ((concat parts ++ rest) ∷ []))
      → Fed c d fb
          (fragment_loop (suc k) e nri typ 0 marker avail rest).0
          ((concat parts ++ rest) ∷ [])
          marker
  Fed-rest zero e nri typ avail marker rest d fb parts ht b p fits =
      subst (λ l. Fed c d fb l ((concat parts ++ rest) ∷ []) marker)
        (sym (fragment_last e nri typ 0 avail marker rest))
        (Fed-last d fb parts rest (packet_of e marker (fu_indicator nri ∷ fu_header 0 1 typ ∷ rest))
          nri typ ht b p fits refl)
  Fed-rest (suc k) e nri typ avail marker rest d fb parts ht b p fits =
      let head = take avail rest in
      let tail = drop avail rest in
      let pkt = packet_of e false (fu_indicator nri ∷ fu_header 0 0 typ ∷ head) in
      let room = Fits-one fb (concat parts ++ rest) fits in
      let whole : concat (parts ++ (head ∷ [])) ++ tail ≡ concat parts ++ rest =
        ap (λ l. l ++ tail)
          (concat-append parts (head ∷ []) ∙ ap (λ l. concat parts ++ l) (append-nil head))
        ∙ append_assoc (concat parts) head tail
        ∙ ap (λ l. concat parts ++ l) (take-append-drop avail rest) in
      let kept = record d {
        fragments = d.fragments ++ (head ∷ []);
        fragments_size = d.fragments_size + length head;
        fragment_next_seq_num = add16 d.fragment_next_seq_num 1;
      } in
      let ih =
        Fed-rest k (next e) nri typ avail marker tail kept fb (parts ++ (head ∷ [])) ht
          (Building-middle c d fb parts head e.sequence_number b) (subst IsPlain (sym whole) p)
          (subst (λ l. Fits c (fb ++ (l ∷ []))) (sym whole) fits) in
      subst (λ l. Fed c d fb l ((concat parts ++ rest) ∷ []) marker)
        (sym (fragment_more k e nri typ 0 avail marker rest))
        (Fed-more c d kept fb pkt _ ((concat parts ++ rest) ∷ []) marker
          (more_of_fua c d kept pkt refl (omega arith) (
            middle_fua c d fb parts pkt head typ b
              (omega (arith, room, length-append (concat parts) rest, length-take avail rest)) ht
              (fu_indicator nri)))
          (subst
            (λ l.
              Fed c kept fb (fragment_loop (suc k) (next e) nri typ 0 marker avail tail).0 (l ∷ [])
                marker)
            whole ih))

-- A NALU that is longer than a fragment takes two packets at least.
pub packet_count_two : (avail le : ℕ) → 0 < avail → avail < le → 2 ≤ packet_count avail le
unfolding packet_count
packet_count_two avail le h0 hl = grind (arith, div-add-mod le avail, mod-lt le h0)

module _ (c : Codec) where
  -- The packets of a NALU that needs more than one.
  pub Fed-fragmented :
      (k : ℕ) (e : Encoder) (avail : ℕ) (marker : Bool) (h : ℕ) (r : List ℕ) (d : Decoder)
      (fb : List Nalu)
      → Holds d fb
      → IsPlain (h ∷ r)
      → Fits c (fb ++ ((h ∷ r) ∷ []))
      → Fed c d fb
          (fragment_loop (suc (suc k)) e (h / 32 % 4) (h % 32) 1 marker avail r).0
          ((h ∷ r) ∷ [])
          marker
  Fed-fragmented k e avail marker h r d fb hd p fits =
      let head = take avail r in
      let tail = drop avail r in
      let byte : h / 32 % 4 * 32 + h % 32 ≡ h = omega (arith, p.0) in
      let parts = ((h / 32 % 4 * 32 + h % 32) ∷ []) ∷ head ∷ [] in
      let pkt = packet_of e false (fu_indicator (h / 32 % 4) ∷ fu_header 1 0 (h % 32) ∷ head) in
      let begun = record d {
        fragments = parts;
        fragments_size = suc (length head);
        fragment_next_seq_num = add16 e.sequence_number 1;
        first_packet_received = true;
      } in
      let whole : concat parts ++ tail ≡ h ∷ r =
        ap (λ l. (h / 32 % 4 * 32 + h % 32) ∷ (l ++ tail)) (append-nil head)
        ∙ ap (λ l. (h / 32 % 4 * 32 + h % 32) ∷ l) (take-append-drop avail r)
        ∙ ap (λ b. b ∷ r) byte in
      let long : length (concat parts) ≡ suc (length head) =
        ap (λ l. suc (length l)) (append-nil head) in
      let building : Building begun fb parts (next e).sequence_number = record {
        holds = record { frame = hd.frame; count = hd.count; bytes = hd.bytes; plain = hd.plain };
        parts_in = refl;
        size_in = sym long;
        begun = omega (arith, long);
        follows = refl;
      } in
      subst (λ l. Fed c d fb l ((h ∷ r) ∷ []) marker)
        (sym (fragment_more k e (h / 32 % 4) (h % 32) 1 avail marker r))
        (Fed-more c d begun fb pkt _ ((h ∷ r) ∷ []) marker
          (more_of_fua c d begun pkt refl (omega arith)
            (start_fua c d pkt (h / 32 % 4) (h % 32) head (omega arith) (omega arith)))
          (subst
            (λ l.
              Fed c begun fb
                (fragment_loop (suc k) (next e) (h / 32 % 4) (h % 32) 0 marker avail tail).0
                (l ∷ []) marker)
            whole
            (Fed-rest c k (next e) (h / 32 % 4) (h % 32) avail marker tail begun fb parts
              (omega arith) building (subst IsPlain (sym whole) p)
              (subst (λ l. Fits c (fb ++ (l ∷ []))) (sym whole) fits))))
