-- ===== src/H264/Fragments.antt =====
-- The decoder on the fragments (FU-A) of a NALU.
use gortsplib.Common.{
  ℕ, zero, suc, ◌+◌, ◌-◌, ◌*◌, ◌%◌, ◌≤◌, ◌<◌, ◌≡◌, refl, sym, ap, ◌∙◌, Bool, true, false, some,
  List, [], ◌∷◌, ◌++◌, append_assoc, append-nil, length, length-append, take, drop, replicate,
  arith,
}
use gortsplib.Common.Words.{add16}
use gortsplib.Rtp.{Packet}
use gortsplib.H264.Types.{Nalu}
use gortsplib.H264.Encoder.{Encoder, next, packet_of, fu_indicator, fu_header, fragment_loop}
use gortsplib.H264.Decoder.{
  more_packets_needed, ok, err, Codec, Decoder, concat, join_fragments, decode_fua, after_switch,
  decode_switch, decode_nalus,
}
use gortsplib.H264.Feed.{Holds, nalus_of_switch}

pub concat-append : (ps qs : List (List ℕ)) → concat (ps ++ qs) ≡ concat ps ++ concat qs
concat-append [] qs = refl
concat-append (p ∷ ps) qs =
    ap (λ l. p ++ l) (concat-append ps qs) ∙ sym (append_assoc p (concat ps) (concat qs))

take_all : (xs : List ℕ) (n : ℕ) → length xs ≤ n → take n xs ≡ xs
take_all [] zero h = refl
take_all [] (suc n) h = refl
take_all (x ∷ xs) zero h = absurd (omega arith)
take_all (x ∷ xs) (suc n) h = ap (λ l. x ∷ l) (take_all xs n (omega arith))

-- Joined at their own size, the fragments are put end to end.
pub join_fragments-concat :
    (ps : List (List ℕ)) (size : ℕ) → size ≡ length (concat ps) → join_fragments ps size ≡ concat ps
unfolding join_fragments
join_fragments-concat ps size e =
    let none_left : size - length (concat ps) ≡ 0 = omega arith in
    ap (λ l. l ++ replicate (size - length (concat ps)) 0) (take_all (concat ps) size (omega arith))
    ∙ ap (λ k. concat ps ++ replicate k 0) none_left
    ∙ append-nil (concat ps)

-- The packets of the last fragment, and of one before it.
pub fragment_last :
    (e : Encoder) (nri typ start avail : ℕ) (marker : Bool) (rest : List ℕ)
    → (fragment_loop 1 e nri typ start marker avail rest).0
      ≡ packet_of e marker (fu_indicator nri ∷ fu_header start 1 typ ∷ rest) ∷ []
unfolding fragment_loop
fragment_last e nri typ start avail marker rest =
    ap (λ l. packet_of e marker (fu_indicator nri ∷ fu_header start 1 typ ∷ l) ∷ [])
      (take_all rest (length rest) (omega arith))

pub fragment_more :
    (k : ℕ) (e : Encoder) (nri typ start avail : ℕ) (marker : Bool) (rest : List ℕ)
    → (fragment_loop (suc (suc k)) e nri typ start marker avail rest).0
      ≡ packet_of e false (fu_indicator nri ∷ fu_header start 0 typ ∷ take avail rest)
        ∷ (fragment_loop (suc k) (next e) nri typ 0 marker avail (drop avail rest)).0
fragment_more k e nri typ start avail marker rest = unfold fragment_loop in ground arith

-- The decoder holds `fb` and the fragments `parts`, and waits for the packet numbered `seq`.
pub record Building (d : Decoder) (fb : List Nalu) (parts : List (List ℕ)) (seq : ℕ) : Type 0 where
  pub holds : Holds d fb
  pub parts_in : d.fragments ≡ parts
  pub size_in : d.fragments_size ≡ length (concat parts)
  pub begun : 0 < length (concat parts)
  pub follows : d.fragment_next_seq_num ≡ seq

module _ (c : Codec) where
  pub fua_switch :
      (d : Decoder) (pkt : Packet) (b0 : ℕ) (body : List ℕ)
      → b0 % 32 ≡ 28
      → decode_switch c d pkt b0 body ≡ some (decode_fua c d pkt b0 body)
  unfolding decode_switch
  fua_switch d pkt b0 body e = ground arith

  pub start_fua :
      (d : Decoder) (pkt : Packet) (nri typ : ℕ) (body : List ℕ)
      → nri < 4
      → typ < 32
      → decode_fua c d pkt (fu_indicator nri) (fu_header 1 0 typ ∷ body) ≡ (
        err more_packets_needed,
        record d {
          fragments = ((nri * 32 + typ) ∷ []) ∷ body ∷ [];
          fragments_size = suc (length body);
          fragment_next_seq_num = add16 pkt.sequence_number 1;
          first_packet_received = true;
        },
      )
  unfolding decode_fua
  start_fua d pkt nri typ body hn ht = ground arith

  module _ (d : Decoder) (fb : List Nalu) (parts : List (List ℕ)) (pkt : Packet) (body : List ℕ)
      (typ : ℕ) (b : Building d fb parts pkt.sequence_number)
      (small : length (concat parts) + length body ≤ c.max_access_unit_size) (ht : typ < 32) where
    pub middle_fua :
        (b0 : ℕ)
        → decode_fua c d pkt b0 (fu_header 0 0 typ ∷ body) ≡ (
          err more_packets_needed,
          record d {
            fragments = d.fragments ++ (body ∷ []);
            fragments_size = d.fragments_size + length body;
            fragment_next_seq_num = add16 d.fragment_next_seq_num 1;
          },
        )
    unfolding decode_fua
    middle_fua b0 = ground (arith, b.size_in, b.begun, b.follows)

    pub last_fua :
        (b0 : ℕ)
        → decode_fua c d pkt b0 (fu_header 0 1 typ ∷ body) ≡ (
          ok (join_fragments (d.fragments ++ (body ∷ [])) (d.fragments_size + length body) ∷ []),
          record d {
            fragments = [];
            fragments_size = 0;
            fragment_next_seq_num = add16 d.fragment_next_seq_num 1;
          },
        )
    unfolding decode_fua
    last_fua b0 = ground (arith, b.size_in, b.begun, b.follows)

  -- A middle fragment is kept.
  pub Building-middle :
      (d : Decoder) (fb : List Nalu) (parts : List (List ℕ)) (body : List ℕ) (seq : ℕ)
      → Building d fb parts seq
      → Building
          (record d {
            fragments = d.fragments ++ (body ∷ []);
            fragments_size = d.fragments_size + length body;
            fragment_next_seq_num = add16 d.fragment_next_seq_num 1;
          })
          fb
          (parts ++ (body ∷ []))
          (add16 seq 1)
  Building-middle d fb parts body seq b =
      let longer : length (concat (parts ++ (body ∷ []))) ≡ length (concat parts) + length body =
        ap length (concat-append parts (body ∷ []) ∙ ap (λ l. concat parts ++ l) (append-nil body))
        ∙ length-append (concat parts) body in
      record {
        holds = record {
          frame = b.holds.frame;
          count = b.holds.count;
          bytes = b.holds.bytes;
          plain = b.holds.plain;
        };
        parts_in = ap (λ l. l ++ (body ∷ [])) b.parts_in;
        size_in = omega (arith, longer, b.size_in);
        begun = omega (arith, longer, b.begun);
        follows = ap (λ k. add16 k 1) b.follows;
      }

  pub more_of_fua :
      (d d' : Decoder) (pkt : Packet) {b0 : ℕ} {body : List ℕ}
      → pkt.payload ≡ b0 ∷ body
      → b0 % 32 ≡ 28
      → decode_fua c d pkt b0 body ≡ (err more_packets_needed, d')
      → decode_nalus c d pkt ≡ some (err more_packets_needed, d')
  more_of_fua d d' pkt {b0} {body} e t f =
      nalus_of_switch c d pkt e (fua_switch d pkt b0 body t ∙ ap some f)
      ∙ unfold after_switch in refl
