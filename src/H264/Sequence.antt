-- ===== src/H264/Sequence.antt =====
-- The headers and sizes of the packets that the encoder writes.
use gortsplib.Common.{
  ℕ, zero, suc, ◌+◌, ◌-◌, ◌*◌, ◌/◌, ◌%◌, ◌≤◌, ◌<◌, ◌≡◌, refl, sym, ◌∙◌, subst, subst₂, Bool, false,
  Option, some, List, [], ◌∷◌, ◌++◌, length, length-append, take, drop, length-take, length-drop,
  dec_lt, arith,
}
use native.Mathlib.Nat.{div-add-mod, mod-lt}
use gortsplib.Common.Words.{add16}
use gortsplib.Rtp.{Packet}
use gortsplib.H264.Types.{Nalu}
use gortsplib.H264.Encoder.{
  Encoder, next, packet_of, packet_count, aggregate_loop, fu_indicator, fu_header, fragment_loop,
  write_batch, write_aggregated, aggregated_sizes,
}
use gortsplib.H264.Fragments.{fragment_last, fragment_more}
use gortsplib.H264.FragmentRun.{packet_count_two}
use gortsplib.H264.RoundTrip.{FitsPacket, fragmented_eq, single_eq, long_eq, fragment_loop-payload}

-- At least one packet; the sequence numbers run from `s` to before `s'`; every payload has at most
-- `size` bytes; the last packet has the marker `m`, and no other has it.
abbrev pub Sent : ℕ → ℕ → List Packet → Bool → ℕ → Type 0
Sent size s [] m s' = ⊥
Sent size s (p ∷ []) m s' =
    (p.sequence_number ≡ s) × (p.marker ≡ m) × (length p.payload ≤ size) × (s' ≡ add16 s 1)
Sent size s (p ∷ q ∷ ps) m s' =
    (p.sequence_number ≡ s)
    × (p.marker ≡ false)
    × (length p.payload ≤ size)
    × Sent size (add16 s 1) (q ∷ ps) m s'

pub Sent-append :
    (size s t u : ℕ) (ps qs : List Packet) (m : Bool)
    → Sent size s ps false t
    → Sent size t qs m u
    → Sent size s (ps ++ qs) m u
Sent-append size s t u [] qs m h k = absurd h
Sent-append size s t u (p ∷ []) [] m h k = absurd k
Sent-append size s t u (p ∷ []) (q ∷ qs) m h k =
    (h.0, h.1, h.2, subst (λ n. Sent size n (q ∷ qs) m u) h.3 k)
Sent-append size s t u (p ∷ p' ∷ ps) qs m h k =
    (h.0, h.1, h.2, Sent-append size (add16 s 1) t u (p' ∷ ps) qs m h.3 k)

enough_packets : (avail le : ℕ) → 0 < avail → le ≤ avail * packet_count avail le
unfolding packet_count
enough_packets avail le h = grind (arith, div-add-mod le avail, mod-lt le h)

fragment_loop_next :
    (k : ℕ) (e : Encoder) (nri typ start avail : ℕ) (marker : Bool) (rest : List ℕ)
    → (fragment_loop (suc (suc k)) e nri typ start marker avail rest).1
      ≡ (fragment_loop (suc k) (next e) nri typ 0 marker avail (drop avail rest)).1
unfolding fragment_loop
fragment_loop_next k e nri typ start avail marker rest = ground arith

fragment_loop-Sent :
    (k : ℕ) (e : Encoder) (nri typ start avail : ℕ) (marker : Bool) (rest : List ℕ)
    → length rest ≤ avail * suc k
    → Sent
        (avail + 2)
        e.sequence_number
        (fragment_loop (suc k) e nri typ start marker avail rest).0
        marker
        (fragment_loop (suc k) e nri typ start marker avail rest).1.sequence_number
fragment_loop-Sent zero e nri typ start avail marker rest h =
    subst
      (λ ps.
        Sent (avail + 2) e.sequence_number ps marker
          (fragment_loop 1 e nri typ start marker avail rest).1.sequence_number)
      (sym (fragment_last e nri typ start avail marker rest))
      (refl, refl, omega arith, unfold fragment_loop in refl)
fragment_loop-Sent (suc k) e nri typ start avail marker rest h =
    let ih =
      fragment_loop-Sent k (next e) nri typ 0 avail marker (drop avail rest)
        (grind (arith, length-drop avail rest)) in
    subst₂ (λ ps (n : Encoder). Sent (avail + 2) e.sequence_number ps marker n.sequence_number)
      (sym (fragment_more k e nri typ start avail marker rest))
      (sym (fragment_loop_next k e nri typ start avail marker rest)) (cons_Sent _ _ ih)
  where
    cons_Sent :
        (ps : List Packet) (t : ℕ)
        → Sent (avail + 2) (add16 e.sequence_number 1) ps marker t
        → Sent
            (avail + 2)
            e.sequence_number
            (packet_of e false (fu_indicator nri ∷ fu_header start 0 typ ∷ take avail rest) ∷ ps)
            marker
            t
    cons_Sent [] t s = absurd s
    cons_Sent (p ∷ ps) t s = (refl, refl, omega (arith, length-take avail rest), s)

length-aggregate_loop_eq : (ns : List Nalu) → length (aggregate_loop ns) ≡ aggregated_sizes ns
unfolding aggregate_loop
length-aggregate_loop_eq [] = refl
length-aggregate_loop_eq (n ∷ ns) =
    omega (arith, length-append n (aggregate_loop ns), length-aggregate_loop_eq ns)

-- What a writer of packets comes to.
pub record Writes (e : Encoder) (m : Bool) (result : Option (List Packet × Encoder)) : Type 0 where
  pub pkts : List Packet
  pub after : Encoder
  pub result_is : result ≡ some (pkts, after)
  pub same_size : after.payload_max_size ≡ e.payload_max_size
  pub sent : Sent e.payload_max_size e.sequence_number pkts m after.sequence_number

pub write_batch-Writes :
    (e : Encoder) (ns : List Nalu) (m : Bool)
    → 3 ≤ e.payload_max_size
    → FitsPacket e ns
    → Writes e m (write_batch e ns m)
write_batch-Writes e [] m room fits = record {
  pkts = packet_of e m (24 ∷ []) ∷ [];
  after = next e;
  result_is = unfold write_batch write_aggregated aggregate_loop in refl;
  same_size = refl;
  sent = (refl, refl, omega arith, refl);
}
write_batch-Writes e (n ∷ m' ∷ ns) m room fits = record {
  pkts = packet_of e m (24 ∷ aggregate_loop (n ∷ m' ∷ ns)) ∷ [];
  after = next e;
  result_is = unfold write_batch write_aggregated in refl;
  same_size = refl;
  sent = (refl, refl, omega (arith, length-aggregate_loop_eq (n ∷ m' ∷ ns)), refl);
}
write_batch-Writes e ([] ∷ []) m room fits = record {
  pkts = packet_of e m [] ∷ [];
  after = next e;
  result_is = single_eq e [] m (omega arith);
  same_size = refl;
  sent = (refl, refl, omega arith, refl);
}
write_batch-Writes e ((h ∷ r) ∷ []) m room fits =
    elim (dec_lt (length (h ∷ r)) e.payload_max_size) [
      | yes short ↦ record {
        pkts = packet_of e m (h ∷ r) ∷ [];
        after = next e;
        result_is = single_eq e (h ∷ r) m short;
        same_size = refl;
        sent = (refl, refl, omega (arith, short), refl);
      }
      | no long ↦
          let avail = e.payload_max_size - 2 in
          let count = packet_count avail (length r) in
          let le_long : e.payload_max_size ≤ length (h ∷ r) = omega (arith, long) in
          let one : suc (count - 1) ≡ count =
            omega
              (arith, packet_count_two avail (length r) (omega arith) (omega (arith, le_long))) in
          let size : avail + 2 ≡ e.payload_max_size = omega arith in
          record {
            pkts = (fragment_loop count e (h / 32 % 4) (h % 32) 1 m avail r).0;
            after = (fragment_loop count e (h / 32 % 4) (h % 32) 1 m avail r).1;
            result_is = long_eq e (h ∷ r) m le_long ∙ fragmented_eq e h r m room;
            same_size = fragment_loop-payload count e (h / 32 % 4) (h % 32) 1 avail m r;
            sent =
                subst₂
                  (λ z k.
                    Sent z e.sequence_number (fragment_loop k e (h / 32 % 4) (h % 32) 1 m avail r).0
                      m (fragment_loop k e (h / 32 % 4) (h % 32) 1 m avail r).1.sequence_number)
                  size one
                  (fragment_loop-Sent (count - 1) e (h / 32 % 4) (h % 32) 1 avail m r (
                    subst (λ k. length r ≤ avail * k) (sym one)
                      (enough_packets avail (length r) (omega arith))));
          }
    ]
