-- ===== src/H264/RoundTrip.antt =====
-- What a batch of NALUs becomes, and the steps of the loop of `Encode`.
use gortsplib.Common.{
  ℕ, zero, suc, ◌+◌, ◌-◌, ◌/◌, ◌%◌, ◌≤◌, ◌<◌, ◌≡◌, refl, ◌∙◌, subst, Bool, true, false, leb, Option,
  some, List, [], ◌∷◌, ◌++◌, length, All, dec_lt, arith,
}
use gortsplib.Rtp.{Packet}
use gortsplib.H264.Types.{Nalu}
use gortsplib.H264.Encoder.{
  Encoder, next, packet_of, packet_count, aggregate_loop, fragment_loop, write_fragmented,
  write_single, write_aggregated, write_batch, aggregated_sizes, len_aggregated, encode_loop,
}
use gortsplib.H264.Decoder.{Codec, Decoder}
use gortsplib.H264.Feed.{IsPlain, Holds, Fits, Fed}
use gortsplib.H264.Packets.{IsSizeOk, Fed-single, Fed-aggregated}
use gortsplib.H264.FragmentRun.{packet_count_two, Fed-fragmented}

-- The payload size leaves room for fragments, and the sizes of a STAP-A fit in 16 bits.
abbrev pub HasRoom : Encoder → Type 0
HasRoom e = (3 ≤ e.payload_max_size) × (e.payload_max_size ≤ 65535)

-- A batch that `Encode` writes: one NALU, or several that fit in a packet together.
abbrev pub FitsPacket : Encoder → List Nalu → Type 0
FitsPacket e [] = Unit
FitsPacket e (n ∷ []) = Unit
FitsPacket e (n ∷ m ∷ ns) = 1 + aggregated_sizes (n ∷ m ∷ ns) ≤ e.payload_max_size

All-IsSizeOk : (ns : List Nalu) → aggregated_sizes ns < 65536 → All IsSizeOk ns
All-IsSizeOk [] h = tt
All-IsSizeOk (n ∷ ns) h = (omega arith, All-IsSizeOk ns (omega arith))

pub fragmented_eq :
    (e : Encoder) (h : ℕ) (r : List ℕ) (marker : Bool)
    → 3 ≤ e.payload_max_size
    → write_fragmented e (h ∷ r) marker
      ≡ some (
          fragment_loop
            (packet_count (e.payload_max_size - 2) (length r))
            e
            (h / 32 % 4)
            (h % 32)
            1
            marker
            (e.payload_max_size - 2)
            r)
unfolding write_fragmented
fragmented_eq e h r marker p = ground arith

pub single_eq :
    (e : Encoder) (n : Nalu) (marker : Bool)
    → length n < e.payload_max_size
    → write_batch e (n ∷ []) marker ≡ some (packet_of e marker n ∷ [], next e)
unfolding write_batch write_single
single_eq e n marker h = ground arith

pub long_eq :
    (e : Encoder) (n : Nalu) (marker : Bool)
    → e.payload_max_size ≤ length n
    → write_batch e (n ∷ []) marker ≡ write_fragmented e n marker
unfolding write_batch
long_eq e n marker h = ground arith

-- The packets of a batch, and what the decoder makes of them.
pub record Written (c : Codec) (e : Encoder) (d : Decoder) (fb ns : List Nalu) (marker : Bool)
    (result : Option (List Packet × Encoder)) : Type 0 where
  pub pkts : List Packet
  pub after : Encoder
  pub written : result ≡ some (pkts, after)
  pub same_size : after.payload_max_size ≡ e.payload_max_size
  pub fed : Fed c d fb pkts ns marker

pub fragment_loop-payload :
    (k : ℕ) (e : Encoder) (nri typ start avail : ℕ) (marker : Bool) (rest : List ℕ)
    → (fragment_loop k e nri typ start marker avail rest).1.payload_max_size ≡ e.payload_max_size
unfolding fragment_loop
fragment_loop-payload zero e nri typ start avail marker rest = refl
fragment_loop-payload (suc k) e nri typ start avail marker rest =
    fragment_loop-payload k (next e) nri typ 0 avail marker _

module _ (c : Codec) (e : Encoder) (room : HasRoom e) (d : Decoder) (fb : List Nalu)
    (hd : Holds d fb) (marker : Bool) where
  write_long :
      (h : ℕ) (r : List ℕ)
      → IsPlain (h ∷ r)
      → Fits c (fb ++ ((h ∷ r) ∷ []))
      → e.payload_max_size ≤ length (h ∷ r)
      → Written c e d fb ((h ∷ r) ∷ []) marker (write_batch e ((h ∷ r) ∷ []) marker)
  write_long h r p fits long =
      let avail = e.payload_max_size - 2 in
      let count = packet_count avail (length r) in
      let two : suc (suc (count - 2)) ≡ count = omega (
        arith,
        packet_count_two avail (length r) (omega (arith, room.0)) (omega (arith, room.0, long)),
      ) in
      record {
        pkts = (fragment_loop count e (h / 32 % 4) (h % 32) 1 marker avail r).0;
        after = (fragment_loop count e (h / 32 % 4) (h % 32) 1 marker avail r).1;
        written = long_eq e (h ∷ r) marker long ∙ fragmented_eq e h r marker room.0;
        same_size = fragment_loop-payload count e (h / 32 % 4) (h % 32) 1 avail marker r;
        fed =
            subst
              (λ n.
                Fed c d fb (fragment_loop n e (h / 32 % 4) (h % 32) 1 marker avail r).0
                  ((h ∷ r) ∷ []) marker)
              two (Fed-fragmented c (count - 2) e avail marker h r d fb hd p fits);
      }

  pub write_batch-Written :
      (n : Nalu) (ns : List Nalu)
      → All IsPlain (n ∷ ns)
      → FitsPacket e (n ∷ ns)
      → Fits c (fb ++ (n ∷ ns))
      → Written c e d fb (n ∷ ns) marker (write_batch e (n ∷ ns) marker)
  write_batch-Written n (m ∷ ms) p small fits = record {
    pkts = packet_of e marker (24 ∷ aggregate_loop (n ∷ m ∷ ms)) ∷ [];
    after = next e;
    written = unfold write_batch write_aggregated in refl;
    same_size = refl;
    fed =
        Fed-aggregated c d fb n (m ∷ ms) (packet_of e marker (24 ∷ aggregate_loop (n ∷ m ∷ ms))) hd
          p (All-IsSizeOk (n ∷ m ∷ ms) (omega (arith, room.1, small))) fits refl;
  }
  write_batch-Written [] [] p small fits = absurd p.0
  write_batch-Written (h ∷ r) [] p small fits = elim (dec_lt (length (h ∷ r)) e.payload_max_size) [
    | yes short ↦ record {
      pkts = packet_of e marker (h ∷ r) ∷ [];
      after = next e;
      written = single_eq e (h ∷ r) marker short;
      same_size = refl;
      fed = Fed-single c d fb (h ∷ r) (packet_of e marker (h ∷ r)) hd p.0 fits refl;
    }
    | no long ↦ write_long h r p.0 fits (omega (arith, long))
  ]

-- What `Encode` still writes, with a batch in hand.
pub record Encoded (c : Codec) (e : Encoder) (d : Decoder) (fb batch au : List Nalu)
    (rets : List Packet) : Type 0 where
  pub pkts : List Packet
  pub after : Encoder
  pub encoded : encode_loop e batch rets au ≡ some (rets ++ pkts, after)
  pub fed : Fed c d fb pkts (batch ++ au) true

pub loop_end :
    (e : Encoder) (batch : List Nalu) (rets : List Packet) {pkts : List Packet} {e' : Encoder}
    → write_batch e batch true ≡ some (pkts, e')
    → encode_loop e batch rets [] ≡ some (rets ++ pkts, e')
unfolding encode_loop
loop_end e batch rets q = rw (q, encode_loop)

pub loop_add :
    (e : Encoder) (batch : List Nalu) (rets : List Packet) (n : Nalu) (au : List Nalu)
    → leb (len_aggregated batch (some n)) e.payload_max_size ≡ true
    → encode_loop e batch rets (n ∷ au) ≡ encode_loop e (batch ++ (n ∷ [])) rets au
unfolding encode_loop
loop_add e batch rets n au q = rw (q, encode_loop)

pub loop_first :
    (e : Encoder) (rets : List Packet) (n : Nalu) (au : List Nalu)
    → leb (len_aggregated [] (some n)) e.payload_max_size ≡ false
    → encode_loop e [] rets (n ∷ au) ≡ encode_loop e (n ∷ []) rets au
unfolding encode_loop
loop_first e rets n au q = rw (q, encode_loop)

pub loop_flush :
    (e : Encoder) (b : Nalu) (bs : List Nalu) (rets : List Packet) (n : Nalu) (au : List Nalu)
    {pkts : List Packet} {e' : Encoder}
    → leb (len_aggregated (b ∷ bs) (some n)) e.payload_max_size ≡ false
    → write_batch e (b ∷ bs) false ≡ some (pkts, e')
    → encode_loop e (b ∷ bs) rets (n ∷ au) ≡ encode_loop e' (n ∷ []) (rets ++ pkts) au
unfolding encode_loop
loop_flush e b bs rets n au q w = rw (q, encode_loop) (rw (w, encode_loop))
