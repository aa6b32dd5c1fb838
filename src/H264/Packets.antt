-- ===== src/H264/Packets.antt =====
-- The decoder on a packet with one NALU, and on a packet with several (STAP-A).
use gortsplib.Common.{
  ℕ, zero, suc, ◌%◌, ◌≤◌, ◌<◌, ◌≡◌, ◌≢◌, refl, ap, ◌∙◌, true, some, List, [], ◌∷◌, ◌++◌,
  append_assoc, length, length-append, take, drop, take-length_append, drop-length_append, All,
  arith,
}
use gortsplib.Common.Bytes.{be16, high_byte, low_byte, be16-bytes}
use gortsplib.Rtp.{Packet}
use gortsplib.H264.Types.{Nalu}
use gortsplib.H264.Encoder.{aggregate_loop}
use gortsplib.H264.Decoder.{
  ok, Codec, Decoder, stapa_loop, decode_stapa, after_switch, decode_switch,
}
use gortsplib.H264.Feed.{IsPlain, Holds, Fits, Fed, Fed-of_nalus, nalus_of_switch}

abbrev pub IsSizeOk : Nalu → Type 0
IsSizeOk n = length n < 65536

-- A round of the STAP-A loop on an entry that is not empty and not cut.
module _ (k hi lo : ℕ) (payload : List ℕ) (acc : List Nalu) (n : Nalu) (some_size : be16 hi lo ≢ 0)
    (enough : be16 hi lo ≤ length payload) (entry : take (be16 hi lo) payload ≡ n) where
  stapa_last :
      drop (be16 hi lo) payload ≡ []
      → stapa_loop (suc k) (hi ∷ lo ∷ payload) acc ≡ some (ok (acc ++ (n ∷ [])))
  unfolding stapa_loop
  stapa_last e = ground arith

  stapa_round :
      {b : ℕ} {bs : List ℕ}
      → drop (be16 hi lo) payload ≡ b ∷ bs
      → stapa_loop (suc k) (hi ∷ lo ∷ payload) acc ≡ stapa_loop k (b ∷ bs) (acc ++ (n ∷ []))
  unfolding stapa_loop
  stapa_round e = ground arith

IsPlain-pos : (n : Nalu) → IsPlain n → 0 < length n
IsPlain-pos [] p = absurd p
IsPlain-pos (h ∷ r) p = omega arith

-- The STAP-A loop reads back what the encoder aggregated.
pub stapa_loop-aggregate_loop :
    (k : ℕ) (n : Nalu) (ns acc : List Nalu)
    → length ns < k
    → All IsPlain (n ∷ ns)
    → All IsSizeOk (n ∷ ns)
    → stapa_loop k (aggregate_loop (n ∷ ns)) acc ≡ some (ok (acc ++ (n ∷ ns)))
unfolding aggregate_loop
stapa_loop-aggregate_loop zero n ns acc hk hp hs = absurd (omega arith)
stapa_loop-aggregate_loop (suc k) n [] acc hk hp hs =
    let size : be16 (high_byte (length n)) (low_byte (length n)) ≡ length n =
      be16-bytes (length n) hs.0 in
    stapa_last k _ _ (n ++ []) acc n (omega (arith, size, IsPlain-pos n hp.0))
      (omega (arith, size, length-append n []))
      (ap (λ j. take j (n ++ [])) size ∙ take-length_append n [])
      (ap (λ j. drop j (n ++ [])) size ∙ drop-length_append n [])
stapa_loop-aggregate_loop (suc k) n (m ∷ ms) acc hk hp hs =
    let size : be16 (high_byte (length n)) (low_byte (length n)) ≡ length n =
      be16-bytes (length n) hs.0 in
    let rest = aggregate_loop (m ∷ ms) in
    stapa_round k _ _ (n ++ rest) acc n (omega (arith, size, IsPlain-pos n hp.0))
      (omega (arith, size, length-append n rest))
      (ap (λ j. take j (n ++ rest)) size ∙ take-length_append n rest)
      (ap (λ j. drop j (n ++ rest)) size ∙ drop-length_append n rest)
    ∙ stapa_loop-aggregate_loop k m ms (acc ++ (n ∷ [])) (omega arith) hp.1 hs.1
    ∙ ap (λ l. some (ok l)) (append_assoc acc (n ∷ []) (m ∷ ms))

length-aggregate_loop : (ns : List Nalu) → length ns ≤ length (aggregate_loop ns)
unfolding aggregate_loop
length-aggregate_loop [] = omega arith
length-aggregate_loop (n ∷ ns) =
    omega (arith, length-append n (aggregate_loop ns), length-aggregate_loop ns)

module _ (c : Codec) where
  -- The switch leaves the frame and the Annex-B mode alone.
  single_switch :
      (d : Decoder) (pkt : Packet) (h : ℕ) (r : List ℕ)
      → h % 32 < 24
      → decode_switch c d pkt h r
        ≡ some (
          ok ((h ∷ r) ∷ []),
          record d { fragments = []; fragments_size = 0; first_packet_received = true },
        )
  unfolding decode_switch
  single_switch d pkt h r t = ground arith

  stapa_switch :
      (d : Decoder) (pkt : Packet) (body : List ℕ) (n : Nalu) (ns : List Nalu)
      → stapa_loop (suc (length body)) body [] ≡ some (ok (n ∷ ns))
      → decode_switch c d pkt 24 body
        ≡ some (
          ok (n ∷ ns),
          record d { fragments = []; fragments_size = 0; first_packet_received = true },
        )
  unfolding decode_switch
  stapa_switch d pkt body n ns e = rw (e, decode_stapa)

  -- `removeAnnexB` changes nothing for NALUs without a start code.
  pub after_switch_plain :
      (d : Decoder) (fb ns : List Nalu)
      → Holds d fb
      → All IsPlain ns
      → ((after_switch c (ok ns, d)).0 ≡ ok ns) × Holds (after_switch c (ok ns, d)).1 fb
  unfolding after_switch
  after_switch_plain d fb [] h p = (refl, h)
  after_switch_plain d fb (n ∷ m ∷ ms) h p = (refl, h)
  after_switch_plain d fb ([] ∷ []) h p = absurd p.0
  after_switch_plain d fb ((b ∷ r) ∷ []) h p = (
    ground (arith, h.plain, p.0.2),
    record {
      frame = ground (arith, h.plain, p.0.2, h.frame);
      count = ground (arith, h.plain, p.0.2, h.count);
      bytes = ground (arith, h.plain, p.0.2, h.bytes);
      plain = ground (arith, h.plain, p.0.2);
    },
  )

  pub Fed-of_switch :
      (d d1 : Decoder) (fb ns : List Nalu) (pkt : Packet) {b0 : ℕ} {body : List ℕ}
      → pkt.payload ≡ b0 ∷ body
      → decode_switch c d pkt b0 body ≡ some (ok ns, d1)
      → Holds d1 fb
      → All IsPlain ns
      → Fits c (fb ++ ns)
      → Fed c d fb (pkt ∷ []) ns pkt.marker
  Fed-of_switch d d1 fb ns pkt e f h p fits =
      let (same, h') = after_switch_plain d1 fb ns h p in
      Fed-of_nalus c (after_switch c (ok ns, d1)).1 fb ns h' fits d pkt pkt.marker refl
        (nalus_of_switch c d pkt e f ∙ ap (λ r. some (r, (after_switch c (ok ns, d1)).1)) same)

  -- A NALU in a packet of its own.
  pub Fed-single :
      (d : Decoder) (fb : List Nalu) (n : Nalu) (pkt : Packet)
      → Holds d fb
      → IsPlain n
      → Fits c (fb ++ (n ∷ []))
      → pkt.payload ≡ n
      → Fed c d fb (pkt ∷ []) (n ∷ []) pkt.marker
  Fed-single d fb [] pkt h p fits e = absurd p
  Fed-single d fb (b ∷ r) pkt h p fits e =
      Fed-of_switch d _ fb ((b ∷ r) ∷ []) pkt e (single_switch d pkt b r p.1)
        (record { frame = h.frame; count = h.count; bytes = h.bytes; plain = h.plain }) (p, tt) fits

  -- Several NALUs in a packet.
  pub Fed-aggregated :
      (d : Decoder) (fb : List Nalu) (n : Nalu) (ns : List Nalu) (pkt : Packet)
      → Holds d fb
      → All IsPlain (n ∷ ns)
      → All IsSizeOk (n ∷ ns)
      → Fits c (fb ++ (n ∷ ns))
      → pkt.payload ≡ 24 ∷ aggregate_loop (n ∷ ns)
      → Fed c d fb (pkt ∷ []) (n ∷ ns) pkt.marker
  Fed-aggregated d fb n ns pkt h p s fits e =
      Fed-of_switch d _ fb (n ∷ ns) pkt e
        (stapa_switch d pkt (aggregate_loop (n ∷ ns)) n ns (
          stapa_loop-aggregate_loop (suc (length (aggregate_loop (n ∷ ns)))) n ns []
            (omega (arith, length-aggregate_loop (n ∷ ns))) p s))
        (record { frame = h.frame; count = h.count; bytes = h.bytes; plain = h.plain }) p fits
