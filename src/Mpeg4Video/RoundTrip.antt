-- ===== src/Mpeg4Video/RoundTrip.antt =====
-- A frame that is encoded is decoded again, once.
use native.Mathlib.Nat.{div-add-mod', mod-lt, suc-mul}
use gortsplib.Common.{
  ℕ, zero, suc, ◌+◌, ◌*◌, ◌/◌, ◌%◌, ◌<◌, ◌≤◌, ◌≡◌, refl, sym, ap, ap₂, ◌∙◌, true, false, not, ◌==◌,
  ltb, if◌then◌else◌, Option, none, some, List, [], ◌∷◌, ◌++◌, append-nil, append_assoc, length,
  take, take-ge, drop, length-take, length-drop, length-append, take-append-drop, true-ne-false,
  arith,
}
use gortsplib.Common.Cases.{if_case, some_case}
use gortsplib.Common.Words.{add16}
use gortsplib.Rtp.{Packet}
use gortsplib.Mpeg4Video.{
  VideoEncoder, video_packet_count, video_packet, split_frame, encode_frame, VideoDecoder,
  VideoError, more_packets_needed, packet_missing, frame_too_big, join_parts, reset_parts,
  decode_frame,
}

-- The frames that a decoder gives for packets; none if it gives another error than that it needs more
-- packets.
unfoldable pub deliver_frames : ℕ → VideoDecoder → List Packet → Option (List (List ℕ))
deliver_frames most d [] = some []
deliver_frames most d (p ∷ ps) =
    let (r, d') = decode_frame most d p in
    let rest = deliver_frames most d' ps in
    elim r.0 [
      | none ↦ elim rest [ none ↦ none | some fs ↦ some (r.1 ∷ fs) ]
      | some e ↦ elim e [
        | more_packets_needed ↦ rest
        | packet_missing ↦ none
        | frame_too_big ↦ none
      ]
    ]

abbrev joined : List (List ℕ) → List ℕ
joined [] = []
joined (p ∷ ps) = p ++ joined ps

join_parts-joined : (ps : List (List ℕ)) → join_parts ps (length (joined ps)) ≡ joined ps
unfolding join_parts
join_parts-joined [] = refl
join_parts-joined (p ∷ ps) =
    let le = length-append p (joined ps) in
    ap₂ (λ xs n. xs ++ join_parts ps n) (take-ge _ p (omega (arith, le))) (omega (arith, le))
    ∙ ap (λ ys. p ++ ys) (join_parts-joined ps)

joined-append : (ps : List (List ℕ)) (p : List ℕ) → joined (ps ++ (p ∷ [])) ≡ joined ps ++ p
joined-append [] p = append-nil p
joined-append (q ∷ ps) p =
    ap (λ ys. q ++ ys) (joined-append ps p) ∙ sym (append_assoc q (joined ps) p)

-- A decoder in the middle of a frame, of which it has `front`, or at the start of one.
record Holds (front : List ℕ) (seq : ℕ) (d : VideoDecoder) : Type 0 where
  parts : joined d.fragments ≡ front
  size : d.fragments_size ≡ length front
  next : (length front == 0) ≡ false → d.fragment_next_seq_num ≡ seq

-- The last packet of a frame gives the frame, and a decoder at the start of one.
decode_last :
    (most : ℕ) (e : VideoEncoder) (front rest : List ℕ) (d : VideoDecoder)
    → Holds front e.sequence_number d
    → length front + length rest ≤ most
    → (decode_frame most d (video_packet e true rest)).0 ≡ (none, front ++ rest)
unfolding decode_frame reset_parts
decode_last most e front rest d h b =
    if_case Goal (d.fragments_size == 0)
      (λ z. ap (λ xs. (none, xs ++ rest)) (sym (empty front (ground (arith, h.size, z)))))
      (λ z.
        if_case Goal (not (e.sequence_number == d.fragment_next_seq_num))
          (λ n. absurd (true-ne-false (ground (arith, n, h.next (ground (arith, h.size, z))))))
          (λ n.
            if_case Goal (ltb most (d.fragments_size + length rest))
              (λ t. absurd (true-ne-false (ground (arith, t, h.size, b))))
              (λ t. ap (λ xs. (none, xs)) whole)))
  where
    Goal : (Option VideoError × List ℕ) × VideoDecoder → Type 0
    Goal o = o.0 ≡ (none, front ++ rest)

    empty : (xs : List ℕ) → length xs ≡ 0 → xs ≡ []
    empty [] l = refl
    empty (x ∷ xs) l = absurd (omega (arith, l))

    all : joined (d.fragments ++ (rest ∷ [])) ≡ front ++ rest
    all = joined-append d.fragments rest ∙ ap (λ xs. xs ++ rest) h.parts

    whole : join_parts (d.fragments ++ (rest ∷ [])) (d.fragments_size + length rest) ≡ front ++ rest
    whole =
        ap (λ n. join_parts (d.fragments ++ (rest ∷ [])) n)
          (ap (λ n. n + length rest) h.size ∙ sym (length-append front rest) ∙ ap length (sym all))
        ∙ join_parts-joined (d.fragments ++ (rest ∷ []))
        ∙ all

-- Another packet of a frame, which is not empty.
decode_middle :
    (most : ℕ) (e : VideoEncoder) (front part : List ℕ) (d : VideoDecoder)
    → Holds front e.sequence_number d
    → length front + length part ≤ most
    → ((decode_frame most d (video_packet e false part)).0.0 ≡ some more_packets_needed)
      × Holds
          (front ++ part)
          (add16 e.sequence_number 1)
          (decode_frame most d (video_packet e false part)).1
unfolding decode_frame
decode_middle most e front part d h b =
    if_case Goal (d.fragments_size == 0)
      (λ z. (
        refl,
        record {
          parts = all;
          size = let le = length-append front part in ground (arith, le, h.size, z);
          next = λ n. refl;
        },
      ))
      (λ z.
        let same = h.next (ground (arith, h.size, z)) in
        if_case Goal (not (e.sequence_number == d.fragment_next_seq_num))
          (λ n. absurd (true-ne-false (ground (arith, n, same))))
          (λ n.
            if_case Goal (ltb most (d.fragments_size + length part))
              (λ t. absurd (true-ne-false (ground (arith, t, h.size, b))))
              (λ t. (
                refl,
                record {
                  parts = all;
                  size = ap (λ n. n + length part) h.size ∙ sym (length-append front part);
                  next = λ q. ap (λ s. add16 s 1) same;
                },
              ))))
  where
    Goal : (Option VideoError × List ℕ) × VideoDecoder → Type 0
    Goal o =
        (o.0.0 ≡ some more_packets_needed) × Holds (front ++ part) (add16 e.sequence_number 1) o.1

    all : joined (d.fragments ++ (part ∷ [])) ≡ front ++ part
    all = joined-append d.fragments part ∙ ap (λ xs. xs ++ part) h.parts

deliver_middle :
    (most : ℕ) (d : VideoDecoder) (p : Packet) (ps : List Packet) {fs : List (List ℕ)}
    → (decode_frame most d p).0.0 ≡ some more_packets_needed
    → deliver_frames most (decode_frame most d p).1 ps ≡ some fs
    → deliver_frames most d (p ∷ ps) ≡ some fs
unfolding deliver_frames
deliver_middle most d p ps {fs} h r = ground (arith, h, r)

deliver_last :
    (most : ℕ) (d : VideoDecoder) (p : Packet) (frame : List ℕ)
    → (decode_frame most d p).0 ≡ (none, frame)
    → deliver_frames most d (p ∷ []) ≡ some (frame ∷ [])
unfolding deliver_frames
deliver_last most d p frame h = ground (arith, h)

zero_of : (n : ℕ) → (n == 0) ≡ true → n ≡ 0
zero_of n h = ground (arith, h)

-- What is left of a frame is split and delivered with what the decoder has of it.
split_frame-delivered :
    (most k : ℕ) (e : VideoEncoder) (front rest : List ℕ) (d : VideoDecoder)
    → Holds front e.sequence_number d
    → length front + length rest ≤ most
    → length rest ≤ suc k * e.payload_max_size
    → k * e.payload_max_size < length rest
    → (ps : List Packet) × (e' : VideoEncoder) × (split_frame (suc k) e rest ≡ some (ps, e'))
      × (deliver_frames most d ps ≡ some ((front ++ rest) ∷ []))
unfolding split_frame
split_frame-delivered most zero e front rest d h b up low = (
  _,
  _,
  refl,
  deliver_last most d (video_packet e true rest) (front ++ rest)
      (decode_last most e front rest d h b),
)
split_frame-delivered most (suc k) e front rest d h b up low =
    let a = e.payload_max_size in
    let s1 = suc-mul (suc k) a in
    let s2 = suc-mul k a in
    let part = take a rest in
    let enough : a ≤ length rest = omega (arith, low, s2) in
    let taken : length part ≡ a = length-take a rest ∙ omega (arith, enough) in
    let left = length-drop a rest in
    let (more, h') = decode_middle most e front part d h (omega (arith, b, taken, enough)) in
    let sum = length-append front part in
    let (ps, e', eq, delivered) =
      split_frame-delivered most k (record e { sequence_number = add16 e.sequence_number 1 })
        (front ++ part) (drop a rest) (decode_frame most d (video_packet e false part)).1 h'
        (omega (arith, sum, taken, left, b, enough)) (omega (arith, left, up, s1))
        (omega (arith, left, low, s2)) in
    let whole =
      append_assoc front part (drop a rest) ∙ ap (λ xs. front ++ xs) (take-append-drop a rest) in
    if_case Goal (suc k == 0) (λ z. absurd (omega (arith, zero_of (suc k) z)))
      (λ z.
        if_case Goal (ltb (length rest) a) (λ t. absurd (true-ne-false (ground (arith, t, enough))))
          (λ t.
            some_case Goal
              (split_frame (suc k) (record e { sequence_number = add16 e.sequence_number 1 })
                (drop a rest))
              none (λ r. some (video_packet e false part ∷ r.0, r.1)) eq
              (
                _,
                _,
                refl,
                deliver_middle most d (video_packet e false part) ps more delivered
                    ∙ ap (λ xs. some (xs ∷ [])) whole,
              )))
  where
    Goal : Option (List Packet × VideoEncoder) → Type 0
    Goal o =
        (ps : List Packet) × (e' : VideoEncoder) × (o ≡ some (ps, e'))
        × (deliver_frames most d ps ≡ some ((front ++ rest) ∷ []))

-- The number of packets, by the quotient and the remainder.
counted :
    (avail le q r : ℕ)
    → q * avail + r ≡ le
    → r < avail
    → 0 < le
    → (k : ℕ) × ((if r == 0 then q else q + 1) ≡ suc k) × (le ≤ suc k * avail) × (k * avail < le)
counted avail le zero zero e b l = absurd (omega (arith, e, l))
counted avail le (suc k) zero e b l =
    let m = suc-mul k avail in (k, refl, omega (arith, e), omega (arith, e, m, b))
counted avail le q (suc r) e b l =
    let m = suc-mul q avail in (q, ground arith, omega (arith, e, m, b), omega (arith, e))

packets_enough :
    (avail le : ℕ)
    → 0 < avail
    → 0 < le
    → (k : ℕ) × (video_packet_count avail le ≡ suc k) × (le ≤ suc k * avail) × (k * avail < le)
unfolding video_packet_count
packets_enough avail le h l =
    counted avail le (le / avail) (le % avail) (div-add-mod' le avail) (mod-lt le h) l

-- With a largest payload above 0, a frame that is not empty and not above the limit is encoded, and a
-- decoder at the start of a frame delivers it from the packets, once, with no error but that it needs
-- more packets.
pub deliver_frames-encode_frame :
    (most : ℕ) (e : VideoEncoder) (d : VideoDecoder) (frame : List ℕ)
    → 0 < e.payload_max_size
    → 0 < length frame
    → length frame ≤ most
    → d.fragments ≡ []
    → d.fragments_size ≡ 0
    → (ps : List Packet) × (e' : VideoEncoder) × (encode_frame e frame ≡ some (ps, e'))
      × (deliver_frames most d ps ≡ some (frame ∷ []))
unfolding encode_frame
deliver_frames-encode_frame most e d frame h l b hf hs =
    let (k, count, up, low) = packets_enough e.payload_max_size (length frame) h l in
    let (ps, e', eq, delivered) =
      split_frame-delivered most k e [] frame d
        (record { parts = ap joined hf; size = hs; next = λ n. absurd (true-ne-false n) })
        (omega (arith, b)) up low in
    if_case
      (λ o.
        (ps : List Packet) × (e' : VideoEncoder) × (o ≡ some (ps, e'))
        × (deliver_frames most d ps ≡ some (frame ∷ [])))
      (e.payload_max_size == 0) (λ z. absurd (omega (arith, h, zero_of e.payload_max_size z)))
      (λ z. (ps, e', ap (λ n. split_frame n e frame) count ∙ eq, delivered))
