-- ===== src/Lpcm/RoundTrip.antt =====
-- The samples that are encoded are decoded again.
use native.Mathlib.Nat.{mul-mod_right, div-add-mod, mod-lt, mul-sub, suc-mul, div-add-mod', add-mul}
use gortsplib.Common.{
  ℕ, zero, suc, ◌-◌, ◌*◌, ◌/◌, ◌%◌, ◌<◌, ◌≤◌, ◌≡◌, refl, sym, ap, ap₂, ◌∙◌, subst, true, false, not,
  ◌==◌, ltb, if◌then◌else◌, Option, none, some, List, [], ◌∷◌, ◌++◌, length, take, drop, All,
  length-take, length-drop, take-append-drop, true-ne-false, arith,
}
use gortsplib.Common.Cases.{if_case, some_case}
use gortsplib.Common.Words.{add16, add32}
use gortsplib.Rtp.{Packet}
use gortsplib.Lpcm.{
  LpcmEncoder, count_packets, split_samples, encode_samples, LpcmDecoder, decode_samples,
}

-- The samples of packets, in their order; none is a panic or an error.
unfoldable pub decode_all : LpcmDecoder → List Packet → Option (List ℕ)
decode_all d [] = some []
decode_all d (p ∷ ps) =
    let rest = decode_all d ps in
    elim (decode_samples d p) [
      | none ↦ none
      | some r ↦ elim r [
        | none ↦ none
        | some samples ↦ elim rest [ none ↦ none | some more ↦ some (samples ++ more) ]
      ]
    ]

abbrev Multiple : ℕ → ℕ → Type 0
Multiple s n = (q : ℕ) × (n ≡ s * q)

Multiple-sub : (s : ℕ) {a b : ℕ} → Multiple s a → Multiple s b → Multiple s (a - b)
Multiple-sub s (p, e) (q, f) = (p - q, ap₂ (λ x y. x - y) e f ∙ sym (mul-sub s p q))

of_remainder : (s n : ℕ) → (n % s == 0) ≡ true → Multiple s n
of_remainder s n h = (n / s, sym (div-add-mod n s) ∙ ground (arith, h))

to_remainder : (s n : ℕ) → Multiple s n → (n % s == 0) ≡ true
to_remainder s n (q, e) = ap (λ x. x % s == 0) e ∙ ap (λ x. x == 0) (mul-mod_right s q)

-- The payloads are whole samples, of the largest size at most.
abbrev pub Fits : ℕ → ℕ → List Packet → Type 0
Fits s most ps = All (λ p. (length p.payload % s == 0 ≡ true) × (length p.payload ≤ most)) ps

decode_one :
    (d : LpcmDecoder) (p : Packet)
    → (d.size_of_sample == 0) ≡ false
    → (length p.payload % d.size_of_sample == 0) ≡ true
    → decode_samples d p ≡ some (some p.payload)
unfolding decode_samples
decode_one d p h m = ground (arith, h, m)

decode_all-cons :
    (d : LpcmDecoder) (p : Packet) (ps : List Packet) (more : List ℕ)
    → (d.size_of_sample == 0) ≡ false
    → (length p.payload % d.size_of_sample == 0) ≡ true
    → decode_all d ps ≡ some more
    → decode_all d (p ∷ ps) ≡ some (p.payload ++ more)
unfolding decode_all
decode_all-cons d p ps more h m r =
    some_case (λ o. o ≡ some (p.payload ++ more)) (decode_samples d p) none
      (λ x. elim x [
        | none ↦ none
        | some samples ↦ elim (decode_all d ps) [ none ↦ none | some more ↦ some (samples ++ more) ]
      ])
      (decode_one d p h m)
      (some_case (λ o. o ≡ some (p.payload ++ more)) (decode_all d ps) none
        (λ more. some (p.payload ++ more)) r refl)

-- The size of the next payload.
abbrev next_size : List ℕ → ℕ → ℕ
next_size rest size = if ltb (length rest) size then length rest else size

next_size_bounds :
    (rest : List ℕ) (size : ℕ) → (next_size rest size ≤ size) × (next_size rest size ≤ length rest)
next_size_bounds rest size = (ground arith, ground arith)

next_size-Multiple :
    (s : ℕ) (rest : List ℕ) (size : ℕ)
    → Multiple s (length rest)
    → Multiple s size
    → Multiple s (next_size rest size)
next_size-Multiple s rest size a b = if_case (Multiple s) (ltb (length rest) size) (λ h. a) (λ h. b)

next_size_left :
    (k : ℕ) (rest : List ℕ) (size : ℕ)
    → length rest ≤ suc k * size
    → length rest - next_size rest size ≤ k * next_size rest size
next_size_left k rest size h =
    if_case (λ n. length rest - n ≤ k * n) (ltb (length rest) size) (λ c. omega arith)
      (λ c. let m = suc-mul k size in omega (arith, h, m))

split_samples-decoded :
    (d : LpcmDecoder) (k : ℕ) (e : LpcmEncoder) (ssrc most size ts : ℕ) (rest : List ℕ)
    → (d.size_of_sample == 0) ≡ false
    → Multiple d.size_of_sample size
    → Multiple d.size_of_sample (length rest)
    → length rest ≤ k * size
    → size ≤ most
    → (decode_all d (split_samples k e ssrc size ts rest).0 ≡ some rest)
      × Fits d.size_of_sample most (split_samples k e ssrc size ts rest).0
unfolding split_samples decode_all
split_samples-decoded d zero e ssrc most size ts [] h a b l m = (refl, tt)
split_samples-decoded d zero e ssrc most size ts (x ∷ xs) h a b l m = absurd (omega (arith, l))
split_samples-decoded d (suc k) e ssrc most size ts rest h a b l m =
    let now = next_size rest size in
    let (small, short) = next_size_bounds rest size in
    let part = next_size-Multiple d.size_of_sample rest size b a in
    let taken : length (take now rest) ≡ now = length-take now rest ∙ omega (arith, short) in
    let whole =
      ap (λ n. n % d.size_of_sample == 0) taken ∙ to_remainder d.size_of_sample now part in
    let left = length-drop now rest in
    let (decoded, fits) =
      split_samples-decoded d k (record e { sequence_number = add16 e.sequence_number 1 }) ssrc most
        now (add32 ts (now / e.sample_size)) (drop now rest) h part
        (subst (Multiple d.size_of_sample) (sym left) (Multiple-sub d.size_of_sample b part))
        (omega (arith, left, next_size_left k rest size l)) (omega (arith, small, m)) in
    (
      decode_all-cons d _ _ (drop now rest) h whole decoded ∙ ap some (take-append-drop now rest),
      ((whole, omega (arith, taken, small, m)), fits),
    )

count_packets_enough : (most len : ℕ) → 0 < most → len ≤ count_packets most len * most
unfolding count_packets
count_packets_enough most len h =
    let e = div-add-mod' len most in
    let b = mod-lt len h in let s = add-mul (len / most) 1 most in ground (arith, e, b, s)

positive : {n : ℕ} → 0 < n → (n == 0) ≡ false
positive h = ground (arith, h)

-- Whole samples are encoded, by an encoder whose largest payload has a sample at least, into packets
-- with whole samples and payloads up to that size, which a decoder of the same samples turns into
-- the samples again.
pub decode_all-encode_samples :
    (e : LpcmEncoder) (d : LpcmDecoder) (samples : List ℕ) (ssrc : ℕ)
    → e.ssrc ≡ some ssrc
    → d.size_of_sample ≡ e.sample_size
    → 0 < e.sample_size
    → 0 < e.max_payload_size
    → (e.max_payload_size % e.sample_size == 0) ≡ true
    → (length samples % e.sample_size == 0) ≡ true
    → (ps : List Packet) × (e' : LpcmEncoder) × (encode_samples e samples ≡ some (some ps, e'))
      × (decode_all d ps ≡ some samples)
      × Fits e.sample_size e.max_payload_size ps
unfolding encode_samples
decode_all-encode_samples e d samples ssrc hs same hz hm divides whole =
    if_case Goal (e.sample_size == 0) (λ z. absurd (true-ne-false (sym z ∙ positive hz)))
      (λ z.
        if_case Goal (not (length samples % e.sample_size == 0))
          (λ n. absurd (true-ne-false (ground (arith, n, whole))))
          (λ n.
            if_case Goal (e.max_payload_size == 0)
              (λ m. absurd (true-ne-false (sym m ∙ positive hm)))
              (λ m.
                some_case Goal e.ssrc (if packets == 0 then some (some [], e) else none)
                  (λ ssrc.
                    let (ps, e') = split_samples packets e ssrc e.max_payload_size 0 samples in
                    some (some ps, e'))
                  hs
                  (
                    _,
                    _,
                    refl,
                    result.0,
                    subst
                        (λ s.
                          Fits s e.max_payload_size
                            (split_samples packets e ssrc e.max_payload_size 0 samples).0)
                        same result.1,
                  ))))
  where
    packets : ℕ
    packets = count_packets e.max_payload_size (length samples)

    Goal : Option (Option (List Packet) × LpcmEncoder) → Type 0
    Goal o =
        (ps : List Packet) × (e' : LpcmEncoder) × (o ≡ some (some ps, e'))
        × (decode_all d ps ≡ some samples)
        × Fits e.sample_size e.max_payload_size ps

    result :
        (decode_all d (split_samples packets e ssrc e.max_payload_size 0 samples).0 ≡ some samples)
        × Fits d.size_of_sample e.max_payload_size
            (split_samples packets e ssrc e.max_payload_size 0 samples).0
    result =
        split_samples-decoded d packets e ssrc e.max_payload_size e.max_payload_size 0 samples
          (ap (λ n. n == 0) same ∙ positive hz)
          (subst (λ s. Multiple s e.max_payload_size) (sym same)
            (of_remainder e.sample_size e.max_payload_size divides))
          (subst (λ s. Multiple s (length samples)) (sym same)
            (of_remainder e.sample_size (length samples) whole))
          (count_packets_enough e.max_payload_size (length samples) hm) (omega arith)
