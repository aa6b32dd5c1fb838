-- ===== src/Message/Header/Bounds.antt =====
-- Whatever bytes come in, a header that is read is within the limits.
use gortsplib.Common.{
  ℕ, zero, suc, ◌+◌, ◌≤◌, ◌<◌, ◌≡◌, refl, sym, ap, subst, ◌∙◌, true, Bool, ◌==◌, if◌then◌else◌,
  List, [], ◌∷◌, length, length-append, All, All-append, arith,
}
use gortsplib.Common.Cases.{if_case}
use gortsplib.Common.Bytes.{codes}
use gortsplib.Message.Reader.{
  Outcome, got, fail, Reader, ◌>>=◌, ◌>>◌, return, refuse, too_many_headers, read_byte,
  read_byte_equal, read_bytes_limited, read_text, without_last, text_eq, got_bind, got-inj,
  value_missing, length-read_bytes_limited, length-read_text,
}
use gortsplib.Message.Header.{
  Header, to_lower, capitals, canonical_header_key, header_key_normalize, text_lt, add_value,
  skip_spaces, read_key, read_value, read_end, read_entries, unmarshal_header,
}
use gortsplib.Message.Header.Order.{IsOrdered, add_value-IsOrdered}
use gortsplib.Message.Header.RoundTrip.{count_values}

-- The text of a key and of a value of an entry are within the limits.
abbrev pub WithinLimits : List ℕ × List (List ℕ) → Type 0
WithinLimits (key, vals) = (length key < 512) × All (λ val. length val < 2048) vals

pub record IsBounded (h : Header) : Type 0 where
  pub order : IsOrdered h
  pub limits : All WithinLimits h

text_eq-length : (r s : List ℕ) → text_eq r s ≡ true → length r ≡ length s
text_eq-length [] [] h = refl
text_eq-length [] (c ∷ s) h = absurd (cc)
text_eq-length (b ∷ r) [] h = absurd (cc)
text_eq-length (b ∷ r) (c ∷ s) h = ground (arith, text_eq-length r s)

length-to_lower : (s : List ℕ) → length (to_lower s) ≡ length s
unfolding to_lower
length-to_lower [] = refl
length-to_lower (c ∷ s) = ap suc (length-to_lower s)

length-capitals : (upper : Bool) (s : List ℕ) → length (capitals upper s) ≡ length s
unfolding capitals
length-capitals upper [] = refl
length-capitals upper (c ∷ s) = ap suc (length-capitals (c == b'-') s)

length-canonical_header_key : (s : List ℕ) → length (canonical_header_key s) ≡ length s
unfolding canonical_header_key
length-canonical_header_key s = ground (arith, length-capitals true s)

abbrev AsLong : List ℕ → List ℕ → Type 0
AsLong s t = length t ≡ length s

length-header_key_normalize : (s : List ℕ) → length (header_key_normalize s) ≡ length s
unfolding header_key_normalize
length-header_key_normalize s =
    let lower = length-to_lower s in
    if_case (AsLong s) (text_eq (to_lower s) (codes "rtp-info"))
      (λ z. sym (text_eq-length (to_lower s) (codes "rtp-info") z) ∙ lower)
      (λ _.
        if_case (AsLong s) (text_eq (to_lower s) (codes "www-authenticate"))
          (λ z. sym (text_eq-length (to_lower s) (codes "www-authenticate") z) ∙ lower)
          (λ _.
            if_case (AsLong s) (text_eq (to_lower s) (codes "cseq"))
              (λ z. sym (text_eq-length (to_lower s) (codes "cseq") z) ∙ lower)
              (λ _. length-canonical_header_key s)))

key_of :
    (byt : ℕ) (o : Outcome (List ℕ)) {key t : List ℕ}
    → elim o as (λ _. Outcome (List ℕ)) [
      | fail e ↦ fail value_missing
      | got byts rest ↦ got (header_key_normalize (byt ∷ without_last byts)) rest
    ]
      ≡ got key t
    → (byts : List ℕ) × (rest : List ℕ) × (o ≡ got byts rest)
      × (header_key_normalize (byt ∷ without_last byts) ≡ key)
key_of byt (fail e) h = absurd (cc)
key_of byt (got byts rest) h = (byts, rest, refl, cc)

length-read_key :
    (byt : ℕ) (s : List ℕ) {key t : List ℕ} → read_key byt s ≡ got key t → length key < 512
unfolding read_key
length-read_key byt s h =
    let (byts, rest, e, same) = key_of byt (read_bytes_limited b':' 511 s) h in
    let short = length-read_bytes_limited b':' 511 s e in
    omega (arith, short, ap length same, length-header_key_normalize (byt ∷ without_last byts))

length-read_value : (s : List ℕ) {val t : List ℕ} → read_value s ≡ got val t → length val < 2048
unfolding read_value
length-read_value s h =
    let (_, s1, _, h1) =
      got_bind skip_spaces (λ _. do v ← read_text 13 2048; read_byte_equal 10; return v) s h in
    let (v, s2, e, h2) =
      got_bind (read_text 13 2048) (λ v. do read_byte_equal 10; return v) s1 h1 in
    let (_, s3, _, h3) = got_bind (read_byte_equal 10) (λ _. return v) s2 h2 in
    subst (λ val. length val < 2048) (got-inj h3) (length-read_text 13 2048 s1 e)

count_values-add_value :
    (key val : List ℕ) (h : Header) → count_values (add_value key val h) ≡ suc (count_values h)
unfolding add_value
count_values-add_value key val [] = omega arith
count_values-add_value key val ((k, vals) ∷ h) =
    ground (arith, length-append vals (val ∷ []), count_values-add_value key val h)

add_value-WithinLimits :
    (key val : List ℕ) (h : Header)
    → length key < 512
    → length val < 2048
    → All WithinLimits h
    → All WithinLimits (add_value key val h)
unfolding add_value
add_value-WithinLimits key val [] k v w = ((k, (v, tt)), tt)
add_value-WithinLimits key val ((j, vals) ∷ h) k v w =
    if_case (All WithinLimits) (text_eq j key)
      (λ z. ((w.0.0, All-append (λ t. length t < 2048) vals (val ∷ []) w.0.1 (v, tt)), w.1))
      (λ z.
        if_case (All WithinLimits) (text_lt key j) (λ y. ((k, (v, tt)), w))
          (λ y. (w.0, add_value-WithinLimits key val h k v w.1)))

-- What the reading of entries leaves of a header: within the limits, with so many more values at most.
abbrev Extends : ℕ → Header → Header → Type 0
Extends left m h = IsBounded h × (count_values h ≤ count_values m + left)

read_end-Extends :
    (left : ℕ) (m h : Header) (s t : List ℕ)
    → IsBounded m
    → read_end m s ≡ got h t
    → Extends left m h
read_end-Extends left m h s t b e =
    let (_, s1, _, same) = got_bind (read_byte_equal 10) (λ _. return m) s e in
    subst (Extends left m) (got-inj same) (b, omega arith)

read_entries-Extends :
    (left : ℕ) (m h : Header) (s t : List ℕ)
    → IsBounded m
    → read_entries left m s ≡ got h t
    → Extends left m h
unfolding read_entries
read_entries-Extends zero m h s t b e =
    let (byt, s1, _, e1) =
      got_bind read_byte (λ byt. if byt == 13 then read_end m else refuse too_many_headers) s e in
    if_case (λ (r : Reader Header). r s1 ≡ got h t → Extends 0 m h) (byt == 13)
      (λ z e2. read_end-Extends 0 m h s1 t b e2) (λ z e2. absurd (cc)) e1
read_entries-Extends (suc left) m h s t b e =
    let line = λ (byt : ℕ). (do
      key ← read_key byt
      val ← read_value
      read_entries left (add_value key val m)) in
    let (byt, s1, _, e1) =
      got_bind read_byte (λ byt. if byt == 13 then read_end m else line byt) s e in
    if_case (λ (r : Reader Header). r s1 ≡ got h t → Extends (suc left) m h) (byt == 13)
      (λ z e2. read_end-Extends (suc left) m h s1 t b e2)
      (λ z e2.
        let (key, s2, ek, e3) =
          got_bind (read_key byt)
            (λ key. do val ← read_value; read_entries left (add_value key val m)) s1 e2 in
        let (val, s3, ev, e4) =
          got_bind read_value (λ val. read_entries left (add_value key val m)) s2 e3 in
        let more : IsBounded (add_value key val m) = record {
          order = add_value-IsOrdered key val m b.order;
          limits =
              add_value-WithinLimits key val m (length-read_key byt s1 ek) (length-read_value s2 ev)
                b.limits;
        } in
        let (within, count) = read_entries-Extends left (add_value key val m) h s3 t more e4 in
        (within, omega (arith, count, count_values-add_value key val m)))
      e1

-- Whatever bytes come in, a header that is read from them has each key once and in its place, at most
-- 255 values, keys of less than 512 bytes and values of less than 2048.
pub unmarshal_header-IsBounded :
    (s t : List ℕ) (h : Header)
    → unmarshal_header s ≡ got h t
    → IsBounded h × (count_values h ≤ 255)
unfolding unmarshal_header
unmarshal_header-IsBounded s t h e =
    read_entries-Extends 255 [] h s t (record { order = tt; limits = tt }) e
