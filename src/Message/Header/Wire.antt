-- ===== src/Message/Header/Wire.antt =====
-- The bytes that a header is written as, and their number.
use gortsplib.Common.{
  ℕ, zero, suc, ◌≡◌, refl, ap, ap₂, subst, ◌∙◌, false, if◌then◌else◌, List, [], ◌∷◌, ◌++◌,
  append-nil, length, length-append, replicate, All, arith,
}
use gortsplib.Message.Reader.{text_eq, text_eq_refl}
use gortsplib.Message.Writer.{put_text, Writes, put_text-Writes, Writes-then}
use gortsplib.Message.Header.{
  Header, values_of, keys_of, sorted_keys, line, values_size, keys_size, header_marshal_size,
  put_values, put_keys, header_marshal_to,
}
use gortsplib.Message.Header.Order.{IsOrdered, Before, text_lt-ne}

abbrev pub values_wire : List ℕ → List (List ℕ) → List ℕ
values_wire key [] = []
values_wire key (val ∷ vals) = line key val ++ values_wire key vals

-- The lines of the entries, in their order.
abbrev pub entries_wire : Header → List ℕ
entries_wire [] = []
entries_wire ((key, vals) ∷ h) = values_wire key vals ++ entries_wire h

abbrev pub header_wire : Header → List ℕ
header_wire h = entries_wire h ++ (13 ∷ 10 ∷ [])

abbrev pub HasKeys : Header → Type 0
HasKeys h = All (λ e. text_eq e.0 [] ≡ false) h

abbrev lines_of : List (List ℕ) → Header → List ℕ
lines_of [] h = []
lines_of (key ∷ keys) h = values_wire key (values_of key h) ++ lines_of keys h

put_values-Writes :
    (key : List ℕ) (vals : List (List ℕ)) → Writes (put_values key vals) (values_wire key vals)
unfolding put_values
put_values-Writes key [] b h = ground (arith, append-nil b.written)
put_values-Writes key (val ∷ vals) b r =
    Writes-then (put_text (line key val)) (put_values key vals) (line key val)
      (values_wire key vals) (put_text-Writes (line key val)) (put_values-Writes key vals) b r

put_keys-Writes : (keys : List (List ℕ)) (h : Header) → Writes (put_keys keys h) (lines_of keys h)
unfolding put_keys
put_keys-Writes [] h b r = ground (arith, append-nil b.written)
put_keys-Writes (key ∷ keys) h b r =
    let vals = values_of key h in
    Writes-then (put_values key vals) (put_keys keys h) (values_wire key vals) (lines_of keys h)
      (put_values-Writes key vals) (put_keys-Writes keys h) b r

values_size-length :
    (key : List ℕ) (vals : List (List ℕ)) → values_size key vals ≡ length (values_wire key vals)
unfolding values_size
values_size-length key [] = refl
values_size-length key (val ∷ vals) =
    omega (arith, values_size-length key vals, length-append (line key val) (values_wire key vals))

keys_size-length : (keys : List (List ℕ)) (h : Header) → keys_size keys h ≡ length (lines_of keys h)
unfolding keys_size
keys_size-length [] h = refl
keys_size-length (key ∷ keys) h =
    let vals = values_of key h in
    omega (
      arith,
      values_size-length key vals,
      keys_size-length keys h,
      length-append (values_wire key vals) (lines_of keys h),
    )

-- An entry that no key asks for makes no difference.
lines_of-skip :
    (key : List ℕ) (vals : List (List ℕ)) (keys : List (List ℕ)) (h : Header)
    → All (λ k. text_eq key k ≡ false) keys
    → lines_of keys ((key, vals) ∷ h) ≡ lines_of keys h
unfolding values_of
lines_of-skip key vals [] h a = refl
lines_of-skip key vals (k ∷ keys) h a =
    ap₂ (λ vs more. values_wire k vs ++ more) (ap (λ t. if t then vals else values_of k h) a.0)
      (lines_of-skip key vals keys h a.1)

Before-keys_of :
    (key : List ℕ) (h : Header) → Before key h → All (λ k. text_eq key k ≡ false) (keys_of h)
Before-keys_of key [] b = tt
Before-keys_of key ((k, vals) ∷ h) b = (text_lt-ne key k b.0, Before-keys_of key h b.1)

values_of_head :
    (key : List ℕ) (vals : List (List ℕ)) (h : Header) → values_of key ((key, vals) ∷ h) ≡ vals
unfolding values_of
values_of_head key vals h = ground (arith, text_eq_refl key)

lines_of-keys_of : (h : Header) → IsOrdered h → lines_of (keys_of h) h ≡ entries_wire h
lines_of-keys_of [] o = refl
lines_of-keys_of ((key, vals) ∷ h) o =
    ap₂ (λ vs more. values_wire key vs ++ more) (values_of_head key vals h)
      (lines_of-skip key vals (keys_of h) h (Before-keys_of key h o.0) ∙ lines_of-keys_of h o.1)

no_values : (h : Header) → HasKeys h → values_of [] h ≡ []
unfolding values_of
no_values [] k = refl
no_values ((key, vals) ∷ h) k = ground (arith, no_values h k.1)

lines_of-empty_keys :
    (n : ℕ) (keys : List (List ℕ)) (h : Header)
    → HasKeys h
    → lines_of (replicate n [] ++ keys) h ≡ lines_of keys h
lines_of-empty_keys zero keys h k = refl
lines_of-empty_keys (suc n) keys h k =
    ap (λ vs. values_wire [] vs ++ lines_of (replicate n [] ++ keys) h) (no_values h k)
    ∙ lines_of-empty_keys n keys h k

lines_of-sorted_keys :
    (h : Header) → IsOrdered h → HasKeys h → lines_of (sorted_keys h) h ≡ entries_wire h
unfolding sorted_keys
lines_of-sorted_keys h o k = lines_of-empty_keys (length h) (keys_of h) h k ∙ lines_of-keys_of h o

pub header_marshal_to-Writes :
    (h : Header) → IsOrdered h → HasKeys h → Writes (header_marshal_to h) (header_wire h)
unfolding header_marshal_to
header_marshal_to-Writes h o k =
    subst (λ w. Writes (header_marshal_to h) (w ++ (13 ∷ 10 ∷ []))) (lines_of-sorted_keys h o k)
      (Writes-then (put_keys (sorted_keys h) h) (put_text (13 ∷ 10 ∷ []))
        (lines_of (sorted_keys h) h) (13 ∷ 10 ∷ []) (put_keys-Writes (sorted_keys h) h)
        (put_text-Writes (13 ∷ 10 ∷ [])))

pub header_marshal_size-length :
    (h : Header) → IsOrdered h → HasKeys h → header_marshal_size h ≡ length (header_wire h)
unfolding header_marshal_size
header_marshal_size-length h o k = omega (
  arith,
  keys_size-length (sorted_keys h) h,
  ap length (lines_of-sorted_keys h o k),
  length-append (entries_wire h) (13 ∷ 10 ∷ []),
)
