-- ===== src/Message/Header/Order.antt =====
-- Keys in order: an entry behind all others is added at the end.
use gortsplib.Common.{ℕ, ◌≡◌, refl, true, false, List, [], ◌∷◌, ◌++◌, All, arith}
use gortsplib.Common.Cases.{if_case}
use gortsplib.Message.Reader.{text_eq, text_eq_refl}
use gortsplib.Message.Header.{Header, text_lt, values_of, set_values, add_value}

abbrev pub Before : List ℕ → Header → Type 0
Before key h = All (λ e. text_lt key e.0 ≡ true) h

abbrev pub Behind : List ℕ → Header → Type 0
Behind key h = All (λ e. text_lt e.0 key ≡ true) h

-- The entries are in the order of their keys, each key once.
abbrev pub IsOrdered : Header → Type 0
IsOrdered [] = Unit
IsOrdered ((k, vals) ∷ h) = Before k h × IsOrdered h

pub text_lt-ne : (r s : List ℕ) → text_lt r s ≡ true → text_eq r s ≡ false
text_lt-ne r [] h = absurd (cc)
text_lt-ne [] (c ∷ s) h = refl
text_lt-ne (b ∷ r) (c ∷ s) h = ground (arith, text_lt-ne r s)

pub text_lt-ne_sym : (r s : List ℕ) → text_lt r s ≡ true → text_eq s r ≡ false
text_lt-ne_sym r [] h = absurd (cc)
text_lt-ne_sym [] (c ∷ s) h = refl
text_lt-ne_sym (b ∷ r) (c ∷ s) h = ground (arith, text_lt-ne_sym r s)

text_lt_asym : (r s : List ℕ) → text_lt r s ≡ true → text_lt s r ≡ false
text_lt_asym r [] h = absurd (cc)
text_lt_asym [] (c ∷ s) h = refl
text_lt_asym (b ∷ r) (c ∷ s) h = ground (arith, text_lt_asym r s)

pub add_value-Behind :
    (key val : List ℕ) (h : Header)
    → Behind key h
    → add_value key val h ≡ h ++ ((key, val ∷ []) ∷ [])
unfolding add_value
add_value-Behind key val [] b = refl
add_value-Behind key val ((k, vals) ∷ h) b =
    ground (arith, text_lt-ne k key b.0, text_lt_asym k key b.0, add_value-Behind key val h b.1)

pub add_value_last :
    (key val : List ℕ) (vals : List (List ℕ)) (h : Header)
    → Behind key h
    → add_value key val (h ++ ((key, vals) ∷ [])) ≡ h ++ ((key, vals ++ (val ∷ [])) ∷ [])
unfolding add_value
add_value_last key val vals [] b = ground (arith, text_eq_refl key)
add_value_last key val vals ((k, old) ∷ h) b =
    ground (arith, text_lt-ne k key b.0, text_lt_asym k key b.0, add_value_last key val vals h b.1)

text_lt_trans : (r s t : List ℕ) → text_lt r s ≡ true → text_lt s t ≡ true → text_lt r t ≡ true
text_lt_trans r [] t h k = absurd (cc)
text_lt_trans r (c ∷ s) [] h k = absurd (cc)
text_lt_trans [] (c ∷ s) (d ∷ t) h k = refl
text_lt_trans (b ∷ r) (c ∷ s) (d ∷ t) h k = ground (arith, text_lt_trans r s t)

text_lt_total : (r s : List ℕ) → text_eq r s ≡ false → text_lt s r ≡ false → text_lt r s ≡ true
text_lt_total [] [] e h = absurd (cc)
text_lt_total [] (c ∷ s) e h = refl
text_lt_total (b ∷ r) [] e h = absurd (cc)
text_lt_total (b ∷ r) (c ∷ s) e h = ground (arith, text_lt_total r s)

Before-trans : (j k : List ℕ) (h : Header) → text_lt j k ≡ true → Before k h → Before j h
Before-trans j k [] l b = tt
Before-trans j k (e ∷ h) l b = (text_lt_trans j k e.0 l b.0, Before-trans j k h l b.1)

Before-add_value :
    (j key val : List ℕ) (h : Header)
    → text_lt j key ≡ true
    → Before j h
    → Before j (add_value key val h)
unfolding add_value
Before-add_value j key val [] l b = (l, tt)
Before-add_value j key val ((k, vals) ∷ h) l b =
    if_case (Before j) (text_eq k key) (λ z. b)
      (λ z.
        if_case (Before j) (text_lt key k) (λ y. (l, b))
          (λ y. (b.0, Before-add_value j key val h l b.1)))

-- Adding a value keeps the keys in order, each once.
pub add_value-IsOrdered :
    (key val : List ℕ) (h : Header) → IsOrdered h → IsOrdered (add_value key val h)
unfolding add_value
add_value-IsOrdered key val [] o = (tt, tt)
add_value-IsOrdered key val ((k, vals) ∷ h) o =
    if_case IsOrdered (text_eq k key) (λ z. o)
      (λ z.
        if_case IsOrdered (text_lt key k) (λ y. ((y, Before-trans key k h y o.0), o))
          (λ y. (
            Before-add_value k key val h (text_lt_total k key z y) o.0,
            add_value-IsOrdered key val h o.1,
          )))

pub values_of-set_values :
    (key : List ℕ) (vals : List (List ℕ)) (h : Header)
    → values_of key (set_values key vals h) ≡ vals
unfolding values_of set_values
values_of-set_values key vals [] = ground (arith, text_eq_refl key)
values_of-set_values key vals ((k, old) ∷ h) =
    ground (arith, text_eq_refl key, values_of-set_values key vals h)
