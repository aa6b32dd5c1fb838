-- ===== src/RingBuffer/Slots.antt =====
-- Indices that go round the ring, and the loop that empties it.
use native.Mathlib.Nat.{mod-eq_of_lt, mod-eq-sub-mod}
use gortsplib.Common.{
  ℕ, zero, suc, ◌+◌, ◌-◌, ◌%◌, ◌≤◌, ◌<◌, ◌≡◌, refl, ◌∙◌, subst, ◌≢◌, ◌⊎◌, inl, inr, Option, none,
  List, [], ◌∷◌, length, get_or, set, length-set, get_or-set_self, get_or-set_ne, dec_lt,
  ℕ_discrete, arith,
}
use gortsplib.RingBuffer.{nil_loop}

-- An index that goes once round at most.
pub wrap_cases :
    (n h i : ℕ)
    → h < n
    → i ≤ n
    → ((h + i < n) × ((h + i) % n ≡ h + i)) ⊎ ((n ≤ h + i) × ((h + i) % n ≡ h + i - n))
wrap_cases n h i hh hi = elim (dec_lt (h + i) n) [
  | yes p ↦ inl (p, mod-eq_of_lt p)
  | no p ↦ inr (
    omega arith,
    mod-eq-sub-mod {n = h + i} {m = n} (omega arith)
        ∙ mod-eq_of_lt {n = h + i - n} {m = n} (omega arith),
  )
]

pub wrap-lt : (n h i : ℕ) → h < n → i ≤ n → (h + i) % n < n
wrap-lt n h i hh hi = omega (arith, wrap_cases n h i hh hi)

pub wrap-ne : (n h i j : ℕ) → h < n → i < n → j < n → i ≢ j → (h + i) % n ≢ (h + j) % n
wrap-ne n h i j hh hi hj ne =
    omega (arith, wrap_cases n h i hh (omega arith), wrap_cases n h j hh (omega arith))

module _ {A : Type 0} where
  pub length-nil_loop : (k i : ℕ) (buf : List (Option A)) → length (nil_loop k i buf) ≡ length buf
  unfolding nil_loop
  length-nil_loop zero i buf = refl
  length-nil_loop (suc k) i buf = length-nil_loop k (i + 1) (set buf i none) ∙ length-set buf i none

  pub get_or-nil_loop :
      (k i : ℕ) (buf : List (Option A))
      → length buf ≤ i + k
      → ((j : ℕ) → j < i → get_or buf j none ≡ none)
      → (j : ℕ) → get_or (nil_loop k i buf) j none ≡ none
  unfolding nil_loop
  get_or-nil_loop zero i buf hl h j = elim (dec_lt j i) [
    | yes p ↦ h j p
    | no p ↦ beyond buf j (omega arith)
  ]
    where
      beyond : (xs : List (Option A)) (n : ℕ) → length xs ≤ n → get_or xs n none ≡ none
      beyond [] n hn = refl
      beyond (x ∷ xs) zero hn = absurd (omega arith)
      beyond (x ∷ xs) (suc n) hn = beyond xs n (omega arith)
  get_or-nil_loop (suc k) i buf hl h j =
      get_or-nil_loop k (i + 1) (set buf i none) (omega (arith, length-set buf i none))
        (λ m hm. cleared m hm) j
    where
      here : get_or (set buf i none) i none ≡ none
      here = elim (dec_lt i (length buf)) [
        | yes p ↦ get_or-set_self buf i none none p
        | no p ↦ past buf i (omega arith)
      ]
        where
          past :
              (xs : List (Option A)) (n : ℕ) → length xs ≤ n → get_or (set xs n none) n none ≡ none
          past [] n hn = refl
          past (x ∷ xs) zero hn = refl
          past (x ∷ xs) (suc n) hn = past xs n (omega arith)

      cleared : (m : ℕ) → m < i + 1 → get_or (set buf i none) m none ≡ none
      cleared m hm = elim (ℕ_discrete i m) [
        | yes e ↦ subst (λ n. get_or (set buf i none) n none ≡ none) e here
        | no ne ↦ get_or-set_ne buf i m none none ne ∙ h m (omega arith)
      ]
