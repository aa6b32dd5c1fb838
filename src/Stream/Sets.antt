-- ===== src/Stream/Sets.antt =====
-- The sets of the readers of a stream, and how many of them are of multicast.
use gortsplib.Common.{
  ℕ, ◌+◌, ◌≡◌, ◌⊎◌, refl, sym, ap, ◌∙◌, subst, Bool, true, false, ◌==◌, if◌then◌else◌, List, [],
  ◌∷◌, true-ne-false, Bool-cases, inl, inr, arith,
}
use gortsplib.Common.Cases.{if_case}
use gortsplib.Session.{Transport, transport_udp_multicast, same_transport}
use gortsplib.Stream.{is_in, delete, insert}

abbrev pub IsUnique : List ℕ → Type 0
IsUnique [] = Unit
IsUnique (x ∷ xs) = (is_in x xs ≡ false) × IsUnique xs

pub is_in-delete : (k x : ℕ) (xs : List ℕ) → (x == k) ≡ false → is_in x (delete k xs) ≡ is_in x xs
unfolding delete
is_in-delete k x [] h = refl
is_in-delete k x (y ∷ ys) h =
    let rest = is_in-delete k x ys h in
    if_case (λ zs. is_in x zs ≡ is_in x (y ∷ ys)) (y == k) (λ e. ground (arith, rest, h, e))
      (λ e. ground (arith, rest))

pub delete-is_in : (k x : ℕ) (xs : List ℕ) → is_in x (delete k xs) ≡ true → is_in x xs ≡ true
unfolding delete
delete-is_in k x [] h = h
delete-is_in k x (y ∷ ys) h =
    if_case (λ zs. is_in x zs ≡ true → is_in x (y ∷ ys) ≡ true) (y == k)
      (λ e q. let rest = delete-is_in k x ys q in ground (arith, rest))
      (λ e q. elim (Bool-cases (y == x)) [
        | inl same ↦ ground (arith, same)
        | inr other ↦
            let rest = delete-is_in k x ys (ground (arith, q, other)) in ground (arith, rest)
      ])
      h

pub insert_absent : (k : ℕ) (xs : List ℕ) → is_in k xs ≡ false → insert k xs ≡ k ∷ xs
unfolding insert
insert_absent k xs h =
    if_case (λ ys. ys ≡ k ∷ xs) (is_in k xs) (λ e. absurd (true-ne-false (sym e ∙ h))) (λ e. refl)

pub insert-is_in :
    (k x : ℕ) (xs : List ℕ) → is_in x (insert k xs) ≡ true → (x ≡ k) ⊎ (is_in x xs ≡ true)
unfolding insert
insert-is_in k x xs h =
    if_case (λ ys. is_in x ys ≡ true → (x ≡ k) ⊎ (is_in x xs ≡ true)) (is_in k xs) (λ e q. inr q)
      (λ e q. elim (Bool-cases (k == x)) [
        | inl same ↦ inl (ground (arith, same))
        | inr other ↦ inr (ground (arith, q, other))
      ])
      h

delete_absent : (k : ℕ) (xs : List ℕ) → is_in k xs ≡ false → delete k xs ≡ xs
unfolding delete
delete_absent k [] h = refl
delete_absent k (y ∷ ys) h =
    let rest = delete_absent k ys (ground (arith, h)) in
    if_case (λ zs. zs ≡ y ∷ ys) (y == k) (λ e. absurd (true-ne-false (ground (arith, h, e))))
      (λ e. ap (λ zs. y ∷ zs) rest)

pub delete-IsUnique : (k : ℕ) (xs : List ℕ) → IsUnique xs → IsUnique (delete k xs)
unfolding delete
delete-IsUnique k [] u = tt
delete-IsUnique k (y ∷ ys) (n, u) =
    if_case IsUnique (y == k) (λ e. delete-IsUnique k ys u)
      (λ e. (is_in-delete k y ys e ∙ n, delete-IsUnique k ys u))

module _ (transport_of : ℕ → Transport) where
  -- The readers of multicast.
  abbrev pub is_multicast : ℕ → Bool
  is_multicast k = same_transport (transport_of k) transport_udp_multicast

  abbrev pub multicast_readers : List ℕ → ℕ
  multicast_readers [] = 0
  multicast_readers (k ∷ ks) = (if is_multicast k then 1 else 0) + multicast_readers ks

  pub multicast_readers-delete :
      (k : ℕ) (ks : List ℕ)
      → IsUnique ks
      → is_in k ks ≡ true
      → multicast_readers ks ≡ (if is_multicast k then 1 else 0) + multicast_readers (delete k ks)
  unfolding delete
  multicast_readers-delete k [] u h = absurd (true-ne-false (sym h))
  multicast_readers-delete k (x ∷ xs) (n, u) h =
      if_case
        (λ ys.
          multicast_readers (x ∷ xs) ≡ (if is_multicast k then 1 else 0) + multicast_readers ys)
        (x == k)
        (λ e.
          let same : x ≡ k = ground (arith, e) in
          let gone = delete_absent k xs (subst (λ y. is_in y xs ≡ false) same n) in
          ap (λ y. (if is_multicast y then 1 else 0) + multicast_readers xs) same
          ∙ ap (λ ys. (if is_multicast k then 1 else 0) + multicast_readers ys) (sym gone))
        (λ e.
          let rest = multicast_readers-delete k xs u (ground (arith, h, e)) in ground (arith, rest))

  pub multicast_readers-is_in :
      (k : ℕ) (ks : List ℕ)
      → is_in k ks ≡ true
      → is_multicast k ≡ true
      → (multicast_readers ks == 0) ≡ false
  multicast_readers-is_in k [] h m = absurd (true-ne-false (sym h))
  multicast_readers-is_in k (x ∷ xs) h m = elim (Bool-cases (x == k)) [
    | inl e ↦
        let same : x ≡ k = ground (arith, e) in
        let mx = ap is_multicast same ∙ m in ground (arith, mx)
    | inr e ↦
        let rest = multicast_readers-is_in k xs (ground (arith, h, e)) m in ground (arith, rest)
  ]
