-- ===== src/Stream/Writers.antt =====
-- The multicast writers of the medias of a stream.
use gortsplib.Common.{
  ℕ, ◌≡◌, refl, sym, ap, ap₂, ◌∙◌, Bool, true, false, ◌==◌, ◌&&◌, ◌||◌, Option, none, some, List,
  [], ◌∷◌, true-ne-false, is_some, arith,
}
use gortsplib.Common.Cases.{if_case, option_case, some_case}
use gortsplib.Session.{Transport}
use gortsplib.Stream.{StreamMedia}
use gortsplib.Stream.Readers.{open_writers, close_writers, change_clients, change_all}

abbrev pub AllOpen : {T : Type 0} → List (StreamMedia T) → Type 0
AllOpen [] = Unit
AllOpen (m ∷ ms) = (is_some m.multicast_writer ≡ true) × AllOpen ms

abbrev pub has_media : {T : Type 0} → ℕ → List (StreamMedia T) → Bool
has_media i [] = false
has_media i (m ∷ ms) = m.media == i || has_media i ms

abbrev pub has_all : {T : Type 0} → List ℕ → List (StreamMedia T) → Bool
has_all [] ms = true
has_all (i ∷ is) ms = has_media i ms && has_all is ms

module _ (transport_of : ℕ → Transport) (author_of : ℕ → ℕ) {T : Type 0} where
  pub open_writers-AllOpen :
      (opens : ℕ → Bool) (ms : List (StreamMedia T))
      → (open_writers transport_of author_of opens ms).0 ≡ true
      → AllOpen (open_writers transport_of author_of opens ms).1
  unfolding open_writers
  open_writers-AllOpen opens [] h = tt
  open_writers-AllOpen opens (m ∷ ms) h =
      if_case (λ (o : Bool × List (StreamMedia T)). o.0 ≡ true → AllOpen o.1) (opens m.media)
        (λ e q. (refl, open_writers-AllOpen opens ms q)) (λ e q. absurd (true-ne-false (sym q))) h

  pub close_writers-is_some :
      (ms : List (StreamMedia T))
      → AllOpen ms
      → (ms' : List (StreamMedia T)) × (close_writers transport_of author_of ms ≡ some ms')
  unfolding close_writers
  close_writers-is_some [] a = ([], refl)
  close_writers-is_some (m ∷ ms) (a, ao) =
      let (ms', e) = close_writers-is_some ms ao in
      option_case (λ o. (ms'' : List (StreamMedia T)) × (o ≡ some ms'')) m.multicast_writer
        (λ n. absurd (true-ne-false (sym a ∙ ap is_some n)))
        (λ w n.
          some_case (λ o. (ms'' : List (StreamMedia T)) × (o ≡ some ms''))
            (close_writers transport_of author_of ms) none
            (λ ms'. some (record m { multicast_writer = none } ∷ ms')) e (_, refl))

  -- The clients of a writer changed, in a list that has the media.
  data Changes (ms : List (StreamMedia T)) : Option (List (StreamMedia T)) → Type 0 where
    changes :
        (ms' : List (StreamMedia T))
        → AllOpen ms'
        → ((i : ℕ) → has_media i ms' ≡ has_media i ms)
        → Changes ms (some ms')

  change_clients-Changes :
      (f : List ℕ → List ℕ) (i : ℕ) (ms : List (StreamMedia T))
      → AllOpen ms
      → has_media i ms ≡ true
      → Changes ms (change_clients transport_of author_of f i ms)
  unfolding change_clients
  change_clients-Changes f i [] a h = absurd (true-ne-false (sym h))
  change_clients-Changes f i (m ∷ ms) (a, ao) h =
      if_case (Changes (m ∷ ms)) (m.media == i)
        (λ e.
          option_case (Changes (m ∷ ms)) m.multicast_writer
            (λ n. absurd (true-ne-false (sym a ∙ ap is_some n)))
            (λ w n. changes _ (refl, ao) (λ j. refl)))
        (λ e. behind (change_clients-Changes f i ms ao (ground (arith, h, e))))
    where
      behind :
          {o : Option (List (StreamMedia T))}
          → Changes ms o
          → Changes (m ∷ ms) (elim o [ none ↦ none | some ms' ↦ some (m ∷ ms') ])
      behind (changes ms' ao' same) = changes _ (a, ao') (λ j. ap (λ b. m.media == j || b) (same j))

  has_all-same :
      (is : List ℕ) (ms ms' : List (StreamMedia T))
      → ((i : ℕ) → has_media i ms' ≡ has_media i ms)
      → has_all is ms' ≡ has_all is ms
  has_all-same [] ms ms' h = refl
  has_all-same (i ∷ is) ms ms' h = ap₂ (λ a b. a && b) (h i) (has_all-same is ms ms' h)

  pub change_all-is_some :
      (f : List ℕ → List ℕ) (is : List ℕ) (ms : List (StreamMedia T))
      → AllOpen ms
      → has_all is ms ≡ true
      → (ms' : List (StreamMedia T)) × (change_all transport_of author_of f is ms ≡ some ms')
        × AllOpen ms'
  unfolding change_all
  change_all-is_some f [] ms a h = (ms, refl, a)
  change_all-is_some f (i ∷ is) ms a h =
      from (λ ms' a' h'. change_all-is_some f is ms' a' h')
        (change_clients-Changes f i ms a (ground (arith, h)))
    where
      Goal : Option (List (StreamMedia T)) → Type 0
      Goal o = (ms' : List (StreamMedia T)) × (o ≡ some ms') × AllOpen ms'

      from :
          {o : Option (List (StreamMedia T))}
          → ((ms' : List (StreamMedia T))
              → AllOpen ms'
              → has_all is ms' ≡ true
              → Goal (change_all transport_of author_of f is ms'))
          → Changes ms o
          → Goal (elim o [ none ↦ none | some ms' ↦ change_all transport_of author_of f is ms' ])
      from g (changes ms' a' same) = g ms' a' (has_all-same is ms ms' same ∙ ground (arith, h))
