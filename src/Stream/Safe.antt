-- ===== src/Stream/Safe.antt =====
-- The readers of a stream: no call panics, and the writers for multicast are there for its readers.
use gortsplib.Common.{
  ℕ, ◌+◌, ◌≡◌, refl, sym, ap, ◌∙◌, subst, Bool, true, false, ◌==◌, if◌then◌else◌, Option, none,
  some, List, ◌∷◌, true-ne-false, Bool-cases, inl, inr, arith,
}
use gortsplib.Common.Cases.{if_case, some_case}
use gortsplib.Common.Int.{ℤ, pos, ◌+ℤ◌, ◌-ℤ◌}
use gortsplib.Session.{Transport}
use gortsplib.Session.Valid.{transport_case}
use gortsplib.Stream.{StreamMedia, ServerStream, StreamError, is_in, delete, insert, is_zero}
use gortsplib.Stream.Readers.{
  port_in_use, open_writers, reader_add, close_writers, reader_remove, change_all,
  reader_set_active, reader_set_inactive,
}
use gortsplib.Stream.Sets.{
  IsUnique, insert_absent, insert-is_in, delete-is_in, is_in-delete, delete-IsUnique, is_multicast,
  multicast_readers, multicast_readers-delete, multicast_readers-is_in,
}
use gortsplib.Stream.Writers.{
  AllOpen, has_all, open_writers-AllOpen, close_writers-is_some, change_all-is_some,
}

plus_one : (n : ℕ) → pos n +ℤ pos 1 ≡ pos (1 + n)
unfolding ◌+ℤ◌
plus_one n = ground arith

minus_one : (n : ℕ) → pos (1 + n) -ℤ pos 1 ≡ pos n
unfolding ◌-ℤ◌
minus_one n = ground arith

module _ (transport_of : ℕ → Transport) (author_of : ℕ → ℕ) {T : Type 0} where
  -- The count is that of the readers of multicast, which a reader is once; where there is one, every
  -- media has a writer. Who is active reads.
  pub record IsValidStream (st : ServerStream T) : Type 0 where
    pub counted : st.multicast_reader_count ≡ pos (multicast_readers transport_of st.readers)
    pub opened : (multicast_readers transport_of st.readers == 0) ≡ false → AllOpen st.medias
    pub unique : IsUnique st.readers
    pub active : (k : ℕ) → is_in k st.active_unicast_readers ≡ true → is_in k st.readers ≡ true

  -- A reader more, and the count and the medias that go with it.
  added-IsValidStream :
      (k : ℕ) (st : ServerStream T) (n : ℤ) (ms : List (StreamMedia T))
      → IsValidStream st
      → is_in k st.readers ≡ false
      → n ≡ pos (multicast_readers transport_of (k ∷ st.readers))
      → ((multicast_readers transport_of (k ∷ st.readers) == 0) ≡ false → AllOpen ms)
      → IsValidStream
          (record st { readers = insert k st.readers; multicast_reader_count = n; medias = ms })
  added-IsValidStream k st n ms v h c o =
      subst
        (λ rs. IsValidStream (record st { readers = rs; multicast_reader_count = n; medias = ms }))
        (sym (insert_absent k st.readers h))
        (record {
          counted = c;
          opened = o;
          unique = (h, v.unique);
          active = λ x a. let old = v.active x a in ground (arith, old);
        })

  -- A reader less, which is not active.
  removed-IsValidStream :
      (k : ℕ) (st : ServerStream T) (n : ℤ) (ms : List (StreamMedia T))
      → IsValidStream st
      → is_in k st.active_unicast_readers ≡ false
      → n ≡ pos (multicast_readers transport_of (delete k st.readers))
      → ((multicast_readers transport_of (delete k st.readers) == 0) ≡ false → AllOpen ms)
      → IsValidStream
          (record st { readers = delete k st.readers; multicast_reader_count = n; medias = ms })
  removed-IsValidStream k st n ms v a c o = record {
    counted = c;
    opened = o;
    unique = delete-IsUnique k st.readers v.unique;
    active = λ x q. elim (Bool-cases (x == k)) [
      | inl e ↦ absurd (
          true-ne-false
            (sym q ∙ subst (λ y. is_in y st.active_unicast_readers ≡ false) (same x e) a))
      | inr e ↦ is_in-delete k x st.readers e ∙ v.active x q
    ];
  }
    where
      same : (x : ℕ) → (x == k) ≡ true → k ≡ x
      same x e = ground (arith, e)

  pub reader_add-IsValidStream :
      (ports_of : ℕ → List ℕ) (opens : ℕ → Bool) (k port : ℕ) (st : ServerStream T)
      → IsValidStream st
      → is_in k st.readers ≡ false
      → IsValidStream (reader_add transport_of author_of ports_of opens k port st).1
  unfolding reader_add
  reader_add-IsValidStream ports_of opens k port st v h =
      if_case Goal st.closed (λ c. v)
        (λ c.
          transport_case Goal (transport_of k)
            (λ u.
              if_case Goal (port_in_use transport_of author_of ports_of k port st.readers) (λ i. v)
                (λ i. unicast (ground (arith, u))))
            (λ u.
              if_case Goal (is_zero st.multicast_reader_count)
                (λ z.
                  if_case Goal (open_writers transport_of author_of opens st.medias).0
                    (λ ok.
                      added-IsValidStream k st _ _ v h (counted (ground (arith, u)))
                        (λ q. open_writers-AllOpen transport_of author_of opens st.medias ok))
                    (λ ok. record {
                      counted = v.counted;
                      opened = λ q. absurd (true-ne-false (sym z ∙ ap is_zero v.counted ∙ q));
                      unique = v.unique;
                      active = v.active;
                    }))
                (λ z.
                  added-IsValidStream k st _ st.medias v h (counted (ground (arith, u)))
                    (λ q. v.opened (sym (ap is_zero v.counted) ∙ z))))
            (λ u. unicast (ground (arith, u))))
    where
      Goal : Option StreamError × ServerStream T → Type 0
      Goal o = IsValidStream o.1

      unicast :
          is_multicast transport_of k ≡ false
          → IsValidStream (record st { readers = insert k st.readers })
      unicast m =
          added-IsValidStream k st st.multicast_reader_count st.medias v h
            (v.counted ∙ ap pos (ground (arith, m))) (λ q. v.opened (ground (arith, q, m)))

      counted :
          is_multicast transport_of k ≡ true
          → st.multicast_reader_count +ℤ pos 1
            ≡ pos (multicast_readers transport_of (k ∷ st.readers))
      counted m = ap (λ n. n +ℤ pos 1) v.counted ∙ plus_one _ ∙ ap pos (ground (arith, m))

  -- The call returns, and leaves a valid stream.
  abbrev pub IsSafe : Option (ServerStream T) → Type 0
  IsSafe o = (st : ServerStream T) × (o ≡ some st) × IsValidStream st

  pub reader_remove-IsSafe :
      (k : ℕ) (st : ServerStream T)
      → IsValidStream st
      → is_in k st.readers ≡ true
      → is_in k st.active_unicast_readers ≡ false
      → IsSafe (reader_remove transport_of author_of k st)
  unfolding reader_remove
  reader_remove-IsSafe k st v h n =
      if_case IsSafe st.closed (λ c. (st, refl, v))
        (λ c.
          if_case IsSafe (is_multicast transport_of k)
            (λ m.
              if_case IsSafe (is_zero (st.multicast_reader_count -ℤ pos 1))
                (λ z.
                  let (ms, e) =
                    close_writers-is_some transport_of author_of st.medias
                      (v.opened (multicast_readers-is_in transport_of k st.readers h m)) in
                  some_case IsSafe (close_writers transport_of author_of st.medias) none
                    (λ ms. some (record st {
                      readers = delete k st.readers;
                      multicast_reader_count = st.multicast_reader_count -ℤ pos 1;
                      medias = ms;
                    }))
                    e
                    (
                      _,
                      refl,
                      removed-IsValidStream k st _ ms v n (counted m)
                          (λ q. absurd (true-ne-false (sym z ∙ ap is_zero (counted m) ∙ q))),
                    ))
                (λ z. (
                  _,
                  refl,
                  removed-IsValidStream k st _ st.medias v n (counted m)
                      (λ q. v.opened (multicast_readers-is_in transport_of k st.readers h m)),
                )))
            (λ m. (
              _,
              refl,
              removed-IsValidStream k st st.multicast_reader_count st.medias v n
                  (v.counted ∙ ap pos (same m)) (λ q. v.opened (ap (λ x. x == 0) (same m) ∙ q)),
            )))
    where
      counted :
          is_multicast transport_of k ≡ true
          → st.multicast_reader_count -ℤ pos 1
            ≡ pos (multicast_readers transport_of (delete k st.readers))
      counted m =
          let less = multicast_readers-delete transport_of k st.readers v.unique h in
          ap (λ x. x -ℤ pos 1)
            (v.counted
              ∙ ap pos (
                  less
                  ∙ ap
                      (λ b.
                        (if b then 1 else 0) + multicast_readers transport_of (delete k st.readers))
                      m))
          ∙ minus_one _

      same :
          is_multicast transport_of k ≡ false
          → multicast_readers transport_of st.readers
            ≡ multicast_readers transport_of (delete k st.readers)
      same m =
          let less = multicast_readers-delete transport_of k st.readers v.unique h in
          ground (arith, less, m)

  with_medias-IsValidStream :
      (st : ServerStream T) (ms : List (StreamMedia T))
      → IsValidStream st
      → AllOpen ms
      → IsValidStream (record st { medias = ms })
  with_medias-IsValidStream st ms v o = record {
    counted = v.counted;
    opened = λ q. o;
    unique = v.unique;
    active = v.active;
  }

  pub reader_set_active-IsSafe :
      (is : List ℕ) (k : ℕ) (st : ServerStream T)
      → IsValidStream st
      → is_in k st.readers ≡ true
      → has_all is st.medias ≡ true
      → IsSafe (reader_set_active transport_of author_of is k st)
  unfolding reader_set_active
  reader_set_active-IsSafe is k st v h a =
      if_case IsSafe st.closed (λ c. (st, refl, v))
        (λ c.
          if_case IsSafe (is_multicast transport_of k)
            (λ m.
              let (ms, e, o) =
                change_all-is_some transport_of author_of (insert (author_of k)) is st.medias
                  (v.opened (multicast_readers-is_in transport_of k st.readers h m)) a in
              some_case IsSafe
                (change_all transport_of author_of (insert (author_of k)) is st.medias) none
                (λ ms. some (record st { medias = ms })) e
                (_, refl, with_medias-IsValidStream st ms v o))
            (λ m. (
              _,
              refl,
              record {
                counted = v.counted;
                opened = v.opened;
                unique = v.unique;
                active = λ x q. elim (insert-is_in k x st.active_unicast_readers q) [
                  | inl e ↦ subst (λ y. is_in y st.readers ≡ true) (sym e) h
                  | inr e ↦ v.active x e
                ];
              },
            )))

  pub reader_set_inactive-IsSafe :
      (is : List ℕ) (k : ℕ) (st : ServerStream T)
      → IsValidStream st
      → is_in k st.readers ≡ true
      → has_all is st.medias ≡ true
      → IsSafe (reader_set_inactive transport_of author_of is k st)
  unfolding reader_set_inactive
  reader_set_inactive-IsSafe is k st v h a =
      if_case IsSafe st.closed (λ c. (st, refl, v))
        (λ c.
          if_case IsSafe (is_multicast transport_of k)
            (λ m.
              let (ms, e, o) =
                change_all-is_some transport_of author_of (delete (author_of k)) is st.medias
                  (v.opened (multicast_readers-is_in transport_of k st.readers h m)) a in
              some_case IsSafe
                (change_all transport_of author_of (delete (author_of k)) is st.medias) none
                (λ ms. some (record st { medias = ms })) e
                (_, refl, with_medias-IsValidStream st ms v o))
            (λ m. (
              _,
              refl,
              record {
                counted = v.counted;
                opened = v.opened;
                unique = v.unique;
                active = λ x q. v.active x (delete-is_in k x st.active_unicast_readers q);
              },
            )))
