-- ===== src/RingBuffer/Push.antt =====
-- `Push` adds to the queue that the ring holds.
use native.Mathlib.Nat.{mod-add-mod}
use gortsplib.Common.{
  ℕ, ◌+◌, ◌%◌, ◌<◌, ◌≡◌, refl, sym, ap, ◌∙◌, Bool, true, false, ltb, if◌then◌else◌, Option, none,
  some, List, [], ◌∷◌, ◌++◌, length, length-append, get_elem?, get_or, set, length-set,
  get_or-set_self, get_or-set_ne, get_elem?-get_or, get_elem?-ge, get_elem?-snoc_last,
  get_elem?-snoc_ne, dec_lt, ℕ_discrete, arith,
}
use gortsplib.Common.Words.{u64}
use gortsplib.RingBuffer
use gortsplib.RingBuffer.{RingBuffer, Pulled, item, finished, waits, nil_loop}
use gortsplib.RingBuffer.Holds.{cell, Represents}
use gortsplib.RingBuffer.Slots.{wrap_cases, wrap-lt, wrap-ne}

module _ {A : Type 0} where
  pub push_eq :
      (x : Option A) (r : RingBuffer A) (c : Option A)
      → get_elem? r.buffer r.write_index ≡ some c
      → RingBuffer.push x r
        ≡ some (elim c [
          | some y ↦ (false, r)
          | none ↦ (
            true,
            record r {
              buffer = set r.buffer r.write_index x;
              write_index = u64 (r.write_index + 1) % r.size;
            },
          )
        ])
  unfolding RingBuffer.push
  push_eq x r none e = rw (e, RingBuffer.push)
  push_eq x r (some y) e = rw (e, RingBuffer.push)

module _ {A : Type 0} (r : RingBuffer A) (q : List A) (v : Represents r q) where
  -- The slot that `Push` looks at is that of the next item, if there is room.
  write_cell :
      get_elem? r.buffer r.write_index
      ≡ some (get_or r.buffer ((r.read_index + length q) % r.size) none)
  write_cell =
      let inside = wrap-lt r.size r.read_index (length q) v.reads v.fits in
      ap (get_elem? r.buffer) v.writes
      ∙ get_elem?-get_or r.buffer ((r.read_index + length q) % r.size) none
          (omega (arith, inside, v.storage))

  -- The state that `Push` leaves holds the item behind the others.
  Represents-push :
      (x : A)
      → length q < r.size
      → Represents
          (record r {
            buffer = set r.buffer r.write_index (some x);
            write_index = u64 (r.write_index + 1) % r.size;
          })
          (q ++ (x ∷ []))
  Represents-push x room = record {
    storage = length-set r.buffer r.write_index (some x) ∙ v.storage;
    positive = v.positive;
    small = v.small;
    reads = v.reads;
    writes = next;
    fits = omega (arith, length-append q (x ∷ []));
    slots = stored;
    opened = v.opened;
  }
    where
      w : ℕ
      w = (r.read_index + length q) % r.size

      w_lt : w < r.size
      w_lt = wrap-lt r.size r.read_index (length q) v.reads v.fits

      next : u64 (r.write_index + 1) % r.size ≡ (r.read_index + length (q ++ (x ∷ []))) % r.size
      next =
          ap (λ k. k % r.size) (omega (arith, v.writes, w_lt, v.small))
          ∙ mod-add-mod (r.read_index + length q) r.size 1
          ∙ ap (λ k. k % r.size) (omega (arith, length-append q (x ∷ [])))

      stored :
          (i : ℕ)
          → i < r.size
          → cell (set r.buffer r.write_index (some x)) r.size r.read_index i
            ≡ get_elem? (q ++ (x ∷ [])) i
      stored i hi = elim (ℕ_discrete i (length q)) [
        | yes e ↦
            ap (λ k. get_or (set r.buffer r.write_index (some x)) k none)
              (ap (λ k. (r.read_index + k) % r.size) e ∙ sym v.writes)
            ∙ get_or-set_self r.buffer r.write_index (some x) none
                (omega (arith, v.writes, w_lt, v.storage))
            ∙ sym (get_elem?-snoc_last q x)
            ∙ ap (get_elem? (q ++ (x ∷ []))) (sym e)
        | no ne ↦
            get_or-set_ne r.buffer r.write_index ((r.read_index + i) % r.size) (some x) none
              (λ same.
                wrap-ne r.size r.read_index i (length q) v.reads hi room ne (sym same ∙ v.writes))
            ∙ v.slots i hi
            ∙ sym (get_elem?-snoc_ne q x i ne)
      ]

  -- What `Push` does on every ring that represents a queue: it refuses the item if the queue is
  -- full, changing nothing, and otherwise adds it behind the others.
  pub push-Represents :
      (x : A)
      → (b : Bool) × (r' : RingBuffer A) × (RingBuffer.push (some x) r ≡ some (b, r'))
        × (b ≡ ltb (length q) r.size)
        × (r'.size ≡ r.size)
        × Represents r' (if ltb (length q) r.size then q ++ (x ∷ []) else q)
  push-Represents x = elim (dec_lt (length q) r.size) [
    | yes room ↦
        let empty : get_or r.buffer ((r.read_index + length q) % r.size) none ≡ none =
          v.slots (length q) room ∙ get_elem?-ge q (length q) (omega arith) in
        let yes_room : ltb (length q) r.size ≡ true = ground arith in
        (
          true,
          _,
          push_eq (some x) r none (write_cell ∙ ap some empty),
          sym yes_room,
          refl,
          rw yes_room (Represents-push x room),
        )
    | no full ↦
        let (y, there) = full_cell full in
        let no_room : ltb (length q) r.size ≡ false = ground arith in
        (
          false,
          r,
          push_eq (some x) r (some y) (write_cell ∙ ap some there),
          sym no_room,
          refl,
          rw no_room v,
        )
  ]
    where
      first : (xs : List A) → 0 < length xs → (y : A) × (get_elem? xs 0 ≡ some y)
      first [] h = elim h [ ]
      first (y ∷ xs) h = (y, refl)

      full_cell :
          ¬ (length q < r.size)
          → (y : A) × (get_or r.buffer ((r.read_index + length q) % r.size) none ≡ some y)
      full_cell full =
          let (y, e) = first q (omega (arith, v.positive)) in
          (
            y,
            ap (λ k. get_or r.buffer k none)
                  (omega (
                    arith,
                    wrap_cases r.size r.read_index (length q) v.reads v.fits,
                    wrap_cases r.size r.read_index 0 v.reads (omega arith),
                    v.fits,
                  ))
                ∙ v.slots 0 v.positive
                ∙ e,
          )
