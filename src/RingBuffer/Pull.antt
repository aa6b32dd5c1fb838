-- ===== src/RingBuffer/Pull.antt =====
-- `Pull` takes from the queue that the ring holds; `Reset`.
use native.Mathlib.Nat.{mod-add-mod, mod-eq_of_lt}
use gortsplib.Common.{
  ℕ, suc, ◌+◌, ◌%◌, ◌^◌, ◌≤◌, ◌<◌, ◌≡◌, refl, sym, ap, ◌∙◌, if◌then◌else◌, Option, none, some, List,
  [], ◌∷◌, length, get_elem?, get_or, set, length-set, get_or-set_self, get_or-set_ne,
  get_elem?-get_or, get_elem?-ge, dec_lt, arith,
}
use gortsplib.Common.Words.{u64}
use gortsplib.RingBuffer
use gortsplib.RingBuffer.{RingBuffer, Pulled, item, finished, waits, nil_loop}
use gortsplib.RingBuffer.Holds.{cell, Represents}
use gortsplib.RingBuffer.Slots.{wrap_cases, wrap-lt, wrap-ne, length-nil_loop, get_or-nil_loop}

module _ {A : Type 0} where
  pub pull_eq :
      (r : RingBuffer A) (c : Option A)
      → get_elem? r.buffer r.read_index ≡ some c
      → RingBuffer.pull r
        ≡ some (elim c [
          | some y ↦ (
            item y,
            record r {
              buffer = set r.buffer r.read_index none;
              read_index = u64 (r.read_index + 1) % r.size;
            },
          )
          | none ↦ (if r.closed then finished else waits, r)
        ])
  unfolding RingBuffer.pull
  pull_eq r none e = rw (e, RingBuffer.pull)
  pull_eq r (some y) e = rw (e, RingBuffer.pull)

module _ {A : Type 0} (r : RingBuffer A) where
  read_cell : (q : List A) → Represents r q → get_elem? r.buffer r.read_index ≡ some (get_elem? q 0)
  read_cell q v =
      get_elem?-get_or r.buffer r.read_index none (omega (arith, v.storage, v.reads))
      ∙ ap some (
          ap (λ i. get_or r.buffer i none)
            (omega (arith, v.reads, wrap_cases r.size r.read_index 0 v.reads (omega arith)))
          ∙ v.slots 0 v.positive)

  -- The state that `Pull` leaves holds the items behind the first.
  Represents-pull :
      (y : A) (q : List A)
      → Represents r (y ∷ q)
      → Represents
          (record r {
            buffer = set r.buffer r.read_index none;
            read_index = u64 (r.read_index + 1) % r.size;
          })
          q
  Represents-pull y q v = record {
    storage = length-set r.buffer r.read_index none ∙ v.storage;
    positive = v.positive;
    small = v.small;
    reads = rw step (wrap-lt r.size r.read_index 1 v.reads (omega (arith, v.positive)));
    writes = v.writes ∙ sym (shift (length q) (suc (length q)) (omega arith));
    fits = omega (arith, v.fits);
    slots = kept;
    opened = v.opened;
  }
    where
      step : u64 (r.read_index + 1) % r.size ≡ (r.read_index + 1) % r.size
      step = ap (λ k. k % r.size) (omega (arith, v.reads, v.small))

      shift :
          (i j : ℕ)
          → j ≡ i + 1
          → (u64 (r.read_index + 1) % r.size + i) % r.size ≡ (r.read_index + j) % r.size
      shift i j e =
          ap (λ k. (k + i) % r.size) step
          ∙ mod-add-mod (r.read_index + 1) r.size i
          ∙ ap (λ k. k % r.size) (omega (arith, e))

      zero_wrap : (r.read_index + 0) % r.size ≡ r.read_index
      zero_wrap = omega (arith, v.reads, wrap_cases r.size r.read_index 0 v.reads (omega arith))

      kept :
          (i : ℕ)
          → i < r.size
          → cell (set r.buffer r.read_index none) r.size (u64 (r.read_index + 1) % r.size) i
            ≡ get_elem? q i
      kept i hi = elim (dec_lt (i + 1) r.size) [
        | yes inside ↦
            ap (λ k. get_or (set r.buffer r.read_index none) k none) (shift i (suc i) (omega arith))
            ∙ get_or-set_ne r.buffer r.read_index ((r.read_index + suc i) % r.size) none none
                (λ same.
                  wrap-ne r.size r.read_index 0 (suc i) v.reads v.positive (omega (arith, inside))
                    (omega arith) (zero_wrap ∙ same))
            ∙ v.slots (suc i) (omega (arith, inside))
        | no last ↦
            ap (λ k. get_or (set r.buffer r.read_index none) k none)
              (shift i (suc i) (omega arith)
                ∙ omega (
                  arith,
                  v.reads,
                  wrap_cases r.size r.read_index (suc i) v.reads (omega (arith, hi)),
                ))
            ∙ get_or-set_self r.buffer r.read_index none none (omega (arith, v.reads, v.storage))
            ∙ sym (get_elem?-ge q i (omega (arith, v.fits)))
      ]

  -- What a round of `Pull` does on every ring that represents a queue: it returns the oldest item
  -- and leaves the others, or waits on the empty queue with the ring as it was.
  pub pull-Represents_cons :
      (y : A) (q : List A)
      → Represents r (y ∷ q)
      → (r' : RingBuffer A) × (RingBuffer.pull r ≡ some (item y, r'))
        × (r'.size ≡ r.size)
        × Represents r' q
  pull-Represents_cons y q v =
      (_, pull_eq r (some y) (read_cell (y ∷ q) v), refl, Represents-pull y q v)

  pub pull-Represents_nil : Represents r [] → RingBuffer.pull r ≡ some (waits, r)
  pull-Represents_nil v =
      pull_eq r none (read_cell [] v) ∙ ap (λ b. some (if b then finished else waits, r)) v.opened

  nil_slots : length r.buffer ≡ r.size → (j : ℕ) → get_or (nil_loop r.size 0 r.buffer) j none ≡ none
  nil_slots h = get_or-nil_loop r.size 0 r.buffer (omega arith) (λ j hj. absurd (omega arith))

  -- `Reset` of any ring with its storage makes it hold the empty queue.
  pub reset-Represents :
      length r.buffer ≡ r.size → 0 < r.size → r.size ≤ 2 ^ 63 → Represents (RingBuffer.reset r) []
  unfolding RingBuffer.reset
  reset-Represents hl h0 hs = record {
    storage = length-nil_loop r.size 0 r.buffer ∙ hl;
    positive = h0;
    small = hs;
    reads = h0;
    writes = sym (mod-eq_of_lt h0);
    fits = omega arith;
    slots = λ i hi. nil_slots hl ((0 + i) % r.size);
    opened = refl;
  }
