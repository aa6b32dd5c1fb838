-- ===== src/RingBuffer/Holds.antt =====
-- When a ring buffer holds the items of a queue.
use gortsplib.Common.{
  ℕ, ◌+◌, ◌%◌, ◌^◌, ◌≤◌, ◌<◌, ◌≡◌, false, Option, none, List, length, get_elem?, get_or,
}
use gortsplib.RingBuffer.{RingBuffer}

module _ {A : Type 0} where
  -- Slot `i` of the ring, counted from `read` on.
  abbrev pub cell : List (Option A) → ℕ → ℕ → ℕ → Option A
  cell buf size read i = get_or buf ((read + i) % size) none

  -- The ring holds exactly the items of `q`, from its read index on, and nil everywhere else.
  pub record Represents (r : RingBuffer A) (q : List A) : Type 0 where
    pub storage : length r.buffer ≡ r.size
    pub positive : 0 < r.size
    pub small : r.size ≤ 2 ^ 63
    pub reads : r.read_index < r.size
    pub writes : r.write_index ≡ (r.read_index + length q) % r.size
    pub fits : length q ≤ r.size
    pub slots : (i : ℕ) → i < r.size → cell r.buffer r.size r.read_index i ≡ get_elem? q i
    pub opened : r.closed ≡ false
