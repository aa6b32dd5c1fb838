-- ===== src/RingBuffer.antt =====
-- pkg/ringbuffer/ringbuffer.go: the bounded queue between a session and its writer.
-- Every method runs under the mutex of the buffer, so a method is one step. `none` is a panic (an
-- index out of range). `Pull` is one round of its loop: `waits` stands for `r.cond.Wait()`, after
-- which the caller makes another round.
pub mod Queue
pub mod Slots
pub mod Holds
pub mod Push
pub mod Pull
pub mod Refine
pub mod Restore
mod Runs
use Prim.Native.Nat.{bit_and}
use gortsplib.Common.{
  ℕ, zero, suc, ◌+◌, ◌-◌, ◌%◌, Bool, true, false, ◌==◌, if◌then◌else◌, Option, none, some, List,
  get_elem?, set, replicate,
}
use gortsplib.Common.Words.{u64}

pub record RingBuffer (A : Type 0) : Type 0 where
  pub size : ℕ  -- uint64
  pub buffer : List (Option A)
  pub read_index : ℕ  -- uint64
  pub write_index : ℕ  -- uint64
  pub closed : Bool

-- The values of `Pull`: the data, `(nil, false)`, or a wait.
pub data Pulled (A : Type 0) : Type 0 where
  item : A → Pulled A
  finished : Pulled A
  waits : Pulled A

module _ {A : Type 0} where
  -- `New`: `none` is the error.
  unfoldable pub new : ℕ → Option (RingBuffer A)
  new size =
      if bit_and size (u64 (size + 18446744073709551615)) == 0
      then some (record {
        size = size;
        buffer = replicate size none;
        read_index = 0;
        write_index = 0;
        closed = false;
      })
      else none

  -- The loop that sets the entries to nil, from index `i` on.
  unfoldable pub nil_loop : ℕ → ℕ → List (Option A) → List (Option A)
  nil_loop zero i buf = buf
  nil_loop (suc k) i buf = nil_loop k (i + 1) (set buf i none)

  -- `Close`, without the `Broadcast` that wakes the readers that wait.
  unfoldable pub close : RingBuffer A → RingBuffer A
  close r = record r { closed = true; buffer = nil_loop r.size 0 r.buffer }

  unfoldable pub reset : RingBuffer A → RingBuffer A
  reset r = record r {
    buffer = nil_loop r.size 0 r.buffer;
    write_index = 0;
    read_index = 0;
    closed = false;
  }

  -- The data may be nil, as any `interface{}`.
  unfoldable pub push : Option A → RingBuffer A → Option (Bool × RingBuffer A)
  push x r = elim (get_elem? r.buffer r.write_index) [
    | none ↦ none
    | some (some y) ↦ some (false, r)
    | some none ↦ some (
      true,
      record r {
        buffer = set r.buffer r.write_index x;
        write_index = u64 (r.write_index + 1) % r.size;
      },
    )
  ]

  unfoldable pub pull : RingBuffer A → Option (Pulled A × RingBuffer A)
  pull r = elim (get_elem? r.buffer r.read_index) [
    | none ↦ none
    | some (some y) ↦ some (
      item y,
      record r {
        buffer = set r.buffer r.read_index none;
        read_index = u64 (r.read_index + 1) % r.size;
      },
    )
    | some none ↦ some (if r.closed then finished else waits, r)
  ]
