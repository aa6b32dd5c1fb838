-- ===== src/RingBuffer/Queue.antt =====
-- What a ring buffer promises: a FIFO queue of at most `size` items.
use gortsplib.Common.{
  ℕ, Bool, true, false, ltb, if◌then◌else◌, Option, none, some, List, [], ◌∷◌, ◌++◌, length,
}
use gortsplib.RingBuffer.{RingBuffer, Pulled, item, finished, waits}
use gortsplib.RingBuffer

-- A client's call: `Push` of something that is not nil, one round of `Pull`, or `Reset`.
pub data Op (A : Type 0) : Type 0 where
  push : A → Op A
  pull : Op A
  reset : Op A

pub data Reply (A : Type 0) : Type 0 where
  pushed : Bool → Reply A
  pulled : Pulled A → Reply A
  done : Reply A

module _ {A : Type 0} where
  -- The queue: oldest item first. A `pull` of an empty open queue waits.
  unfoldable pub step : ℕ → List A → Op A → Reply A × List A
  step size q (push x) =
      if ltb (length q) size then (pushed true, q ++ (x ∷ [])) else (pushed false, q)
  step size [] pull = (pulled waits, [])
  step size (x ∷ q) pull = (pulled (item x), q)
  step size q reset = (done, [])

  unfoldable pub run : ℕ → List A → List (Op A) → List (Reply A)
  run size q [] = []
  run size q (op ∷ ops) = let (reply, q') = step size q op in reply ∷ run size q' ops

  -- The same calls on a ring buffer.
  unfoldable pub ring_step : RingBuffer A → Op A → Option (Reply A × RingBuffer A)
  ring_step r (push x) = elim (RingBuffer.push (some x) r) [
    | none ↦ none
    | some (b, r') ↦ some (pushed b, r')
  ]
  ring_step r pull = elim (RingBuffer.pull r) [ none ↦ none | some (p, r') ↦ some (pulled p, r') ]
  ring_step r reset = some (done, RingBuffer.reset r)

  unfoldable pub ring_run : RingBuffer A → List (Op A) → Option (List (Reply A))
  ring_run r [] = some []
  ring_run r (op ∷ ops) = elim (ring_step r op) [
    | none ↦ none
    | some (reply, r') ↦ elim (ring_run r' ops) [
      | none ↦ none
      | some replies ↦ some (reply ∷ replies)
    ]
  ]
