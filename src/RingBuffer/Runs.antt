-- ===== src/RingBuffer/Runs.antt =====
-- Runs of the ring buffer, and its theorems at concrete rings.
use gortsplib.Common.{ℕ, ◌≡◌, refl, true, false, none, some, List, [], ◌∷◌, replicate, arith}
use gortsplib.RingBuffer
use gortsplib.RingBuffer.{RingBuffer, Pulled, item, finished, waits, nil_loop}
use gortsplib.RingBuffer.Queue
use gortsplib.RingBuffer.Queue.{Op, Reply, pushed, pulled, done}
use gortsplib.RingBuffer.Refine.{new_refines}
use gortsplib.RingBuffer.Restore.{Call, pushes, pulls, closes, call_all, ring_run-reset}

abbrev fresh : ℕ → RingBuffer ℕ
fresh n = record {
  size = n;
  buffer = replicate n none;
  read_index = 0;
  write_index = 0;
  closed = false;
}

abbrev script : List (Op ℕ)
script = Op.push 1 ∷ Op.push 2 ∷ Op.push 3 ∷ Op.pull ∷ Op.push 4 ∷ Op.pull ∷ Op.reset ∷ Op.pull ∷ []

script_run :
    Queue.ring_run (fresh 2) script
    ≡ some (
        pushed true
        ∷ pushed true
        ∷ pushed false
        ∷ pulled (item 1)
        ∷ pushed true
        ∷ pulled (item 2)
        ∷ done
        ∷ pulled waits
        ∷ [])
unfolding Queue.ring_run Queue.ring_step RingBuffer.push RingBuffer.pull RingBuffer.reset nil_loop
script_run = refl

three_refused : RingBuffer.new {A = ℕ} 3 ≡ none
unfolding RingBuffer.new
three_refused = refl

-- `New` accepts the size 0, and the first `Push` then panics.
zero_accepted : RingBuffer.new {A = ℕ} 0 ≡ some (fresh 0)
unfolding RingBuffer.new
zero_accepted = refl

zero_panics : RingBuffer.push (some 7) (fresh 0) ≡ none
unfolding RingBuffer.push
zero_panics = refl

new_refines_example : Queue.ring_run (fresh 2) script ≡ some (Queue.run 2 [] script)
new_refines_example =
    new_refines 2 script {r = fresh 2} (omega arith) (omega arith) (unfold RingBuffer.new in refl)

-- Calls that close the ring and leave its indices apart.
abbrev closing : List (Call ℕ)
closing = pushes (some 1) ∷ closes ∷ pulls ∷ pushes (some 5) ∷ pulls ∷ []

ring_run-reset_example :
    (r' : RingBuffer ℕ) × (call_all (fresh 2) closing ≡ some r')
    × (Queue.ring_run (RingBuffer.reset r') script ≡ some (Queue.run 2 [] script))
ring_run-reset_example =
    ring_run-reset 2 closing script {r = fresh 2} (omega arith) (omega arith)
      (unfold RingBuffer.new in refl)
