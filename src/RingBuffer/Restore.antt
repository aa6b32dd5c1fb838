-- ===== src/RingBuffer/Restore.antt =====
-- `Reset` restores a ring buffer, whatever was done to it before, `Close` included.
use native.Mathlib.Nat.{mod-lt}
use gortsplib.Common.{
  ℕ, ◌+◌, ◌%◌, ◌^◌, ◌≤◌, ◌<◌, ◌≡◌, refl, sym, ap, ◌∙◌, subst, true, false, if◌then◌else◌, Option,
  none, some, List, [], ◌∷◌, length, get_or, get_elem?-get_or, set, length-set, arith,
}
use gortsplib.Common.Words.{u64}
use gortsplib.RingBuffer
use gortsplib.RingBuffer.{RingBuffer, Pulled, item, finished, waits, nil_loop}
use gortsplib.RingBuffer.Holds.{Represents}
use gortsplib.RingBuffer.Slots.{length-nil_loop}
use gortsplib.RingBuffer.Push.{push_eq}
use gortsplib.RingBuffer.Pull.{pull_eq, reset-Represents}
use gortsplib.RingBuffer.Queue
use gortsplib.RingBuffer.Queue.{Op}
use gortsplib.RingBuffer.Refine.{ring_run_refines, new-Represents}

-- Any call; what `Push` gets may be nil.
pub data Call (A : Type 0) : Type 0 where
  pushes : Option A → Call A
  pulls : Call A
  closes : Call A
  resets : Call A

module _ {A : Type 0} where
  -- The ring after the call.
  unfoldable pub call : RingBuffer A → Call A → Option (RingBuffer A)
  call r (pushes x) = elim (RingBuffer.push x r) [ none ↦ none | some (b, r') ↦ some r' ]
  call r pulls = elim (RingBuffer.pull r) [ none ↦ none | some (p, r') ↦ some r' ]
  call r closes = some (RingBuffer.close r)
  call r resets = some (RingBuffer.reset r)

  unfoldable pub call_all : RingBuffer A → List (Call A) → Option (RingBuffer A)
  call_all r [] = some r
  call_all r (c ∷ cs) = elim (call r c) [ none ↦ none | some r' ↦ call_all r' cs ]

  -- The storage has as many slots as the size says, and the indices are in it.
  record IsSound (r : RingBuffer A) : Type 0 where
    storage : length r.buffer ≡ r.size
    positive : 0 < r.size
    reads : r.read_index < r.size
    writes : r.write_index < r.size

  -- The call returns, and the ring has its size and is sound.
  data Returns (size : ℕ) : Option (RingBuffer A) → Type 0 where
    returns : (r : RingBuffer A) → IsSound r → r.size ≡ size → Returns size (some r)

  pushed-Returns :
      (r : RingBuffer A) (x c : Option A)
      → IsSound r
      → RingBuffer.push x r
        ≡ some (elim c [
          | some y ↦ (false, r)
          | none ↦ (
            true,
            record r {
              buffer = set r.buffer r.write_index x;
              write_index = u64 (r.write_index + 1) % r.size;
            },
          )
        ])
      → Returns r.size (call r (pushes x))
  unfolding call
  pushed-Returns r x (some y) v e = rw (e, call) (returns r v refl)
  pushed-Returns r x none v e =
      rw (e, call)
        (returns _
          (record {
            storage = length-set r.buffer r.write_index x ∙ v.storage;
            positive = v.positive;
            reads = v.reads;
            writes = mod-lt (u64 (r.write_index + 1)) v.positive;
          })
          refl)

  pulled-Returns :
      (r : RingBuffer A) (c : Option A)
      → IsSound r
      → RingBuffer.pull r
        ≡ some (elim c [
          | some y ↦ (
            item y,
            record r {
              buffer = set r.buffer r.read_index none;
              read_index = u64 (r.read_index + 1) % r.size;
            },
          )
          | none ↦ (if r.closed then finished else waits, r)
        ])
      → Returns r.size (call r pulls)
  unfolding call
  pulled-Returns r none v e = rw (e, call) (returns r v refl)
  pulled-Returns r (some y) v e =
      rw (e, call)
        (returns _
          (record {
            storage = length-set r.buffer r.read_index none ∙ v.storage;
            positive = v.positive;
            reads = mod-lt (u64 (r.read_index + 1)) v.positive;
            writes = v.writes;
          })
          refl)

  call-Returns : (r : RingBuffer A) (c : Call A) → IsSound r → Returns r.size (call r c)
  unfolding call RingBuffer.close RingBuffer.reset
  call-Returns r (pushes x) v =
      let c = get_or r.buffer r.write_index none in
      pushed-Returns r x c v (
        push_eq x r c
          (get_elem?-get_or r.buffer r.write_index none (omega (arith, v.storage, v.writes))))
  call-Returns r pulls v =
      let c = get_or r.buffer r.read_index none in
      pulled-Returns r c v (
        pull_eq r c
          (get_elem?-get_or r.buffer r.read_index none (omega (arith, v.storage, v.reads))))
  call-Returns r closes v =
      returns _
        (record {
          storage = length-nil_loop r.size 0 r.buffer ∙ v.storage;
          positive = v.positive;
          reads = v.reads;
          writes = v.writes;
        })
        refl
  call-Returns r resets v =
      returns _
        (record {
          storage = length-nil_loop r.size 0 r.buffer ∙ v.storage;
          positive = v.positive;
          reads = v.positive;
          writes = v.positive;
        })
        refl

  called_all :
      (size : ℕ) (cs : List (Call A)) {o : Option (RingBuffer A)}
      → Returns size o
      → Returns size (elim o [ none ↦ none | some r ↦ call_all r cs ])
  unfolding call_all
  called_all size [] (returns r v e) = returns r v e
  called_all size (c ∷ cs) (returns r v e) =
      called_all size cs (subst (λ n. Returns n (call r c)) e (call-Returns r c v))

  new-IsSound :
      {r : RingBuffer A} {q : List A} → Represents r q → r.write_index < r.size → IsSound r
  new-IsSound v w = record {
    storage = v.storage;
    positive = v.positive;
    reads = v.reads;
    writes = w;
  }

  -- After any calls of `Push`, even of nil, `Pull`, `Close` and `Reset` on a ring that `New` made, of
  -- a size from 1 to 2 ^ 63, none of which panics, `Reset` gives a ring that answers any sequence of
  -- `Push` (of items that are not nil), `Pull` and `Reset` as an empty FIFO queue bounded by the size.
  pub ring_run-reset :
      (size : ℕ) (cs : List (Call A)) (ops : List (Op A)) {r : RingBuffer A}
      → 0 < size
      → size ≤ 2 ^ 63
      → RingBuffer.new size ≡ some r
      → (r' : RingBuffer A) × (call_all r cs ≡ some r')
        × (Queue.ring_run (RingBuffer.reset r') ops ≡ some (Queue.run size [] ops))
  ring_run-reset size cs ops {r} h0 hs e =
      let (v, same) = new-Represents size h0 hs e in
      let start : Returns size (some r) =
        returns r (new-IsSound v (subst (λ i. i < r.size) (sym v.writes) (mod-lt _ v.positive)))
          same in
      restored (called_all size cs start)
    where
      restored :
          {o : Option (RingBuffer A)}
          → Returns size o
          → (r' : RingBuffer A) × (o ≡ some r')
            × (Queue.ring_run (RingBuffer.reset r') ops ≡ some (Queue.run size [] ops))
      restored (returns r' s same) = (
        r',
        refl,
        ring_run_refines ops (RingBuffer.reset r') []
              (reset-Represents r' s.storage s.positive (subst (λ n. n ≤ 2 ^ 63) (sym same) hs))
            ∙ unfold RingBuffer.reset in ap (λ n. some (Queue.run n [] ops)) same,
      )
