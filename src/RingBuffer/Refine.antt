-- ===== src/RingBuffer/Refine.antt =====
-- No sequence of calls tells a ring buffer from the bounded queue of its items.
use native.Mathlib.Nat.{mod-eq_of_lt}
use Prim.Native.Nat.{bit_and}
use gortsplib.Common.{
  ℕ, ◌+◌, ◌%◌, ◌^◌, ◌≤◌, ◌<◌, ◌≡◌, refl, sym, ap, ◌∙◌, subst, inl, inr, Bool, Bool-cases, false,
  ltb, ◌==◌, none, some, List, [], ◌∷◌, length, length-replicate, replicate, get_or-replicate,
  none-ne-some, some-inj, arith,
}
use gortsplib.Common.Words.{u64}
use gortsplib.RingBuffer
use gortsplib.RingBuffer.{RingBuffer, Pulled, item, finished, waits, nil_loop}
use gortsplib.RingBuffer.Holds.{Represents}
use gortsplib.RingBuffer.Push.{push-Represents}
use gortsplib.RingBuffer.Pull.{pull-Represents_cons, pull-Represents_nil, reset-Represents}
use gortsplib.RingBuffer.Queue
use gortsplib.RingBuffer.Queue.{Op, Reply, pushed, pulled, done}

-- One call: the ring answers as the queue does, and goes on representing it.
record Simulates {A : Type 0} (r : RingBuffer A) (q : List A) (op : Op A) : Type 0 where
  after : RingBuffer A
  answer : Queue.ring_step r op ≡ some ((Queue.step r.size q op).0, after)
  same_size : after.size ≡ r.size
  represents : Represents after (Queue.step r.size q op).1

module _ {A : Type 0} where
  step-Simulates : (r : RingBuffer A) (q : List A) (op : Op A) → Represents r q → Simulates r q op
  step-Simulates r q (Op.push x) v =
      let (b, r', e, eb, es, v') = push-Represents r q v x in
      elim (Bool-cases (ltb (length q) r.size)) [
        | inl room ↦ record {
          after = r';
          answer = unfold Queue.ring_step Queue.step in rw (e, Queue.ring_step) (rw (eb, room));
          same_size = es;
          represents = unfold Queue.step in rw room (rw room at v');
        }
        | inr full ↦ record {
          after = r';
          answer = unfold Queue.ring_step Queue.step in rw (e, Queue.ring_step) (rw (eb, full));
          same_size = es;
          represents = unfold Queue.step in rw full (rw full at v');
        }
      ]
  step-Simulates r [] Op.pull v = record {
    after = r;
    answer = unfold Queue.ring_step Queue.step in rw (pull-Represents_nil r v, Queue.ring_step);
    same_size = refl;
    represents = unfold Queue.step in v;
  }
  step-Simulates r (y ∷ q) Op.pull v =
      let (r', e, es, v') = pull-Represents_cons r y q v in
      record {
        after = r';
        answer = unfold Queue.ring_step Queue.step in rw (e, Queue.ring_step);
        same_size = es;
        represents = unfold Queue.step in v';
      }
  step-Simulates r q Op.reset v = record {
    after = RingBuffer.reset r;
    answer = unfold Queue.ring_step Queue.step in refl;
    same_size = unfold RingBuffer.reset in refl;
    represents = unfold Queue.step in reset-Represents r v.storage v.positive v.small;
  }

  ring_run_step :
      (r : RingBuffer A) (op : Op A) (ops : List (Op A)) {reply : Reply A} {r' : RingBuffer A}
      {replies : List (Reply A)}
      → Queue.ring_step r op ≡ some (reply, r')
      → Queue.ring_run r' ops ≡ some replies
      → Queue.ring_run r (op ∷ ops) ≡ some (reply ∷ replies)
  unfolding Queue.ring_run
  ring_run_step r op ops e f = rw (e, Queue.ring_run) (rw (f, Queue.ring_run))

  -- A ring that represents a queue answers any sequence of `Push` (of items that are not nil),
  -- `Pull` and `Reset` as the FIFO queue bounded by its size does: no call panics, no item is lost,
  -- repeated or reordered, and an item is refused exactly when the queue is full.
  pub ring_run_refines :
      (ops : List (Op A)) (r : RingBuffer A) (q : List A)
      → Represents r q
      → Queue.ring_run r ops ≡ some (Queue.run r.size q ops)
  ring_run_refines [] r q v = unfold Queue.ring_run Queue.run in refl
  ring_run_refines (op ∷ ops) r q v =
      let s = step-Simulates r q op v in
      let rest = ring_run_refines ops s.after (Queue.step r.size q op).1 s.represents in
      ring_run_step r op ops s.answer rest
      ∙ unfold Queue.run in
        ap (λ n. some ((Queue.step r.size q op).0 ∷ Queue.run n (Queue.step r.size q op).1 ops))
          s.same_size

  pub new-Represents :
      (size : ℕ) {r : RingBuffer A}
      → 0 < size
      → size ≤ 2 ^ 63
      → RingBuffer.new size ≡ some r
      → Represents r [] × (r.size ≡ size)
  unfolding RingBuffer.new
  new-Represents size {r} h0 hs e = elim (Bool-cases test) [
    | inl pass ↦
        let same : fresh ≡ r = some-inj (rw pass at e) in
        subst (λ s. Represents s [] × (s.size ≡ size)) same (fresh-Represents, refl)
    | inr fail ↦ absurd (none-ne-some (rw fail at e))
  ]
    where
      test : Bool
      test = bit_and size (u64 (size + 18446744073709551615)) == 0

      fresh : RingBuffer A
      fresh = record {
        size = size;
        buffer = replicate size none;
        read_index = 0;
        write_index = 0;
        closed = false;
      }

      fresh-Represents : Represents fresh []
      fresh-Represents = record {
        storage = length-replicate size none;
        positive = h0;
        small = hs;
        reads = h0;
        writes = sym (mod-eq_of_lt h0);
        fits = omega arith;
        slots = λ i hi. get_or-replicate size ((0 + i) % size) none;
        opened = refl;
      }

  -- What `New` makes of a size that it accepts, from 1 to 2 ^ 63, answers any sequence of `Push` (of
  -- items that are not nil), `Pull` and `Reset` as the empty FIFO queue bounded by that size does.
  pub new_refines :
      (size : ℕ) (ops : List (Op A)) {r : RingBuffer A}
      → 0 < size
      → size ≤ 2 ^ 63
      → RingBuffer.new size ≡ some r
      → Queue.ring_run r ops ≡ some (Queue.run size [] ops)
  new_refines size ops {r} h0 hs e =
      let (v, es) = new-Represents size h0 hs e in
      ring_run_refines ops r [] v ∙ ap (λ n. some (Queue.run n [] ops)) es
