-- ===== src/Reorderer/Correct.antt =====
-- What `Process` guarantees: it returns, it keeps the invariant, and what it returns is in order.
use gortsplib.Common.{
  ℕ, ◌+◌, ◌≤◌, ◌<◌, ◌≡◌, refl, ◌∙◌, inl, inr, Bool, true, false, Bool-cases, ◌&&◌, ◌||◌, not, leb,
  none, some, get_or-replicate, replicate, arith, dec_lt, ℕ_discrete,
}
use gortsplib.Common.Words.{add16, IsU16}
use gortsplib.Rtp.{Packet}
use gortsplib.Reorderer.{
  slot, Reorderer, Output, initialize, clear_loop, is_negative, nothing, only, process_negative,
  process_overflow, process_ahead, process_expected, process,
}
use gortsplib.Reorderer.Window.{Cleared, length-clear_loop, clear_loop-Cleared}
use gortsplib.Reorderer.Order.{IsValid, offset}
use gortsplib.Reorderer.Branches.{
  Advances-quiet, Outcome, Cleared-Numbered, process_overflow-Outcome, process_ahead-Outcome,
}
use gortsplib.Reorderer.Expected.{process_expected-Outcome}

pub initialize-IsValid : IsValid initialize
unfolding initialize
initialize-IsValid = record {
  size = refl;
  position = omega arith;
  expected = omega arith;
  negatives = omega arith;
  numbered = Cleared-Numbered 0 0 (replicate 64 none) (λ j hj. get_or-replicate 64 (slot 0 j) none);
  fresh = λ h j hj. get_or-replicate 64 (slot 0 j) none;
}

-- The packet is the first one, or the 65th late one in a row: it starts the reorderer (again).
abbrev pub restarts : Reorderer → Packet → Bool
restarts r pkt =
    not r.initialized || (is_negative (offset r.expected_seq_num pkt) && leb 64 r.negative_count)

-- A reorderer that was started with a packet: it expects the next one and holds nothing.
pub record IsStarted (pkt : Packet) (r : Reorderer) : Type 0 where
  pub valid : IsValid r
  pub initialized : r.initialized ≡ true
  pub next : r.expected_seq_num ≡ add16 pkt.sequence_number 1
  pub empty : Cleared r.abs_pos 64 r.buffer

first_step :
    (r : Reorderer) (pkt : Packet)
    → r.initialized ≡ false
    → process r pkt
      ≡ some (
        only pkt,
        record r { initialized = true; expected_seq_num = add16 pkt.sequence_number 1 },
      )
unfolding process
first_step r pkt e = ground arith

reset_step :
    (r : Reorderer) (pkt : Packet)
    → r.initialized ≡ true
    → restarts r pkt ≡ true
    → process r pkt
      ≡ some (
        only pkt,
        record r {
          negative_count = 0;
          buffer = clear_loop 64 r.abs_pos 0 r.buffer;
          expected_seq_num = add16 pkt.sequence_number 1;
        },
      )
unfolding process process_negative
reset_step r pkt on e = ground arith

-- A packet that starts the reorderer, first or after a reset of the stream, is returned at once and
-- alone with no loss, and the reorderer is left empty, valid, and expecting the number after it.
pub process_restart :
    (r : Reorderer) (pkt : Packet)
    → IsValid r
    → IsU16 pkt.sequence_number
    → restarts r pkt ≡ true
    → (r' : Reorderer) × (process r pkt ≡ some (only pkt, r')) × IsStarted pkt r'
process_restart r pkt v hs h = elim (Bool-cases r.initialized) [
  | inl on ↦
      let clear =
        clear_loop-Cleared 64 r.abs_pos 0 r.buffer v.size v.position (omega arith)
          (λ j hj. absurd (omega arith)) in
      (
        _,
        reset_step r pkt on h,
        record {
          valid = record {
            size = length-clear_loop 64 r.abs_pos 0 r.buffer ∙ v.size;
            position = v.position;
            expected = omega arith;
            negatives = omega arith;
            numbered = Cleared-Numbered _ _ _ clear;
            fresh = λ q. clear;
          };
          initialized = on;
          next = refl;
          empty = clear;
        },
      )
  | inr off ↦ (
    _,
    first_step r pkt off,
    record {
      valid = record {
        size = v.size;
        position = v.position;
        expected = omega arith;
        negatives = v.negatives;
        numbered = Cleared-Numbered _ _ _ (v.fresh off);
        fresh = λ q. v.fresh off;
      };
      initialized = refl;
      next = refl;
      empty = v.fresh off;
    },
  )
]

module _ (r : Reorderer) (pkt : Packet) (on : r.initialized ≡ true) where
  pub late_step :
      32768 ≤ offset r.expected_seq_num pkt
      → r.negative_count < 64
      → process r pkt ≡ some (nothing, record r { negative_count = r.negative_count + 1 })
  unfolding process process_negative
  late_step h n = ground arith

  overflow_step :
      offset r.expected_seq_num pkt < 32768
      → 64 ≤ offset r.expected_seq_num pkt
      → process r pkt ≡ some (process_overflow r pkt (offset r.expected_seq_num pkt))
  unfolding process
  overflow_step h n = ground arith

  ahead_step :
      offset r.expected_seq_num pkt < 64
      → 0 < offset r.expected_seq_num pkt
      → process r pkt ≡ some (process_ahead r pkt (offset r.expected_seq_num pkt))
  unfolding process
  ahead_step h n = ground arith

  equal_step : offset r.expected_seq_num pkt ≡ 0 → process r pkt ≡ process_expected r pkt
  unfolding process
  equal_step h = ground arith

late-Outcome :
    (r : Reorderer) (pkt : Packet)
    → IsValid r
    → r.initialized ≡ true
    → r.negative_count < 64
    → Outcome r nothing (record r { negative_count = r.negative_count + 1 })
late-Outcome r pkt v on hn = record {
  valid = record {
    size = v.size;
    position = v.position;
    expected = v.expected;
    negatives = omega arith;
    numbered = v.numbered;
    fresh = v.fresh;
  };
  started = on;
  advances = Advances-quiet r _ _ v.expected refl refl;
  calm = inl refl;
}

pub process-Outcome :
    (r : Reorderer) (pkt : Packet)
    → IsValid r
    → IsU16 pkt.sequence_number
    → restarts r pkt ≡ false
    → (out : Output) × (r' : Reorderer) × (process r pkt ≡ some (out, r')) × Outcome r out r'
process-Outcome r pkt v hs h =
    let on : r.initialized ≡ true = ground arith in
    elim (dec_lt rel 32768) [
      | no late ↦
          let few : r.negative_count < 64 = ground arith in
          (_, _, late_step r pkt on (omega arith) few, late-Outcome r pkt v on few)
      | yes near ↦ elim (dec_lt rel 64) [
        | no far ↦ (
          _,
          _,
          overflow_step r pkt on near (omega arith),
          process_overflow-Outcome r pkt v on hs near (omega arith),
        )
        | yes close ↦ elim (ℕ_discrete rel 0) [
          | yes same ↦
              let (out, r', e, o) =
                process_expected-Outcome r pkt v on (omega (arith, v.expected)) in
              (out, r', equal_step r pkt on same ∙ e, o)
          | no ne ↦ (
            _,
            _,
            ahead_step r pkt on close (omega arith),
            process_ahead-Outcome r pkt v on hs close (omega arith),
          )
        ]
      ]
    ]
  where
    rel : ℕ
    rel = offset r.expected_seq_num pkt
