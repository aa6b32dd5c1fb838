-- ===== src/Reorderer/Runs.antt =====
-- Runs of the reorderer, and its theorems at a buffer that waits for one packet.
use mathlib.Core.List.{map}
use gortsplib.Common.{
  ℕ, ◌≡◌, refl, inl, inr, true, false, none, some, List, [], ◌∷◌, set, get_or-replicate, replicate,
  arith, true-ne-false,
}
use gortsplib.Rtp.{Packet}
use gortsplib.Reorderer.{
  Buffer, slot, Reorderer, Output, initialize, nothing, only, count_loop, drain_loop, free_loop,
  release_loop, process_overflow, process_expected, process,
}
use gortsplib.Reorderer.Order.{IsValid}
use gortsplib.Reorderer.Branches.{Advances, Cleared-Numbered, Numbered-set}
use gortsplib.Reorderer.Correct.{IsStarted, process_restart, initialize-IsValid}
use gortsplib.Reorderer.Stream.{process-IsValid, process-Advances, process_duplicate}

abbrev packet : ℕ → Packet
packet n = record {
  version = 2;
  payload_type = 96;
  sequence_number = n;
  timestamp = 0;
  ssrc = 7;
  marker = false;
  payload = [];
}

abbrev empty_slots : Buffer
empty_slots = replicate 64 none

-- 65535 is expected, 0 has arrived.
abbrev waiting : Reorderer
waiting = record {
  initialized = true;
  expected_seq_num = 65535;
  buffer = set empty_slots (slot 3 1) (some (packet 0));
  abs_pos = 3;
  negative_count = 0;
}

waiting-IsValid : IsValid waiting
waiting-IsValid = record {
  size = refl;
  position = omega arith;
  expected = omega arith;
  negatives = omega arith;
  numbered =
      Numbered-set 65535 3 1 empty_slots (packet 0) refl (omega arith) (omega arith) (omega arith)
        refl (Cleared-Numbered 65535 3 empty_slots (λ j hj. get_or-replicate 64 (slot 3 j) none));
  fresh = λ h. absurd (true-ne-false h);
}

abbrev both : Output
both = record { packets = some (packet 65535) ∷ some (packet 0) ∷ []; lost = 0 }

abbrev released : Reorderer
released = record {
  initialized = true;
  expected_seq_num = 1;
  buffer = empty_slots;
  abs_pos = 5;
  negative_count = 0;
}

release_run : process waiting (packet 65535) ≡ some (both, released)
unfolding process process_expected free_loop release_loop
release_run = refl

-- 165 comes 100 numbers after the expected 65: the 37th packet is in hand, 98 others are not.
overflow_run : process_overflow waiting (packet 99) 100 ≡ (
  record { packets = some (packet 0) ∷ some (packet 99) ∷ []; lost = 99 },
  record waiting { buffer = empty_slots; expected_seq_num = 100 },
)
unfolding process_overflow count_loop drain_loop
overflow_run = refl

process-IsValid_example :
    (out : Output) × (r' : Reorderer) × (packets : List Packet) × (process waiting (packet 65535)
      ≡ some (out, r'))
    × (out.packets ≡ map some packets)
    × IsValid r'
process-IsValid_example = process-IsValid waiting (packet 65535) waiting-IsValid (omega arith)

process-Advances_example : Advances waiting both released
process-Advances_example =
    process-Advances waiting (packet 65535) both released waiting-IsValid (omega arith) refl
      release_run

process_duplicate_example :
    (r'' : Reorderer) × (process released (packet 0) ≡ some (nothing, r''))
    × (r''.expected_seq_num ≡ 1)
    × (r''.buffer ≡ empty_slots)
process_duplicate_example =
    process_duplicate waiting (packet 65535) (packet 0) (packet 0) both released waiting-IsValid
      (omega arith) refl release_run (inr (inl refl)) refl (omega arith)

process_restart_example :
    (r' : Reorderer) × (process initialize (packet 9) ≡ some (only (packet 9), r'))
    × IsStarted (packet 9) r'
unfolding initialize
process_restart_example =
    process_restart initialize (packet 9) initialize-IsValid (omega arith) refl
