-- ===== src/LossDetector/Runs.antt =====
-- Runs of the loss detector, and its theorem at a stream.
use gortsplib.Common.{ℕ, ◌≡◌, refl, true, false, List, [], ◌∷◌, arith}
use gortsplib.Rtp.{Packet}
use gortsplib.LossDetector.{LossDetector, new, process, process_all}
use gortsplib.LossDetector.Loss.{process_all-lost}

abbrev packet : ℕ → Packet
packet n = record {
  version = 2;
  payload_type = 96;
  sequence_number = n;
  timestamp = 0;
  ssrc = 7;
  marker = false;
  payload = [];
}

abbrev started : LossDetector
started = record { initialized = true; expected_seq_num = 65534 }

-- 65534 and 0 arrive, 65535 and 1 are lost.
abbrev stream : List Packet
stream = packet 65534 ∷ packet 0 ∷ packet 2 ∷ []

two_lost : process_all new stream ≡ (record { initialized = true; expected_seq_num = 3 }, 2)
unfolding process_all process
two_lost = refl

process_all-lost_example :
    ((process_all started stream).1 ≡ 2) × ((process_all started stream).0.expected_seq_num ≡ 3)
process_all-lost_example =
    process_all-lost started 65534 (0 ∷ 1 ∷ 1 ∷ []) stream refl refl
      (omega arith, refl, (omega arith, refl, (omega arith, refl, tt)))
