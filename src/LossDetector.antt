-- ===== src/LossDetector.antt =====
-- internal/rtplossdetector/lossdetector.go: how many RTP packets a stream has lost.
pub mod Loss
mod Runs
use gortsplib.Common.{ℕ, ◌+◌, Bool, true, false, ◌==◌, if◌then◌else◌, List, [], ◌∷◌}
use gortsplib.Common.Words.{add16, sub16}
use gortsplib.Rtp.{Packet}

pub record LossDetector : Type 0 where
  pub initialized : Bool
  pub expected_seq_num : ℕ  -- uint16

abbrev pub new : LossDetector
new = record { initialized = false; expected_seq_num = 0 }

-- The state after the packet, and the number of lost packets.
unfoldable pub process : LossDetector → Packet → LossDetector × ℕ
process r pkt =
    let next : LossDetector = record {
      initialized = true;
      expected_seq_num = add16 pkt.sequence_number 1;
    } in
    if r.initialized
    then (if pkt.sequence_number == r.expected_seq_num
        then (next, 0)
        else (next, sub16 pkt.sequence_number r.expected_seq_num))
    else (next, 0)

-- The packets of a stream in order of arrival, with the losses added up.
unfoldable pub process_all : LossDetector → List Packet → LossDetector × ℕ
process_all r [] = (r, 0)
process_all r (pkt ∷ pkts) =
    let (r', lost) = process r pkt in let (r'', more) = process_all r' pkts in (r'', lost + more)
