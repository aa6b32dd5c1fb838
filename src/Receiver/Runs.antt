-- ===== src/Receiver/Runs.antt =====
-- A run of the receiver over two packets that pass the end of a cycle, and its theorem there.
use gortsplib.Common.{ℕ, ◌+◌, ◌%◌, ◌≡◌, refl, Bool, true, false, some, List, [], ◌∷◌, arith}
use gortsplib.Rtp.{Packet}
use gortsplib.Receiver.{Clock, RtcpReceiver, Report, capped, report, process_all}
use gortsplib.Receiver.Counts.{extended, report-process_all}

-- Whole seconds, and a jitter that is not computed.
abbrev clock : Clock ℕ ℕ
clock = record {
  next_jitter = λ j t u m n. j;
  fraction = λ m n. 0;
  delay = λ t u. 0;
  whole_jitter = λ j. j;
}

abbrev packet : ℕ → Packet
packet n = record {
  version = 2;
  payload_type = 96;
  sequence_number = n;
  timestamp = 0;
  ssrc = 7;
  marker = false;
  payload = [];
}

abbrev receiver : RtcpReceiver ℕ ℕ
receiver = record {
  local_ssrc = 5;
  first_rtp_packet_received = true;
  time_initialized = false;
  sequence_number_cycles = 2;
  last_sequence_number = 65533;
  remote_ssrc = 7;
  last_time_rtp = 0;
  last_time_system = 0;
  total_lost = 1;
  total_lost_since_report = 0;
  total_since_report = 1;
  jitter = 0;
  first_sender_report_received = false;
  last_sender_report_time_ntp = 0;
  last_sender_report_time_rtp = 0;
  last_sender_report_time_system = 0;
}

-- 65534 is lost, then 65535 comes, and 0.
abbrev packets : List (Packet × ℕ × Bool)
packets = (packet 65535, 10, true) ∷ (packet 0, 11, true) ∷ []

report-process_all_example :
    (rep : Report) × (r' : RtcpReceiver ℕ ℕ) × (report clock (process_all clock receiver packets) 12
      ≡ (some rep, r'))
    × (rep.last_sequence_number ≡ (extended clock receiver + 3) % 4294967296)
    × (rep.total_lost ≡ capped (1 + 1))
report-process_all_example =
    report-process_all clock receiver packets (2 ∷ 1 ∷ []) 12
      (record {
        begun = refl;
        cycles = omega arith;
        last = omega arith;
        lost = omega arith;
        lost_since = omega arith;
      })
      (
        record {
          source = refl;
          number = omega arith;
          gap = refl;
          ahead = omega arith;
          near = omega arith;
        },
        (
          record {
            source = refl;
            number = omega arith;
            gap = refl;
            ahead = omega arith;
            near = omega arith;
          },
          tt,
        ),
      )
