-- ===== src/Sender/Runs.antt =====
-- A run of the sender over two packets, and of a receiver that gets its report.
use gortsplib.Common.{
  ℕ, ◌+◌, ◌*◌, ◌/◌, ◌≡◌, refl, sym, subst, Bool, true, false, some, List, [], ◌∷◌, arith,
}
use gortsplib.Common.Int.{ℤ, pos, sub_ℕ, ◌+ℤ◌}
use gortsplib.Common.Words.{u32, add32}
use gortsplib.Rtp.{Packet}
use gortsplib.Receiver.{Clock, RtcpReceiver, process_sender_report}
use gortsplib.Receiver.Ntp.{ntp_time_rtcp_to_go, packet_ntp}
use gortsplib.Sender.{RtcpSender, SenderReport, ntp_time_go_to_rtcp, sender_report}
use gortsplib.Sender.Reports.{
  InNtpEra, Sent, send_all, ntp_time_rtcp_to_go-ntp_time_go_to_rtcp, sender_report-send_all,
  packet_ntp-sender_report,
}

ntp_time_rtcp_to_go-ntp_time_go_to_rtcp_example :
    ntp_time_rtcp_to_go (ntp_time_go_to_rtcp (pos 1700000000123456789)) ≡ pos 1700000000123456789
ntp_time_rtcp_to_go-ntp_time_go_to_rtcp_example =
    ntp_time_rtcp_to_go-ntp_time_go_to_rtcp (pos 1700000000123456789) (omega arith, omega arith)

-- The clock counts nanoseconds.
abbrev since : ℕ → ℕ → ℤ
since a b = sub_ℕ a b

abbrev ticks : ℤ → ℕ → ℕ
ticks (pos n) rate = u32 (n * rate / 1000000000)
ticks _ rate = 0

abbrev sender : RtcpSender ℕ
sender = record {
  clock_rate = 90000;
  first_rtp_packet_sent = false;
  last_time_rtp = 0;
  last_time_ntp = pos 0;
  last_time_system = 0;
  local_ssrc = 0;
  last_sequence_number = 0;
  packet_count = 0;
  octet_count = 0;
}

abbrev packet : ℕ → List ℕ → Packet
packet n bytes = record {
  version = 2;
  payload_type = 96;
  sequence_number = n;
  timestamp = 90000;
  ssrc = 7;
  marker = true;
  payload = bytes;
}

abbrev sent : ℕ → List ℕ → Bool → Sent ℕ
sent n bytes flag = record {
  pkt = packet n bytes;
  ntp = pos 1700000000000000000;
  pts_equals_dts = flag;
  system = 5;
}

sender_report-send_all_example :
    (rep : SenderReport) × (sender_report since ticks
        (send_all sender (sent 1 (1 ∷ 2 ∷ []) false ∷ sent 2 (3 ∷ []) true ∷ []))
        1000000005
      ≡ some rep)
    × (rep.report_ssrc ≡ 7)
    × (rep.report_packets ≡ u32 (0 + (1 + 1)))
    × (rep.report_octets ≡ u32 (0 + (2 + 1)))
sender_report-send_all_example =
    sender_report-send_all since ticks sender (sent 1 (1 ∷ 2 ∷ []) false ∷ [])
      (sent 2 (3 ∷ []) true) 1000000005 refl

-- The sender after a packet, and its report one second later.
abbrev started : RtcpSender ℕ
started = record sender {
  first_rtp_packet_sent = true;
  last_time_rtp = 90000;
  last_time_ntp = pos 1700000000000000000;
  last_time_system = 5;
  local_ssrc = 7;
  last_sequence_number = 2;
  packet_count = 1;
  octet_count = 1;
}

abbrev report : SenderReport
report = record {
  report_ssrc = 7;
  ntp_time = ntp_time_go_to_rtcp (pos 1700000001000000000);
  rtp_time = 180000;
  report_packets = 1;
  report_octets = 1;
}

report_run : sender_report since ticks started 1000000005 ≡ some report
unfolding sender_report ◌+ℤ◌
report_run = refl

added : pos 1700000000000000000 +ℤ pos 1000000000 ≡ pos 1700000001000000000
unfolding ◌+ℤ◌
added = refl

abbrev receiver : RtcpReceiver ℕ ℕ
receiver = record {
  local_ssrc = 5;
  first_rtp_packet_received = true;
  time_initialized = false;
  sequence_number_cycles = 0;
  last_sequence_number = 2;
  remote_ssrc = 7;
  last_time_rtp = 90000;
  last_time_system = 0;
  total_lost = 0;
  total_lost_since_report = 0;
  total_since_report = 1;
  jitter = 0;
  first_sender_report_received = false;
  last_sender_report_time_ntp = 0;
  last_sender_report_time_rtp = 0;
  last_sender_report_time_system = 0;
}

abbrev clock : Clock ℕ ℕ
clock = record {
  next_jitter = λ j t u m n. j;
  fraction = λ m n. 0;
  delay = λ t u. 0;
  whole_jitter = λ j. j;
}

packet_ntp-sender_report_example :
    packet_ntp 90000
      (process_sender_report clock receiver report.ntp_time report.rtp_time 6)
      (add32 report.rtp_time 45000)
    ≡ some
        (some ((pos 1700000000000000000 +ℤ since 1000000005 5) +ℤ pos (45000 * 1000000000 / 90000)))
packet_ntp-sender_report_example =
    packet_ntp-sender_report since ticks started 1000000005 report receiver clock 6 90000 45000
      report_run (subst InNtpEra (sym added) (omega arith, omega arith)) (omega arith) (omega arith)
