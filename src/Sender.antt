-- ===== src/Sender.antt =====
-- internal/rtcpsender/rtcpsender.go: what a sender of RTP packets reports to their receivers. NTP
-- times are integers, nanoseconds since 1970; the clock of the system has the type `T`.
pub mod Reports
mod Runs
use gortsplib.Common.{
  ℕ, ◌+◌, ◌-◌, ◌*◌, ◌/◌, ◌%◌, Bool, true, false, not, ◌==◌, if◌then◌else◌, Option, none, some, List,
  [], ◌∷◌, length,
}
use gortsplib.Common.Int.{ℤ, pos, negsuc, ◌+ℤ◌}
use gortsplib.Common.Words.{u32, u64, add32}
use gortsplib.Rtp.{Packet}

-- `uint64` of an int64.
abbrev pub bits_of : ℤ → ℕ
bits_of (pos n) = u64 n
bits_of (negsuc n) = u64 (18446744073709551615 - n)

-- `ntpTimeGoToRTCP`; `|` is `+`, since the lower 32 bits on the left are 0.
unfoldable pub ntp_time_go_to_rtcp : ℤ → ℕ
ntp_time_go_to_rtcp v =
    let s = u64 (bits_of v + 2208988800000000000) in
    u64 (s / 1000000000 * 4294967296) + s % 1000000000

pub record RtcpSender (T : Type 0) : Type 0 where
  pub clock_rate : ℕ
  pub first_rtp_packet_sent : Bool
  pub last_time_rtp : ℕ  -- uint32
  pub last_time_ntp : ℤ
  pub last_time_system : T
  pub local_ssrc : ℕ  -- uint32
  pub last_sequence_number : ℕ  -- uint16
  pub packet_count : ℕ  -- uint32
  pub octet_count : ℕ  -- uint32

-- `rtcp.SenderReport` of github.com/pion/rtcp, the fields that are set.
pub record SenderReport : Type 0 where
  pub report_ssrc : ℕ
  pub ntp_time : ℕ
  pub rtp_time : ℕ
  pub report_packets : ℕ
  pub report_octets : ℕ

pub record SenderStats : Type 0 where
  pub stats_ssrc : ℕ
  pub stats_sequence_number : ℕ
  pub last_rtp : ℕ
  pub last_ntp : ℤ

-- `ProcessPacketRTP` at the time `system`.
unfoldable pub process_sent : {T : Type 0} → RtcpSender T → Packet → ℤ → Bool → T → RtcpSender T
process_sent s pkt ntp pts_equals_dts system =
    let timed = record s {
      first_rtp_packet_sent = true;
      last_time_rtp = pkt.timestamp;
      last_time_ntp = ntp;
      last_time_system = system;
      local_ssrc = pkt.ssrc;
    } in
    record (if pts_equals_dts then timed else s) {
      last_sequence_number = pkt.sequence_number;
      packet_count = add32 s.packet_count 1;
      octet_count = add32 s.octet_count (u32 (length pkt.payload));
    }

-- `report` at the time `system`: `since` is `Sub`, and `ticks` the `uint32` of a product of floats.
unfoldable pub sender_report :
    {T : Type 0} → (T → T → ℤ) → (ℤ → ℕ → ℕ) → RtcpSender T → T → Option SenderReport
unfolding ntp_time_go_to_rtcp
sender_report since ticks s system =
    let diff = since system s.last_time_system in
    if not s.first_rtp_packet_sent
    then none
    else some (record {
      report_ssrc = s.local_ssrc;
      ntp_time = ntp_time_go_to_rtcp (s.last_time_ntp +ℤ diff);
      rtp_time = add32 s.last_time_rtp (ticks diff s.clock_rate);
      report_packets = s.packet_count;
      report_octets = s.octet_count;
    })

-- `Stats`
unfoldable pub sender_stats : {T : Type 0} → RtcpSender T → Option SenderStats
sender_stats s =
    if not s.first_rtp_packet_sent
    then none
    else some (record {
      stats_ssrc = s.local_ssrc;
      stats_sequence_number = s.last_sequence_number;
      last_rtp = s.last_time_rtp;
      last_ntp = s.last_time_ntp;
    })
