-- ===== src/Receiver.antt =====
-- internal/rtcpreceiver/rtcpreceiver.go: what a receiver of RTP packets reports to their sender.
-- Times are of a type `T` and the jitter of a type `J`, since the code computes both with the
-- floating-point numbers and the clock of Go: what it computes with them is a parameter.
pub mod Counts
pub mod Ntp
mod Runs
use gortsplib.Common.{
  ℕ, ◌+◌, ◌-◌, ◌*◌, ◌/◌, ◌%◌, Bool, true, false, not, ◌==◌, ltb, if◌then◌else◌, Option, none, some,
  List, [], ◌∷◌,
}
use gortsplib.Common.Words.{u16, u32, add16, sub16, add32}
use gortsplib.Rtp.{Packet}

-- The functions on times and floats: the new jitter from the old one, the two arrival times and the two
-- timestamps; `uint8` of a quotient; the delay since a sender report in units of 1/65536 seconds; and
-- `uint32` of the jitter.
pub record Clock (T J : Type 0) : Type 0 where
  pub next_jitter : J → T → T → ℕ → ℕ → J
  pub fraction : ℕ → ℕ → ℕ
  pub delay : T → T → ℕ
  pub whole_jitter : J → ℕ

pub record RtcpReceiver (T J : Type 0) : Type 0 where
  pub local_ssrc : ℕ
  pub first_rtp_packet_received : Bool
  pub time_initialized : Bool
  pub sequence_number_cycles : ℕ  -- uint16
  pub last_sequence_number : ℕ  -- uint16
  pub remote_ssrc : ℕ  -- uint32
  pub last_time_rtp : ℕ  -- uint32
  pub last_time_system : T
  pub total_lost : ℕ  -- uint32
  pub total_lost_since_report : ℕ  -- uint32
  pub total_since_report : ℕ  -- uint32
  pub jitter : J
  pub first_sender_report_received : Bool
  pub last_sender_report_time_ntp : ℕ  -- uint64
  pub last_sender_report_time_rtp : ℕ  -- uint32
  pub last_sender_report_time_system : T

-- `rtcp.ReceptionReport` of github.com/pion/rtcp, with the `SSRC` of the report.
pub record Report : Type 0 where
  pub sender : ℕ
  pub source : ℕ
  pub last_sequence_number : ℕ
  pub fraction_lost : ℕ
  pub total_lost : ℕ
  pub report_jitter : ℕ
  pub last_sender_report : ℕ
  pub report_delay : ℕ

-- The limit of 24 bits.
abbrev pub capped : ℕ → ℕ
capped n = if ltb 16777215 n then 16777215 else n

module _ {T J : Type 0} (clock : Clock T J) where
  -- `ProcessPacketRTP` on the first packet.
  unfoldable pub first_packet : RtcpReceiver T J → Packet → T → Bool → RtcpReceiver T J
  first_packet r pkt system pts_equals_dts =
      let r' = record r {
        first_rtp_packet_received = true;
        total_since_report = 1;
        last_sequence_number = pkt.sequence_number;
        remote_ssrc = pkt.ssrc;
      } in
      if pts_equals_dts
      then record r' {
        time_initialized = true;
        last_time_rtp = pkt.timestamp;
        last_time_system = system;
      }
      else r'

  -- The counters, from a later packet; `diff` is `uint16(diff)`, and the test on the signed
  -- difference, `diff < -0x0FFF`, has its terms moved so that none is negative.
  unfoldable pub count_packet : RtcpReceiver T J → Packet → RtcpReceiver T J
  count_packet r pkt =
      let diff = sub16 pkt.sequence_number r.last_sequence_number in
      let missing = not (pkt.sequence_number == add16 r.last_sequence_number 1) in
      let lost = sub16 diff 1 in
      record r {
        sequence_number_cycles =
            if ltb (pkt.sequence_number + 4095) r.last_sequence_number
            then add16 r.sequence_number_cycles 1
            else r.sequence_number_cycles;
        total_lost = if missing then capped (add32 r.total_lost lost) else r.total_lost;
        total_lost_since_report =
            if missing
            then capped (add32 r.total_lost_since_report lost)
            else r.total_lost_since_report;
        total_since_report = add32 r.total_since_report diff;
        last_sequence_number = pkt.sequence_number;
      }

  -- The jitter, from a later packet.
  unfoldable pub time_packet : RtcpReceiver T J → Packet → T → RtcpReceiver T J
  time_packet r pkt system = record r {
    jitter =
        if r.time_initialized
        then clock.next_jitter r.jitter system r.last_time_system pkt.timestamp r.last_time_rtp
        else r.jitter;
    time_initialized = true;
    last_time_rtp = pkt.timestamp;
    last_time_system = system;
  }

  -- `ProcessPacketRTP`; false is the error on a wrong SSRC.
  unfoldable pub process_packet_rtp : RtcpReceiver T J → Packet → T → Bool → Bool × RtcpReceiver T J
  unfolding first_packet count_packet time_packet
  process_packet_rtp r pkt system pts_equals_dts =
      if not r.first_rtp_packet_received
      then (true, first_packet r pkt system pts_equals_dts)
      else if not (pkt.ssrc == r.remote_ssrc)
      then (false, r)
      else (
        true,
        if pts_equals_dts then time_packet (count_packet r pkt) pkt system else count_packet r pkt,
      )

  unfoldable pub process_sender_report : RtcpReceiver T J → ℕ → ℕ → T → RtcpReceiver T J
  process_sender_report r ntp rtp system = record r {
    first_sender_report_received = true;
    last_sender_report_time_ntp = ntp;
    last_sender_report_time_rtp = rtp;
    last_sender_report_time_system = system;
  }

  -- `report`, at the time `system`; none is nil.
  unfoldable pub report : RtcpReceiver T J → T → Option Report × RtcpReceiver T J
  report r system =
      let since = r.first_sender_report_received in
      if not r.first_rtp_packet_received then (none, r) else (
        some (record {
          sender = r.local_ssrc;
          source = r.remote_ssrc;
          last_sequence_number = r.sequence_number_cycles * 65536 + r.last_sequence_number;
          fraction_lost =
              clock.fraction (u32 (r.total_lost_since_report * 256)) r.total_since_report;
          total_lost = r.total_lost;
          report_jitter = clock.whole_jitter r.jitter;
          last_sender_report = if since then u32 (r.last_sender_report_time_ntp / 65536) else 0;
          report_delay = if since then clock.delay system r.last_sender_report_time_system else 0;
        }),
        record r { total_lost_since_report = 0; total_since_report = 0 },
      )

  -- The packets of a stream, with their arrival times and whether their PTS is their DTS.
  unfoldable pub process_all : RtcpReceiver T J → List (Packet × T × Bool) → RtcpReceiver T J
  process_all r [] = r
  process_all r ((pkt, system, eq) ∷ more) = process_all (process_packet_rtp r pkt system eq).1 more
