-- ===== src/Receiver/Ntp.antt =====
-- internal/rtcpreceiver/rtcpreceiver.go: NTP times, PacketNTP and Stats. A time is the integer that
-- `UnixNano` gives, nanoseconds since 1970.
use gortsplib.Common.{ℕ, ◌+◌, ◌-◌, ◌*◌, ◌/◌, ◌%◌, not, ◌==◌, ltb, if◌then◌else◌, Option, none, some}
use gortsplib.Common.Int.{ℤ, pos, sub_ℕ, ◌+ℤ◌}
use gortsplib.Common.Words.{sub32}
use gortsplib.Receiver.{RtcpReceiver}

-- `ntpTimeRTCPToGo`; nothing in it overflows an int64, since it gets a uint64.
unfoldable pub ntp_time_rtcp_to_go : ℕ → ℤ
ntp_time_rtcp_to_go v = sub_ℕ (v / 4294967296 * 1000000000 + v % 4294967296) 2208988800000000000

-- A quotient that rounds towards 0, of the int32 in `diff` by a clock rate, in nanoseconds.
unfoldable pub duration_of : ℕ → ℕ → ℤ
duration_of diff rate =
    if ltb diff 2147483648
    then pos (diff * 1000000000 / rate)
    else sub_ℕ 0 ((4294967296 - diff) * 1000000000 / rate)

-- `packetNTPUnsafe` and `PacketNTP`; the outer none is the panic on a clock rate of 0.
unfoldable pub packet_ntp : {T J : Type 0} → ℕ → RtcpReceiver T J → ℕ → Option (Option ℤ)
unfolding ntp_time_rtcp_to_go duration_of
packet_ntp rate r ts =
    if not r.first_sender_report_received
    then some none
    else if rate == 0
    then none
    else some (
        some (
          ntp_time_rtcp_to_go r.last_sender_report_time_ntp
          +ℤ duration_of (sub32 ts r.last_sender_report_time_rtp) rate))

pub record ReceiverStats (J : Type 0) : Type 0 where
  pub remote_ssrc : ℕ
  pub last_sequence_number : ℕ
  pub last_rtp : ℕ
  pub last_ntp : Option ℤ  -- none is the zero time
  pub jitter : J

-- `Stats`; the inner none is nil.
unfoldable pub receiver_stats :
    {T J : Type 0} → ℕ → RtcpReceiver T J → Option (Option (ReceiverStats J))
unfolding packet_ntp
receiver_stats rate r =
    if not r.first_rtp_packet_received
    then some none
    else elim (packet_ntp rate r r.last_time_rtp) [
      | none ↦ none
      | some ntp ↦ some (
          some (record {
            remote_ssrc = r.remote_ssrc;
            last_sequence_number = r.last_sequence_number;
            last_rtp = r.last_time_rtp;
            last_ntp = ntp;
            jitter = r.jitter;
          }))
    ]
