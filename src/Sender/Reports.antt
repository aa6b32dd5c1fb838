-- ===== src/Sender/Reports.antt =====
-- What the reports of a sender say, and what a receiver makes of them.
use gortsplib.Common.{
  ℕ, ◌+◌, ◌*◌, ◌/◌, ◌<◌, ◌≤◌, ◌≡◌, refl, sym, ap, ap₂, ◌∙◌, subst, Bool, true, ◌==◌, some, List, [],
  ◌∷◌, ◌++◌, length, arith,
}
use gortsplib.Common.Cases.{if_case}
use gortsplib.Common.Int.{ℤ, pos, negsuc, ◌+ℤ◌, pos_part, neg_part}
use gortsplib.Common.Words.{u32, add32, sub32}
use gortsplib.Rtp.{Packet}
use gortsplib.Receiver.{Clock, RtcpReceiver, process_sender_report}
use gortsplib.Receiver.Ntp.{ntp_time_rtcp_to_go, duration_of, packet_ntp}
use gortsplib.Sender.{RtcpSender, SenderReport, ntp_time_go_to_rtcp, process_sent, sender_report}

-- A time from 1900 to 2036, which is what the 32 bits of seconds of NTP can hold.
abbrev pub InNtpEra : ℤ → Type 0
InNtpEra v = (neg_part v ≤ 2208988800000000000) × (pos_part v < 2085978496000000000)

-- A time of the era of NTP, from 1900 to 2036, comes back from the format of the code, which has the
-- seconds in the upper 32 bits and the nanoseconds, not the fraction of NTP, in the lower.
pub ntp_time_rtcp_to_go-ntp_time_go_to_rtcp :
    (v : ℤ) → InNtpEra v → ntp_time_rtcp_to_go (ntp_time_go_to_rtcp v) ≡ v
unfolding ntp_time_rtcp_to_go ntp_time_go_to_rtcp
ntp_time_rtcp_to_go-ntp_time_go_to_rtcp (pos n) (a, b) = ground arith
ntp_time_rtcp_to_go-ntp_time_go_to_rtcp (negsuc n) (a, b) = ground arith

-- A packet that is sent, with the arguments of `ProcessPacketRTP` and the time.
pub record Sent (T : Type 0) : Type 0 where
  pub pkt : Packet
  pub ntp : ℤ
  pub pts_equals_dts : Bool
  pub system : T

unfoldable pub send_all : {T : Type 0} → RtcpSender T → List (Sent T) → RtcpSender T
send_all s [] = s
send_all s (e ∷ es) = send_all (process_sent s e.pkt e.ntp e.pts_equals_dts e.system) es

abbrev pub octets : {T : Type 0} → List (Sent T) → ℕ
octets [] = 0
octets (e ∷ es) = length e.pkt.payload + octets es

process_sent-counts :
    {T : Type 0} (s : RtcpSender T) (e : Sent T)
    → ((process_sent s e.pkt e.ntp e.pts_equals_dts e.system).packet_count
        ≡ u32 (s.packet_count + 1))
      × ((process_sent s e.pkt e.ntp e.pts_equals_dts e.system).octet_count
          ≡ u32 (s.octet_count + length e.pkt.payload))
unfolding process_sent
process_sent-counts s e = (refl, omega arith)

-- The counters wrap around at 2^32.
pub send_all-counts :
    {T : Type 0} (s : RtcpSender T) (es : List (Sent T))
    → (u32 (send_all s es).packet_count ≡ u32 (s.packet_count + length es))
      × (u32 (send_all s es).octet_count ≡ u32 (s.octet_count + octets es))
unfolding send_all
send_all-counts s [] = (omega arith, omega arith)
send_all-counts s (e ∷ es) =
    let (p, o) = process_sent-counts s e in
    let (ps, os) = send_all-counts (process_sent s e.pkt e.ntp e.pts_equals_dts e.system) es in
    (omega (arith, p, ps), omega (arith, o, os))

send_all-append :
    {T : Type 0} (s : RtcpSender T) (es : List (Sent T)) (e : Sent T)
    → send_all s (es ++ (e ∷ []))
      ≡ process_sent (send_all s es) e.pkt e.ntp e.pts_equals_dts e.system
unfolding send_all
send_all-append s [] e = refl
send_all-append s (x ∷ xs) e =
    send_all-append (process_sent s x.pkt x.ntp x.pts_equals_dts x.system) xs e

zero_rate : (n : ℕ) → (n == 0) ≡ true → n ≡ 0
zero_rate n h = ground (arith, h)

module _ {T : Type 0} (since : T → T → ℤ) (ticks : ℤ → ℕ → ℕ) where
  -- After any packets and one whose times are equal, the report has the source of that packet, and
  -- the numbers of all packets and of their bytes, modulo 2^32.
  pub sender_report-send_all :
      (s : RtcpSender T) (es : List (Sent T)) (e : Sent T) (now : T)
      → e.pts_equals_dts ≡ true
      → (rep : SenderReport) × (sender_report since ticks (send_all s (es ++ (e ∷ []))) now
          ≡ some rep)
        × (rep.report_ssrc ≡ e.pkt.ssrc)
        × (rep.report_packets ≡ u32 (s.packet_count + (length es + 1)))
        × (rep.report_octets ≡ u32 (s.octet_count + (octets es + length e.pkt.payload)))
  unfolding sender_report process_sent
  sender_report-send_all s es e now h =
      let s' = send_all s es in
      let (p, o) = send_all-counts s es in
      subst
        (λ (x : RtcpSender T).
          (rep : SenderReport) × (sender_report since ticks x now ≡ some rep)
          × (rep.report_ssrc ≡ e.pkt.ssrc)
          × (rep.report_packets ≡ u32 (s.packet_count + (length es + 1)))
          × (rep.report_octets ≡ u32 (s.octet_count + (octets es + length e.pkt.payload))))
        (sym (send_all-append s es e))
        (subst
          (λ b.
            (rep : SenderReport) × (sender_report since ticks
                (process_sent s' e.pkt e.ntp b e.system) now
              ≡ some rep)
            × (rep.report_ssrc ≡ e.pkt.ssrc)
            × (rep.report_packets ≡ u32 (s.packet_count + (length es + 1)))
            × (rep.report_octets ≡ u32 (s.octet_count + (octets es + length e.pkt.payload))))
          (sym h) (_, refl, refl, omega (arith, p), omega (arith, o)))

  reported :
      (s : RtcpSender T) (now : T) (rep : SenderReport)
      → sender_report since ticks s now ≡ some rep
      → (rep.ntp_time ≡ ntp_time_go_to_rtcp (s.last_time_ntp +ℤ since now s.last_time_system))
        × (rep.rtp_time < 4294967296)
  unfolding sender_report
  reported s now rep e = (ground (arith, e), ground (arith, e))

  later :
      (x k rate : ℕ)
      → x < 4294967296
      → k < 2147483648
      → duration_of (sub32 (add32 x k) x) rate ≡ pos (k * 1000000000 / rate)
  unfolding duration_of
  later x k rate hx hk = ap (λ d. duration_of d rate) (difference x k hx hk) ∙ ground (arith, hk)
    where
      difference : (x k : ℕ) → x < 4294967296 → k < 2147483648 → sub32 (add32 x k) x ≡ k
      difference x k hx hk = omega arith

  -- A receiver that gets the report of a sender gives for a packet `k` ticks after the report, less
  -- than 2^31, the time that the sender had then: that of the report and `k` ticks of the clock. The
  -- time of the report is in the era of NTP, from 1900 to 2036.
  pub packet_ntp-sender_report :
      {J : Type 0} (s : RtcpSender T) (now : T) (rep : SenderReport) (r : RtcpReceiver T J)
      (clock : Clock T J) (arrival : T) (rate k : ℕ)
      → sender_report since ticks s now ≡ some rep
      → InNtpEra (s.last_time_ntp +ℤ since now s.last_time_system)
      → 0 < rate
      → k < 2147483648
      → packet_ntp rate
          (process_sender_report clock r rep.ntp_time rep.rtp_time arrival)
          (add32 rep.rtp_time k)
        ≡ some (
            some ((s.last_time_ntp +ℤ since now s.last_time_system) +ℤ pos (k * 1000000000 / rate)))
  unfolding sender_report packet_ntp process_sender_report
  packet_ntp-sender_report s now rep r clock arrival rate k e era h hk =
      let (n, x) = reported s now rep e in
      if_case
        (λ o.
          o
          ≡ some (
              some
                ((s.last_time_ntp +ℤ since now s.last_time_system) +ℤ pos (k * 1000000000 / rate))))
        (rate == 0) (λ z. absurd (omega (arith, h, zero_rate rate z)))
        (λ z.
          ap (λ w. some (some w))
            (ap₂ (λ a b. a +ℤ b)
              (ap ntp_time_rtcp_to_go n ∙ ntp_time_rtcp_to_go-ntp_time_go_to_rtcp _ era)
              (later rep.rtp_time k rate x hk)))
