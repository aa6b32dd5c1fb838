-- ===== src/Stream/Writes.antt =====
-- `WritePacketRTPWithNTP`, `WritePacketRTCP`, `BytesSent` and `localSSRC`.
use gortsplib.Common.{
  ℕ, ◌+◌, ◌*◌, Bool, true, false, ◌==◌, ◌&&◌, ltb, if◌then◌else◌, Option, none, some, List, [], ◌∷◌,
  length,
}
use gortsplib.Common.Int.{ℤ}
use gortsplib.Common.Words.{u64}
use gortsplib.Rtp.{Packet}
use gortsplib.Sender.{process_sent, sender_stats}
use gortsplib.Stream.{
  StreamFormat, StreamMedia, ServerStream, stream_closed, marshal_failed, write_queue_full,
}
use gortsplib.Stream.Readers.{Called}

-- What the readers do with a packet: a session has the media, its queue takes the packet; the queue
-- of the multicast writer takes it.
pub record Takers : Type 0 where
  pub has_media : ℕ → Bool
  pub takes : ℕ → Bool
  pub multicast_takes : Bool

-- The number of active readers that get a packet.
unfoldable pub sent_to : Takers → List ℕ → ℕ
sent_to t [] = 0
sent_to t (k ∷ ks) = (if t.has_media k && t.takes k then 1 else 0) + sent_to t ks

module _ {T : Type 0} where
  -- How many copies of a packet a media sends, and whether the multicast writer fails.
  unfoldable pub copies : Takers → List ℕ → StreamMedia T → ℕ × Bool
  unfolding sent_to
  copies t active m = elim m.multicast_writer [
    | none ↦ (sent_to t active, false)
    | some w ↦ if t.multicast_takes then (sent_to t active + 1, false) else (sent_to t active, true)
  ]

  -- `serverStreamMedia.writePacketRTCP` of `le` bytes.
  unfoldable pub media_write_rtcp : Takers → List ℕ → ℕ → StreamMedia T → Bool × StreamMedia T
  unfolding copies
  media_write_rtcp t active le m =
      let (n, full) = copies t active m in
      (
        full,
        record m {
          bytes_sent = u64 (m.bytes_sent + n * le);
          rtcp_packets_sent = u64 (m.rtcp_packets_sent + n);
        },
      )

  -- `serverStreamFormat.writePacketRTP` in the format with the payload type; without one it panics.
  unfoldable pub format_write_rtp :
      ℕ → Packet → ℤ → Bool → T → List (StreamFormat T) → Option (List (StreamFormat T))
  unfolding process_sent
  format_write_rtp n pkt ntp same now [] = none
  format_write_rtp n pkt ntp same now (f ∷ fs) =
      let rest = format_write_rtp n pkt ntp same now fs in
      if f.payload_type == pkt.payload_type
      then some (
          record f {
            rtcp_sender = process_sent f.rtcp_sender pkt ntp same now;
            rtp_packets_sent = u64 (f.rtp_packets_sent + n);
          }
          ∷ fs)
      else elim rest [ none ↦ none | some fs' ↦ some (f ∷ fs') ]

  unfoldable pub media_write_rtp :
      Takers → List ℕ → ℕ → Packet → ℤ → Bool → T → StreamMedia T → Option (Bool × StreamMedia T)
  unfolding copies format_write_rtp
  media_write_rtp t active le pkt ntp same now m =
      let (n, full) = copies t active m in
      elim (format_write_rtp n pkt ntp same now m.formats) [
        | none ↦ none
        | some fs ↦ some (full, record m { formats = fs; bytes_sent = u64 (m.bytes_sent + n * le) })
      ]

  -- An operation on the media `i` of the stream; without it the code panics.
  unfoldable pub on_media :
      ℕ
      → (StreamMedia T → Option (Bool × StreamMedia T))
      → List (StreamMedia T)
      → Option (Bool × List (StreamMedia T))
  on_media i f [] = none
  on_media i f (m ∷ ms) =
      let rest = on_media i f ms in
      if m.media == i
      then elim (f m) [ none ↦ none | some (full, m') ↦ some (full, m' ∷ ms) ]
      else elim rest [ none ↦ none | some (full, ms') ↦ some (full, m ∷ ms') ]

  abbrev pub written : ServerStream T → Option (Bool × List (StreamMedia T)) → Called T
  written st o = elim o [
    | none ↦ none
    | some (full, ms) ↦
        some (if full then some write_queue_full else none, record st { medias = ms })
  ]

  -- `WritePacketRTPWithNTP` of a packet that `MarshalTo` makes `le` bytes long; without a length it
  -- fails, which is seen before the stream is looked at.
  unfoldable pub write_packet_rtp :
      Takers → ℕ → Option ℕ → Packet → ℤ → Bool → T → ServerStream T → Called T
  unfolding on_media media_write_rtp
  write_packet_rtp t i none pkt ntp same now st = some (some marshal_failed, st)
  write_packet_rtp t i (some le) pkt ntp same now st =
      if st.closed
      then some (some stream_closed, st)
      else written st
          (on_media i (media_write_rtp t st.active_unicast_readers le pkt ntp same now) st.medias)

  -- `WritePacketRTCP`, in the same way.
  unfoldable pub write_packet_rtcp : Takers → ℕ → Option ℕ → ServerStream T → Called T
  unfolding on_media media_write_rtcp
  write_packet_rtcp t i none st = some (some marshal_failed, st)
  write_packet_rtcp t i (some le) st =
      if st.closed
      then some (some stream_closed, st)
      else written st
          (on_media i (λ m. some (media_write_rtcp t st.active_unicast_readers le m)) st.medias)

  -- `BytesSent`
  unfoldable pub bytes_sent_by : List (StreamMedia T) → ℕ
  bytes_sent_by [] = 0
  bytes_sent_by (m ∷ ms) = u64 (m.bytes_sent + bytes_sent_by ms)

  -- `localSSRC` of a media of the stream; `firstFormat` of no formats is nil, which panics.
  unfoldable pub local_ssrc : StreamMedia T → Option (Option ℕ)
  unfolding sender_stats
  local_ssrc m = if ltb 1 (length m.formats) then some none else elim m.formats [
    | [] ↦ none
    | f ∷ fs ↦ elim (sender_stats f.rtcp_sender) [
      | none ↦ some none
      | some s ↦ some (some s.stats_ssrc)
    ]
  ]
