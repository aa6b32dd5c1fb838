-- ===== src/Mpeg4Video.antt =====
-- pkg/format/rtpmpeg4video: MPEG-4 video over RTP. `none` is a panic.
pub mod RoundTrip
mod Runs
use gortsplib.Common.{
  ℕ, zero, suc, ◌+◌, ◌-◌, ◌/◌, ◌%◌, Bool, true, false, not, ◌==◌, ltb, if◌then◌else◌, Option, none,
  some, List, [], ◌∷◌, ◌++◌, length, take, drop, replicate,
}
use gortsplib.Common.Words.{add16}
use gortsplib.Rtp.{Packet}

-- After `Init`, which draws the fields that are nil.
pub record VideoEncoder : Type 0 where
  pub payload_type : ℕ  -- uint8
  pub ssrc : ℕ  -- uint32
  pub payload_max_size : ℕ
  pub sequence_number : ℕ  -- uint16

unfoldable pub video_packet_count : ℕ → ℕ → ℕ
video_packet_count avail le = if le % avail == 0 then le / avail else le / avail + 1

abbrev pub video_packet : VideoEncoder → Bool → List ℕ → Packet
video_packet e marker payload = record {
  version = 2;
  payload_type = e.payload_type;
  sequence_number = e.sequence_number;
  timestamp = 0;
  ssrc = e.ssrc;
  marker = marker;
  payload = payload;
}

-- The loop of `Encode` over the packets, on what is left of the frame. A slice that goes past the
-- end of the frame panics (the capacity of the frame is taken to be its length).
unfoldable pub split_frame : ℕ → VideoEncoder → List ℕ → Option (List Packet × VideoEncoder)
split_frame zero e rest = some ([], e)
split_frame (suc k) e rest =
    let next = record e { sequence_number = add16 e.sequence_number 1 } in
    let more = split_frame k next (drop e.payload_max_size rest) in
    if k == 0
    then some (video_packet e true rest ∷ [], next)
    else if ltb (length rest) e.payload_max_size
    then none
    else elim more [
      | none ↦ none
      | some (ps, e') ↦ some (video_packet e false (take e.payload_max_size rest) ∷ ps, e')
    ]

-- `Encode`
unfoldable pub encode_frame : VideoEncoder → List ℕ → Option (List Packet × VideoEncoder)
unfolding video_packet_count split_frame
encode_frame e frame =
    if e.payload_max_size == 0
    then none
    else split_frame (video_packet_count e.payload_max_size (length frame)) e frame

pub record VideoDecoder : Type 0 where
  pub fragments : List (List ℕ)
  pub fragments_size : ℕ
  pub fragment_next_seq_num : ℕ  -- uint16

pub data VideoError : Type 0 where
  more_packets_needed : VideoError
  packet_missing : VideoError
  frame_too_big : VideoError

-- `joinFragments`: copies into a slice of the size, as far as it reaches.
unfoldable pub join_parts : List (List ℕ) → ℕ → List ℕ
join_parts [] size = replicate size 0
join_parts (p ∷ ps) size = take size p ++ join_parts ps (size - length p)

unfoldable pub reset_parts : VideoDecoder → VideoDecoder
reset_parts d = record d { fragments = []; fragments_size = 0 }

-- `Decode`; `most` is MaxFrameSize of github.com/bluenviron/mediacommon. The frame, or an error.
unfoldable pub decode_frame :
    ℕ → VideoDecoder → Packet → (Option VideoError × List ℕ) × VideoDecoder
unfolding join_parts reset_parts
decode_frame most d pkt =
    if d.fragments_size == 0
    then (if pkt.marker then ((none, pkt.payload), d) else (
      (some more_packets_needed, []),
      record {
        fragments = d.fragments ++ (pkt.payload ∷ []);
        fragments_size = length pkt.payload;
        fragment_next_seq_num = add16 pkt.sequence_number 1;
      },
    ))
    else if not (pkt.sequence_number == d.fragment_next_seq_num)
    then ((some packet_missing, []), reset_parts d)
    else let size = d.fragments_size + length pkt.payload in
      let longer : VideoDecoder = record {
        fragments = d.fragments ++ (pkt.payload ∷ []);
        fragments_size = size;
        fragment_next_seq_num = add16 d.fragment_next_seq_num 1;
      } in
      if ltb most size
      then ((some frame_too_big, []), reset_parts (record d { fragments_size = size }))
      else if not pkt.marker
      then ((some more_packets_needed, []), longer)
      else ((none, join_parts longer.fragments size), reset_parts longer)
