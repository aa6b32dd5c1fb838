-- ===== src/H264/EncodeSent.antt =====
-- The packets of a whole access unit: their numbers, markers and sizes.
use gortsplib.Common.{◌≡◌, true, some, List, ◌++◌}
use gortsplib.Rtp.{Packet}
use gortsplib.H264.Types.{Nalu}
use gortsplib.H264.Encoder.{Encoder, encode_loop}
use gortsplib.H264.Sequence.{Sent}

-- What the loop of `Encode` adds to the packets it was given.
record Continues (e : Encoder) (batch au : List Nalu) (rets : List Packet) : Type 0 where
  pkts : List Packet
  after : Encoder
  result_is : encode_loop e batch rets au ≡ some (rets ++ pkts, after)
  sent : Sent e.payload_max_size e.sequence_number pkts true after.sequence_number
