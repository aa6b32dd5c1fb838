-- ===== src/Rtp.antt =====
-- The RTP packet of github.com/pion/rtp as the fields that gortsplib reads and writes. The library
-- itself is not modelled: a packet is data here, and it is never marshalled.
use gortsplib.Common.{ℕ, Bool, List}

pub record Packet : Type 0 where
  pub version : ℕ
  pub payload_type : ℕ
  pub sequence_number : ℕ  -- uint16
  pub timestamp : ℕ  -- uint32
  pub ssrc : ℕ  -- uint32
  pub marker : Bool
  pub payload : List ℕ
