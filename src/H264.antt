-- ===== src/H264.antt =====
-- pkg/format/rtph264: H264 access units in RTP packets (RFC 6184), and back.
pub mod Types
pub mod Encoder
pub mod Decoder
pub mod Feed
pub mod Packets
pub mod Fragments
pub mod FragmentRun
pub mod RoundTrip
pub mod Delivery
pub mod Sequence
pub mod EncodeSent
pub mod Bounds
pub mod AnyPacket
mod Runs
