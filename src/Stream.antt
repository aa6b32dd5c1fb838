-- ===== src/Stream.antt =====
-- server_stream.go, server_stream_media.go and server_stream_format.go: a stream of a server, which
-- sends the packets of its medias to the sessions that read it. `none` is a panic.
-- A session is a number, for its pointer. What the stream reads of it does not change while it is a
-- reader, but for its medias, which a call gets as an argument: `transport_of` is setuppedTransport,
-- and `author_of` a number for the IP and the zone of its author.
pub mod Readers
pub mod Writes
pub mod Sets
pub mod Writers
pub mod Safe
pub mod WriteSafe
pub mod Steps
mod Runs
use gortsplib.Common.{
  ℕ, ◌+◌, Bool, true, false, not, ◌==◌, ◌&&◌, ◌||◌, ltb, if◌then◌else◌, Option, none, some, List,
  [], ◌∷◌, length,
}
use gortsplib.Common.Int.{ℤ, pos, negsuc, ◌+ℤ◌, ◌-ℤ◌}
use gortsplib.Session.{Transport}
use gortsplib.Sender.{RtcpSender}

-- `serverStreamFormat`
pub record StreamFormat (T : Type 0) : Type 0 where
  pub payload_type : ℕ
  pub rtcp_sender : RtcpSender T
  pub rtp_packets_sent : ℕ  -- uint64

-- `serverStreamMedia`. Of the `serverMulticastWriter` there are the authors whose RTCP packets its
-- listener takes.
pub record StreamMedia (T : Type 0) : Type 0 where
  pub media : ℕ
  pub formats : List (StreamFormat T)
  pub multicast_writer : Option (List ℕ)
  pub bytes_sent : ℕ  -- uint64
  pub rtcp_packets_sent : ℕ  -- uint64

pub record ServerStream (T : Type 0) : Type 0 where
  pub readers : List ℕ
  pub multicast_reader_count : ℤ
  pub active_unicast_readers : List ℕ
  pub medias : List (StreamMedia T)
  pub closed : Bool

pub data StreamError : Type 0 where
  stream_closed : StreamError
  marshal_failed : StreamError
  udp_ports_already_in_use : ℕ → StreamError
  multicast_failed : StreamError
  write_queue_full : StreamError

-- The sets of sessions and of authors.
abbrev pub is_in : ℕ → List ℕ → Bool
is_in k [] = false
is_in k (x ∷ xs) = x == k || is_in k xs

unfoldable pub delete : ℕ → List ℕ → List ℕ
delete k [] = []
delete k (x ∷ xs) = if x == k then delete k xs else x ∷ delete k xs

unfoldable pub insert : ℕ → List ℕ → List ℕ
insert k xs = if is_in k xs then xs else k ∷ xs

abbrev pub is_zero : ℤ → Bool
is_zero (pos n) = n == 0
is_zero (negsuc n) = false
