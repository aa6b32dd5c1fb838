-- ===== src/Session.antt =====
-- server_session.go: the server side of an RTSP session, its state and its data.
-- The strings that the code only compares are lists of bytes. A media is named by a number, which
-- stands for its pointer; the map `setuppedMedias` and the slice `setuppedMediasOrdered` hold the
-- same medias, so one list stands for both.
pub mod Channels
pub mod Requests
pub mod Setup
pub mod Methods
pub mod Handle
pub mod Valid
pub mod SetupAdds
pub mod SetupValid
pub mod PauseValid
pub mod PlayValid
pub mod RecordValid
pub mod Answered
pub mod Loop
pub mod LoopValid
mod Runs
use gortsplib.Common.{
  ℕ, ◌+◌, Bool, true, false, ◌==◌, ◌&&◌, ◌||◌, Option, none, some, List, [], ◌∷◌,
}

pub data State : Type 0 where
  state_initial : State
  state_pre_play : State
  state_play : State
  state_pre_record : State
  state_record : State

pub data Transport : Type 0 where
  transport_udp : Transport
  transport_udp_multicast : Transport
  transport_tcp : Transport

-- `pkg/liberrors` as far as the session returns them, the errors of the handlers, and the
-- `switchReadFuncError` that tells the connection to read frames (true) or requests (false).
pub data Error : Type 0 where
  linked_to_other_conn : Error
  invalid_state : Error
  content_type_missing : Error
  content_type_unsupported : Error
  sdp_invalid : Error
  transport_header_invalid : Error
  invalid_setup_path : Error
  medias_different_paths : Error
  medias_different_protocols : Error
  no_client_ports : Error
  invalid_interleaved_ids : Error
  interleaved_ids_in_use : Error
  invalid_mode : Error
  media_not_found : Error
  media_already_setup : Error
  reader_refused : Error
  path_has_changed : Error
  not_all_announced_medias_setup : Error
  handler_error : Error
  switch_read_func : Bool → Error

pub record Response : Type 0 where
  pub status : ℕ
  pub error : Option Error

abbrev pub status_ok : ℕ
status_ok = 200

abbrev pub status_bad_request : ℕ
status_bad_request = 400

abbrev pub status_unsupported_transport : ℕ
status_unsupported_transport = 461

abbrev pub status_not_implemented : ℕ
status_not_implemented = 501

-- The `asyncProcessor` of the session: nil, made with a buffer size, or started.
pub data Writer : Type 0 where
  writer_nil : Writer
  writer_idle : ℕ → Writer
  writer_running : ℕ → Writer

-- A function of `tcpCallbackByChannel`, by what it reads and in which state.
pub data ReadFunc : Type 0 where
  read_rtp_play : ReadFunc
  read_rtcp_play : ReadFunc
  read_rtp_record : ReadFunc
  read_rtcp_record : ReadFunc

pub record SessionMedia : Type 0 where
  pub media : ℕ
  pub tcp_channel : ℕ
  pub udp_rtp_read_port : ℕ
  pub udp_rtcp_read_port : ℕ

-- A `*ServerStream`: its medias, in the order of their track IDs, and whether `readerAdd` accepts the
-- session; which medias have a format, and whether they have their multicast writers where the session
-- reads with multicast, both when SETUP answers.
pub record Stream : Type 0 where
  pub stream_medias : List ℕ
  pub accepts_reader : Bool
  pub has_formats : ℕ → Bool
  pub has_multicast_writers : Bool

pub record ServerSession : Type 0 where
  pub conns : List ℕ
  pub state : State
  pub setupped_medias : List SessionMedia
  pub medias_started : Bool  -- `start` or `stop` was called on the medias last
  pub tcp_callbacks : List (ℕ × ReadFunc)
  pub setupped_transport : Option Transport
  pub setupped_stream : Option Stream
  pub reader_active : Bool  -- `readerSetActive` or `readerSetInactive` was called last
  pub setupped_path : List ℕ
  pub setupped_query : List ℕ
  pub last_request_time : ℕ
  pub tcp_conn : Option ℕ
  pub announced_desc : Option (List ℕ)
  pub udp_last_packet_time : ℕ
  pub udp_check_stream_timer : Bool  -- false for `emptyTimer()`
  pub writer : Writer
  pub time_decoder : Bool  -- false for nil

-- What a session takes from its server: `s.udpRTPListener != nil`, `s.MulticastIPRange != ""`, the
-- durations in seconds, and which optional handlers there are.
pub record Server : Type 0 where
  pub has_udp_listener : Bool
  pub has_multicast_range : Bool
  pub write_queue_size : ℕ
  pub session_timeout : ℕ
  pub read_timeout : ℕ

abbrev pub same_state : State → State → Bool
same_state state_initial state_initial = true
same_state state_pre_play state_pre_play = true
same_state state_play state_play = true
same_state state_pre_record state_pre_record = true
same_state state_record state_record = true
same_state _ _ = false

abbrev pub same_transport : Transport → Transport → Bool
same_transport transport_udp transport_udp = true
same_transport transport_udp_multicast transport_udp_multicast = true
same_transport transport_tcp transport_tcp = true
same_transport _ _ = false

abbrev pub same_bytes : List ℕ → List ℕ → Bool
same_bytes [] [] = true
same_bytes (a ∷ s) (b ∷ t) = a == b && same_bytes s t
same_bytes _ _ = false

abbrev pub has_media : List ℕ → ℕ → Bool
has_media [] m = false
has_media (x ∷ xs) m = x == m || has_media xs m

-- `checkState`
unfoldable pub check_state : List State → ServerSession → Bool
check_state [] s = false
check_state (a ∷ more) s = same_state a s.state || check_state more s

abbrev pub bad_request : Error → Response
bad_request e = record { status = status_bad_request; error = some e }

-- What `initialize` makes.
abbrev pub new_session : ℕ → ServerSession
new_session now = record {
  conns = [];
  state = state_initial;
  setupped_medias = [];
  medias_started = false;
  tcp_callbacks = [];
  setupped_transport = none;
  setupped_stream = none;
  reader_active = false;
  setupped_path = [];
  setupped_query = [];
  last_request_time = now;
  tcp_conn = none;
  announced_desc = none;
  udp_last_packet_time = 0;
  udp_check_stream_timer = false;
  writer = writer_nil;
  time_decoder = false;
}
