-- ===== src/Client.antt =====
-- client.go: a client of a RTSP server, its state and its data. `none` is a panic.
-- A URL is what the client reads of it: its scheme, whether it has credentials, and a number for all
-- of it, which two URLs share if they are equal. A media is named by a number, for its pointer.
pub mod Exchange
pub mod Media
pub mod Routines
pub mod Describe
pub mod Setup
pub mod Methods
pub mod Loop
pub mod LinkValid
pub mod MediaApart
pub mod Valid
pub mod ResetValid
pub mod DescribeValid
pub mod SetupAnswer
pub mod SetupValid
pub mod MethodsValid
pub mod LiveValid
pub mod PlayValid
pub mod PauseValid
pub mod Plays
pub mod CheckValid
pub mod LoopValid
pub mod Reachable
pub mod Outcomes
mod Runs
use gortsplib.Common.{
  ℕ, ◌+◌, Bool, true, false, ◌==◌, ◌&&◌, ◌||◌, Option, none, some, List, [], ◌∷◌,
}
use gortsplib.Session.{Transport, Writer, writer_nil}

pub data ClientState : Type 0 where
  client_initial : ClientState
  client_pre_play : ClientState
  client_play : ClientState
  client_pre_record : ClientState
  client_record : ClientState

abbrev pub same_client_state : ClientState → ClientState → Bool
same_client_state client_initial client_initial = true
same_client_state client_pre_play client_pre_play = true
same_client_state client_play client_play = true
same_client_state client_pre_record client_pre_record = true
same_client_state client_record client_record = true
same_client_state _ _ = false

-- `checkState`
unfoldable pub check_client_state : List ClientState → ClientState → Bool
check_client_state [] s = false
check_client_state (a ∷ more) s = same_client_state a s || check_client_state more s

pub data Scheme : Type 0 where
  scheme_rtsp : Scheme
  scheme_rtsps : Scheme
  scheme_other : Scheme

pub record Url : Type 0 where
  pub identity : ℕ
  pub scheme : Scheme
  pub has_user : Bool

pub data Method : Type 0 where
  options : Method
  describe : Method
  announce : Method
  setup : Method
  play : Method
  record_stream : Method
  pause : Method
  teardown : Method
  get_parameter : Method

-- `pkg/liberrors` as far as the client returns them, and the errors of the network.
pub data ClientError : Type 0 where
  invalid_state : ClientError
  unsupported_scheme : ClientError
  rtsps_tcp : ClientError
  dial_failed : ClientError
  write_error : ClientError
  no_response : ClientError
  session_header_invalid : ClientError
  auth_setup : ClientError
  bad_status_code : ℕ → ClientError
  invalid_url : ClientError
  content_type_missing : ClientError
  content_type_unsupported : ClientError
  sdp_invalid : ClientError
  base_url_invalid : ClientError
  cannot_setup_medias_different_urls : ClientError
  udp_ports_zero : ClientError
  udp_ports_not_consecutive : ClientError
  listen_failed : ClientError
  transport_header_invalid : ClientError
  server_requested_tcp : ClientError
  server_requested_udp : ClientError
  invalid_delivery : ClientError
  server_ports_not_provided : ClientError
  no_ports : ClientError
  no_destination : ClientError
  no_interleaved_ids : ClientError
  invalid_interleaved_ids : ClientError
  interleaved_ids_in_use : ClientError
  udp_timeout : ClientError
  tcp_timeout : ClientError
  writer_error : ClientError
  reader_error : ClientError
  unhandled_method : ClientError
  client_terminated : ClientError

-- The header Session of a response: not there, invalid, or a session with its timeout in seconds.
pub data SessionHeader : Type 0 where
  session_absent : SessionHeader
  session_invalid : SessionHeader
  session_given : List ℕ → Option ℕ → SessionHeader

-- The header Transport of a response to SETUP, the fields that the client reads.
pub record TransportAnswer : Type 0 where
  pub is_tcp : Bool
  pub is_unicast : Option Bool  -- Delivery
  pub server_ports : Option (ℕ × ℕ)
  pub ports : Option (ℕ × ℕ)
  pub has_destination : Bool
  pub interleaved_ids : Option (ℕ × ℕ)

-- The body of a response to DESCRIBE, as far as it is read; the base URL is that of the request
-- (none), or another one, or one that cannot be parsed.
pub data Description : Type 0 where
  content_missing : Description
  content_unsupported : Description
  sdp_bad : Description
  described : Option (Option Url) → Description

-- A response, with its headers parsed.
pub record Answer : Type 0 where
  pub status : ℕ
  pub session_header : SessionHeader
  pub authenticable : Bool  -- `auth.NewSender` accepts WWW-Authenticate
  pub public_get_parameter : Bool  -- `supportsGetParameter`
  pub transport : Option TransportAnswer  -- none: `Unmarshal` fails
  pub location : Option (Option Url)  -- Location, if it is given once; and its URL, if it is one
  pub description : Description

-- What comes of a request on the network: it cannot be written, no response to it comes (and the
-- reader may have ended), or a response.
pub data Outcome : Type 0 where
  write_failed : Outcome
  no_answer : Bool → Outcome
  answered : Answer → Outcome

-- What the client takes from the network and the system, each by the number of requests sent before.
pub record Net : Type 0 where
  pub dials : ℕ → Bool
  pub outcome : ℕ → Outcome
  pub listens : ℕ → Bool
  pub media_url : ℕ → Url → Option Url

pub record Config : Type 0 where
  pub transport : Option Transport
  pub any_port_enable : Bool
  pub write_queue_size : ℕ

-- The `clientReader`: nil, or there, with `allowInterleavedFrames`.
pub data Reader : Type 0 where
  reader_nil : Reader
  reader_on : Bool → Reader

-- The fields of the client that `do` changes; `sent` counts all requests.
pub record Link : Type 0 where
  pub nconn : Bool  -- not nil
  pub reader : Reader
  pub session : List ℕ
  pub sender : Bool  -- not nil
  pub cseq : ℕ
  pub options_sent : Bool
  pub use_get_parameter : Bool
  pub keepalive_period : ℕ  -- an int64 of nanoseconds, in two's complement
  pub must_close : Bool
  pub sent : ℕ

pub record ClientMedia : Type 0 where
  pub media : ℕ
  pub tcp_channel : ℕ

pub record Client : Type 0 where
  pub link : Link
  pub conn_url : Url
  pub state : ClientState
  pub last_describe_url : Option Url
  pub base_url : Option Url
  pub effective_transport : Option Transport
  pub back_channel_setupped : Bool
  pub std_channel_setupped : Bool
  pub setupped_medias : List ClientMedia
  pub medias_started : Bool  -- `start` or `stop` was called on the medias last
  pub last_range : ℕ
  pub check_timeout_timer : Bool  -- false for `emptyTimer()`
  pub check_timeout_initial : Bool
  pub keepalive_timer : Bool
  pub tcp_last_frame_time : ℕ
  pub writer : Writer
  pub time_decoder : Bool  -- false for nil

abbrev pub is_reader : Reader → Bool
is_reader reader_nil = false
is_reader (reader_on b) = true

abbrev pub allow_frames : Bool → Reader → Reader
allow_frames b reader_nil = reader_nil
allow_frames b (reader_on a) = reader_on b

-- What a method of the client returns; a response and its error are never both of use.
pub data Reply : Type 0 where
  reply : Answer → Reply
  nothing : Reply
  failed : ClientError → Reply
  unfinished : Reply  -- the bound on redirects and switches of transport was reached
