-- ===== src/Session/Requests.antt =====
-- The requests of a session as `handleRequestInner` reads them: the header and the URL are parsed
-- already, and a handler is what it returns. `none` for a handler says that the server has none.
use gortsplib.Common.{ℕ, Bool, Option, List}
use gortsplib.Session.{Response, Stream}

pub data Protocol : Type 0 where
  protocol_udp : Protocol
  protocol_tcp : Protocol

pub data Mode : Type 0 where
  mode_play : Mode
  mode_record : Mode

-- `headers.Transport`, the fields that a SETUP reads; `is_multicast` is the test on `Delivery`.
pub record TransportHeader : Type 0 where
  pub protocol : Protocol
  pub is_multicast : Bool
  pub client_ports : Option (ℕ × ℕ)
  pub interleaved_ids : Option (ℕ × ℕ)
  pub mode : Option Mode

-- What `findMediaByTrackID` reads of a track ID: empty, a number, or no number.
pub data TrackId : Type 0 where
  track_empty : TrackId
  track_number : ℕ → TrackId
  track_invalid : TrackId

-- A path, a query and a track ID.
pub record Target : Type 0 where
  pub path : List ℕ
  pub query : List ℕ
  pub track_id : TrackId

pub record SetupRequest : Type 0 where
  pub transports : Option (List TransportHeader)  -- none: `Unmarshal` fails
  pub target : Option Target  -- none: `getPathAndQueryAndTrackID` fails
  pub by_url : Option ℕ  -- what `findMediaByURL` finds in the announced medias
  pub on_setup : Option (Response × Option Stream)

pub record AnnounceRequest : Type 0 where
  pub content_type_count : Option ℕ  -- none: no such header
  pub is_sdp : Bool  -- the first content type is application/sdp
  pub description : Option (List ℕ)  -- none: one of the two `Unmarshal` fails
  pub announce_path : List ℕ
  pub announce_query : List ℕ
  pub on_announce : Option Response

-- PLAY, RECORD and PAUSE: the path that `getPathAndQuery` gives, and the handler.
pub record PathRequest : Type 0 where
  pub request_path : List ℕ
  pub on_request : Option Response

pub data Request : Type 0 where
  options : Request
  announce : AnnounceRequest → Request
  setup : SetupRequest → Request
  play : PathRequest → Request
  record_stream : PathRequest → Request
  pause : PathRequest → Request
  teardown : Request
  get_parameter : Option Response → Request
  set_parameter : Option Response → Request
  other_method : Request
