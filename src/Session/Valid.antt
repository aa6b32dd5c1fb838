-- ===== src/Session/Valid.antt =====
-- What holds of a session between two requests.
use gortsplib.Common.{
  ℕ, ◌<◌, ◌≡◌, refl, Bool, true, false, not, ◌&&◌, ◌||◌, Option, none, some, List, [], ◌∷◌, length,
}
use gortsplib.Session.{
  State, state_initial, state_play, state_pre_record, state_record, Transport, transport_udp,
  transport_udp_multicast, transport_tcp, Response, Writer, writer_nil, SessionMedia, Stream,
  ServerSession,
}
use gortsplib.Session.Channels.{Apart}
use gortsplib.Session.Setup.{is_reading}
use gortsplib.Session.Methods.{Answer, is_live, has_all}

abbrev pub is_some : {A : Type 0} → Option A → Bool
is_some none = false
is_some (some x) = true

abbrev pub has_medias : List SessionMedia → Bool
has_medias [] = false
has_medias (sm ∷ sms) = true

abbrev pub has_writer : Writer → Bool
has_writer writer_nil = false
has_writer _ = true

abbrev pub is_publishing : State → Bool
is_publishing state_pre_record = true
is_publishing state_record = true
is_publishing _ = false

abbrev pub is_play : State → Bool
is_play state_play = true
is_play _ = false

abbrev pub is_record : State → Bool
is_record state_record = true
is_record _ = false

abbrev pub is_initial : State → Bool
is_initial state_initial = true
is_initial _ = false

abbrev pub is_tcp : Option Transport → Bool
is_tcp (some transport_tcp) = true
is_tcp _ = false

abbrev pub is_multicast : Option Transport → Bool
is_multicast (some transport_udp_multicast) = true
is_multicast _ = false

-- Not nil, and of one media at least.
abbrev pub Described : Option (List ℕ) → Type 0
Described none = Unit
Described (some medias) = 0 < length medias

-- The medias of a session are those of the stream that it reads.
abbrev pub Owns : Option Stream → List SessionMedia → Type 0
Owns none sms = Unit
Owns (some st) sms = has_all st.stream_medias sms ≡ true

-- The stream, the description, the writer, the timer, the connection and the time decoder are there
-- exactly where they are used, and the transport at least there; over TCP the channels of the medias
-- are apart.
pub record IsValid (s : ServerSession) : Type 0 where
  pub stream : is_some s.setupped_stream ≡ is_reading s.state
  pub announced : is_some s.announced_desc ≡ is_publishing s.state
  pub described : Described s.announced_desc
  pub transport :
      (is_reading s.state || has_medias s.setupped_medias) ≡ true
      → is_some s.setupped_transport ≡ true
  pub unicast :
      (is_publishing s.state && has_medias s.setupped_medias) ≡ true
      → is_multicast s.setupped_transport ≡ false
  pub fresh : is_initial s.state ≡ true → has_medias s.setupped_medias ≡ false
  pub recorded : is_record s.state ≡ true → has_medias s.setupped_medias ≡ true
  pub apart : is_tcp s.setupped_transport ≡ true → Apart s.setupped_medias
  pub writer : has_writer s.writer ≡ (is_live s.state && not (is_multicast s.setupped_transport))
  pub linked : is_some s.tcp_conn ≡ (is_live s.state && is_tcp s.setupped_transport)
  pub timer : s.udp_check_stream_timer ≡ (is_live s.state && not (is_tcp s.setupped_transport))
  pub active : s.reader_active ≡ is_play s.state
  pub started : s.medias_started ≡ is_live s.state
  pub own : Owns s.setupped_stream s.setupped_medias
  pub decoder : s.time_decoder ≡ is_live s.state

-- The request was answered, without a panic, and leaves a valid session.
pub data Keeps : Answer → Type 0 where
  keeps : (res : Response) (s : ServerSession) → IsValid s → Keeps (some (res, s))

pub transport_case :
    {B : Type 0} (P : B → Type 0) (t : Transport) {u m c : B}
    → (t ≡ transport_udp → P u)
    → (t ≡ transport_udp_multicast → P m)
    → (t ≡ transport_tcp → P c)
    → P (elim t [ transport_udp ↦ u | transport_udp_multicast ↦ m | transport_tcp ↦ c ])
transport_case P transport_udp f g h = f refl
transport_case P transport_udp_multicast f g h = g refl
transport_case P transport_tcp f g h = h refl
