-- ===== src/Session/Setup.antt =====
-- SETUP: the case `base.Setup` of `handleRequestInner`. `none` is a panic.
use gortsplib.Common.{
  ℕ, ◌+◌, Bool, true, false, not, ◌==◌, ◌&&◌, ◌||◌, if◌then◌else◌, Option, none, some, List, [],
  ◌∷◌, ◌++◌, get_elem?, length, leb,
}
use gortsplib.Session.{
  State, state_initial, state_pre_play, state_play, state_pre_record, state_record, Transport,
  transport_udp, transport_udp_multicast, transport_tcp, Error, transport_header_invalid,
  invalid_setup_path, medias_different_paths, medias_different_protocols, no_client_ports,
  invalid_interleaved_ids, interleaved_ids_in_use, invalid_mode, media_not_found,
  media_already_setup, reader_refused, invalid_state, Response, SessionMedia, Stream, ServerSession,
  Server, same_state, same_transport, same_bytes, check_state, bad_request, status_ok,
  status_unsupported_transport,
}
use gortsplib.Session.Channels.{is_channel_pair_in_use, find_free_channel_pair}
use gortsplib.Session.Requests.{
  protocol_udp, protocol_tcp, mode_play, mode_record, TransportHeader, TrackId, track_empty,
  track_number, track_invalid, Target, SetupRequest,
}

-- `findMediaByTrackID`; the outer `none` is the panic on `medias[0]`.
unfoldable pub find_media_by_track_id : List ℕ → TrackId → Option (Option ℕ)
find_media_by_track_id [] track_empty = none
find_media_by_track_id (m ∷ ms) track_empty = some (some m)
find_media_by_track_id ms (track_number id) =
    if leb (length ms) id then some none else some (get_elem? ms id)
find_media_by_track_id ms track_invalid = some none

-- `findFirstSupportedTransportHeader`
unfoldable pub find_first_supported_transport_header :
    Server → List TransportHeader → Option TransportHeader
find_first_supported_transport_header sv [] = none
find_first_supported_transport_header sv (tr ∷ more) = elim tr.protocol [
  | protocol_tcp ↦ some tr
  | protocol_udp ↦
      if (not tr.is_multicast && not sv.has_udp_listener)
        || (tr.is_multicast && not sv.has_multicast_range)
      then find_first_supported_transport_header sv more
      else some tr
]

abbrev pub transport_of : TransportHeader → Transport
transport_of th = elim th.protocol [
  | protocol_tcp ↦ transport_tcp
  | protocol_udp ↦ if th.is_multicast then transport_udp_multicast else transport_udp
]

abbrev pub is_reading : State → Bool
is_reading state_pre_play = true
is_reading state_play = true
is_reading _ = false

-- The states of the switches in SETUP: `Initial` and `PrePlay` are for reading.
abbrev pub is_for_play : State → Bool
is_for_play state_initial = true
is_for_play state_pre_play = true
is_for_play _ = false

abbrev pub differs : Option Transport → Transport → Bool
differs none t = false
differs (some u) t = not (same_transport u t)

abbrev pub is_setupped : List SessionMedia → ℕ → Bool
is_setupped [] m = false
is_setupped (sm ∷ sms) m = sm.media == m || is_setupped sms m

-- The checks on the ports and the channels of the header.
unfoldable pub check_transport : ServerSession → TransportHeader → Transport → Option Error
check_transport s th transport_udp = elim th.client_ports [
  | none ↦ some no_client_ports
  | some ps ↦ none
]
check_transport s th transport_udp_multicast = none
check_transport s th transport_tcp = elim th.interleaved_ids [
  | none ↦ none
  | some (a, b) ↦
      if not (a + 1 == b)
      then some invalid_interleaved_ids
      else if is_channel_pair_in_use s.setupped_medias a
      then some interleaved_ids_in_use
      else none
]

-- The checks on the mode, by state.
unfoldable pub check_mode : Bool → TransportHeader → Transport → Option Response
check_mode true th t = elim th.mode [
  | none ↦ none
  | some mode_play ↦ none
  | some mode_record ↦ some (bad_request invalid_mode)
]
check_mode false th t =
    if same_transport t transport_udp_multicast
    then some (record { status = status_unsupported_transport; error = none })
    else elim th.mode [
      | none ↦ some (bad_request invalid_mode)
      | some mode_play ↦ some (bad_request invalid_mode)
      | some mode_record ↦ none
    ]

-- The media of the session and its channel or ports.
unfoldable pub media_of : List SessionMedia → TransportHeader → Transport → ℕ → Option SessionMedia
media_of sms th transport_udp m = elim th.client_ports [
  | none ↦ none
  | some (a, b) ↦
      some (record { media = m; tcp_channel = 0; udp_rtp_read_port = a; udp_rtcp_read_port = b })
]
media_of sms th transport_udp_multicast m =
    some (record { media = m; tcp_channel = 0; udp_rtp_read_port = 0; udp_rtcp_read_port = 0 })
media_of sms th transport_tcp m = elim th.interleaved_ids [
  | none ↦ elim (find_free_channel_pair sms) [
    | none ↦ none
    | some ch ↦
        some (record { media = m; tcp_channel = ch; udp_rtp_read_port = 0; udp_rtcp_read_port = 0 })
  ]
  | some (a, b) ↦
      some (record { media = m; tcp_channel = a; udp_rtp_read_port = 0; udp_rtcp_read_port = 0 })
]

-- Whether the transport header of the answer can be made: `localSSRC` panics on a media with no format,
-- and `multicastWriter.ip()` on one with no multicast writer.
abbrev pub is_answerable : State → Transport → Option Stream → ℕ → Bool
is_answerable state_pre_play t (some st) m =
    st.has_formats m && (not (same_transport t transport_udp_multicast) || st.has_multicast_writers)
is_answerable state_pre_play t none m = false
is_answerable state_initial t o m = true
is_answerable state_play t o m = true
is_answerable state_pre_record t o m = true
is_answerable state_record t o m = true

-- The end of SETUP, where the media is added.
unfoldable pub add_media :
    ServerSession
    → TransportHeader
    → Transport
    → Option Stream
    → ℕ
    → Response
    → Option (Response × ServerSession)
add_media s th t stream m res =
    if not (is_answerable s.state t stream m)
    then none
    else elim (media_of s.setupped_medias th t m) [
      | none ↦ none
      | some sm ↦ some (res, record s { setupped_medias = s.setupped_medias ++ (sm ∷ []) })
    ]

-- From `ss.setuppedTransport = &transport` on. The transport stays set where `readerAdd` fails.
unfoldable pub start_reading :
    ServerSession
    → TransportHeader
    → Transport
    → Target
    → Option Stream
    → ℕ
    → Response
    → Option (Response × ServerSession)
start_reading s th t tg stream m res = elim stream [
  | none ↦ none
  | some st ↦
      let s1 = record s { setupped_transport = some t } in
      if st.accepts_reader
      then add_media
          (record s1 {
            state = state_pre_play;
            setupped_path = tg.path;
            setupped_query = tg.query;
            setupped_stream = some st;
          })
          th t (some st) m res
      else some (bad_request reader_refused, s1)
]

-- `medi`: by the track ID in the handler's stream, or by the URL in the announced medias.
unfoldable pub find_media :
    ServerSession → SetupRequest → Target → Option Stream → Option (Option ℕ)
find_media s r tg stream =
    if is_for_play s.state
    then elim stream [ none ↦ none | some st ↦ find_media_by_track_id st.stream_medias tg.track_id ]
    else elim s.announced_desc [ none ↦ none | some ms ↦ some r.by_url ]

unfoldable pub setup_media :
    ServerSession
    → TransportHeader
    → Transport
    → Target
    → Option Stream
    → ℕ
    → Response
    → Option (Response × ServerSession)
setup_media s th t tg stream m res =
    if is_setupped s.setupped_medias m
    then some (bad_request media_already_setup, s)
    else if same_state s.state state_initial
    then start_reading s th t tg stream m res
    else add_media (record s { setupped_transport = some t }) th t stream m res

-- From the call of `OnSetup` on.
unfoldable pub setup_handled :
    ServerSession
    → SetupRequest
    → TransportHeader
    → Transport
    → Target
    → Option (Response × ServerSession)
setup_handled s r th t tg = elim r.on_setup [
  | none ↦ none
  | some (res, stream) ↦
      if not (res.status == status_ok) then some (res, s) else elim (find_media s r tg stream) [
        | none ↦ none
        | some none ↦ some (bad_request media_not_found, s)
        | some (some m) ↦ setup_media s th t tg stream m res
      ]
]

-- The checks on the transport, once the path is known.
unfoldable pub setup_checked :
    ServerSession
    → SetupRequest
    → TransportHeader
    → Transport
    → Target
    → Option (Response × ServerSession)
setup_checked s r th t tg =
    if differs s.setupped_transport t
    then some (bad_request medias_different_protocols, s)
    else elim (check_transport s th t) [
      | some e ↦ some (bad_request e, s)
      | none ↦ elim (check_mode (is_for_play s.state) th t) [
        | some res ↦ some (res, s)
        | none ↦ setup_handled s r th t tg
      ]
    ]

unfoldable pub setup_session :
    Server → ServerSession → SetupRequest → Option (Response × ServerSession)
setup_session sv s r =
    if not (check_state (state_initial ∷ state_pre_play ∷ state_pre_record ∷ []) s)
    then some (bad_request invalid_state, s)
    else elim r.transports [
      | none ↦ some (bad_request transport_header_invalid, s)
      | some ths ↦ elim (find_first_supported_transport_header sv ths) [
        | none ↦ some (record { status = status_unsupported_transport; error = none }, s)
        | some th ↦
            if is_for_play s.state
            then elim r.target [
              | none ↦ some (bad_request invalid_setup_path, s)
              | some tg ↦
                  if same_state s.state state_pre_play && not (same_bytes tg.path s.setupped_path)
                  then some (bad_request medias_different_paths, s)
                  else setup_checked s r th (transport_of th) tg
            ]
            else setup_checked s r th (transport_of th) (record {
              path = s.setupped_path;
              query = s.setupped_query;
              track_id = track_empty;
            })
      ]
    ]
