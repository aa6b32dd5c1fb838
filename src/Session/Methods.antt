-- ===== src/Session/Methods.antt =====
-- ANNOUNCE, PLAY and RECORD: three cases of `handleRequestInner` of server_session.go. `none` is a panic.
use gortsplib.Common.{
  ℕ, ◌+◌, Bool, true, false, not, ◌==◌, ◌&&◌, if◌then◌else◌, Option, none, some, List, [], ◌∷◌,
  length,
}
use gortsplib.Session.{
  State, state_initial, state_pre_play, state_play, state_pre_record, state_record, Transport,
  transport_udp, transport_udp_multicast, transport_tcp, invalid_state, content_type_missing,
  content_type_unsupported, sdp_invalid, path_has_changed, not_all_announced_medias_setup,
  switch_read_func, Response, Writer, writer_nil, writer_idle, writer_running, ReadFunc,
  read_rtp_play, read_rtcp_play, read_rtp_record, read_rtcp_record, SessionMedia, ServerSession,
  Server, same_state, same_transport, same_bytes, check_state, bad_request, status_ok, has_media,
}
use gortsplib.Session.Requests.{AnnounceRequest, PathRequest}

abbrev pub Answer : Type 0
Answer = Option (Response × ServerSession)

abbrev pub is_live : State → Bool
is_live state_play = true
is_live state_record = true
is_live _ = false

-- The buffer size that `createWriter` chooses.
abbrev pub buffer_size : Server → ServerSession → ℕ
buffer_size sv s = if same_state s.state state_pre_play then sv.write_queue_size else 8

-- `startWriter`; on a writer that is nil it panics.
abbrev pub start_writer : Writer → Option Writer
start_writer writer_nil = none
start_writer (writer_idle n) = some (writer_running n)
start_writer (writer_running n) = some (writer_running n)

-- What `start` of every media puts into `tcpCallbackByChannel`.
abbrev pub callbacks :
    ReadFunc → ReadFunc → List SessionMedia → List (ℕ × ReadFunc) → List (ℕ × ReadFunc)
callbacks rtp rtcp [] cs = cs
callbacks rtp rtcp (sm ∷ sms) cs =
    callbacks rtp rtcp sms ((sm.tcp_channel, rtp) ∷ (sm.tcp_channel + 1, rtcp) ∷ cs)

unfoldable pub announce_session : ServerSession → AnnounceRequest → Answer
announce_session s r =
    if not (check_state (state_initial ∷ []) s)
    then some (bad_request invalid_state, s)
    else elim r.content_type_count [
      | none ↦ some (bad_request content_type_missing, s)
      | some n ↦
          if not (n == 1)
          then some (bad_request content_type_missing, s)
          else if not r.is_sdp
          then some (bad_request content_type_unsupported, s)
          else elim r.description [
            | none ↦ some (bad_request sdp_invalid, s)
            | some medias ↦ elim r.on_announce [
              | none ↦ none
              | some res ↦
                  if not (res.status == status_ok)
                  then some (res, s)
                  else some (
                    res,
                    record s {
                      state = state_pre_record;
                      setupped_path = r.announce_path;
                      setupped_query = r.announce_query;
                      announced_desc = some medias;
                    },
                  )
            ]
          ]
    ]

-- Whether the stream has all medias of the session.
abbrev pub has_all : List ℕ → List SessionMedia → Bool
has_all ms [] = true
has_all ms (sm ∷ sms) = has_media ms sm.media && has_all ms sms

-- PLAY from `ss.state = ServerSessionStatePlay` on, with the transport and the time. `readerSetActive`
-- with multicast and `generateRTPInfo` panic on a media that the stream does not have.
unfoldable pub play_start : ℕ → ℕ → ServerSession → Transport → Response → Answer
play_start now sc s t res =
    let s1 = record s {
      state = state_play;
      udp_last_packet_time = now;
      time_decoder = true;
      medias_started = true;
      reader_active = true;
    } in
    elim s.setupped_stream [
      | none ↦ none
      | some st ↦ if not (has_all st.stream_medias s.setupped_medias) then none else elim t [
        | transport_udp ↦ elim (start_writer s.writer) [
          | none ↦ none
          | some w ↦ some (res, record s1 { udp_check_stream_timer = true; writer = w })
        ]
        | transport_udp_multicast ↦ some (res, record s1 { udp_check_stream_timer = true })
        | transport_tcp ↦ some (
          record res { error = some (switch_read_func true) },
          record s1 {
            tcp_conn = some sc;
            tcp_callbacks =
                callbacks read_rtp_play read_rtcp_play s.setupped_medias s.tcp_callbacks;
          },
        )
      ]
    ]

unfoldable pub play_handled : Server → ℕ → ℕ → ServerSession → Transport → PathRequest → Answer
play_handled sv now sc s t r =
    let multicast = same_transport t transport_udp_multicast in
    let made = if multicast then s.writer else writer_idle (buffer_size sv s) in
    elim r.on_request [
      | none ↦ none
      | some res ↦
          if not (res.status == status_ok)
          then some (res, record s { writer = if multicast then made else writer_nil })
          else play_start now sc (record s { writer = made }) t res
    ]

-- PLAY; it may come twice, and the second changes nothing.
unfoldable pub play_session : Server → ℕ → ℕ → ServerSession → PathRequest → Answer
play_session sv now sc s r =
    if not (check_state (state_pre_play ∷ state_play ∷ []) s)
    then some (bad_request invalid_state, s)
    else if same_state s.state state_pre_play && not (same_bytes r.request_path s.setupped_path)
    then some (bad_request path_has_changed, s)
    else if same_state s.state state_play
    then elim r.on_request [ none ↦ none | some res ↦ some (res, s) ]
    else elim s.setupped_transport [ none ↦ none | some t ↦ play_handled sv now sc s t r ]

-- RECORD from `ss.state = ServerSessionStateRecord` on.
unfoldable pub record_start : ℕ → ℕ → ServerSession → Response → Answer
record_start now sc s res =
    let s1 = record s {
      state = state_record;
      udp_last_packet_time = now;
      time_decoder = true;
      medias_started = true;
    } in
    let linked = record s1 { tcp_conn = some sc } in
    let switched = record res { error = some (switch_read_func true) } in
    elim s.setupped_transport [
      | none ↦ none
      | some transport_udp ↦ elim (start_writer s.writer) [
        | none ↦ none
        | some w ↦ some (res, record s1 { udp_check_stream_timer = true; writer = w })
      ]
      | some transport_udp_multicast ↦ some (switched, linked)
      | some transport_tcp ↦ some (
        switched,
        record linked {
          tcp_callbacks =
              callbacks read_rtp_record read_rtcp_record s.setupped_medias s.tcp_callbacks;
        },
      )
    ]

unfoldable pub record_handled : Server → ℕ → ℕ → ServerSession → PathRequest → Answer
record_handled sv now sc s r =
    let s1 = record s { writer = writer_idle (buffer_size sv s) } in
    elim r.on_request [
      | none ↦ none
      | some res ↦
          if not (res.status == status_ok)
          then some (res, record s1 { writer = writer_nil })
          else record_start now sc s1 res
    ]

unfoldable pub record_session : Server → ℕ → ℕ → ServerSession → PathRequest → Answer
record_session sv now sc s r =
    if not (check_state (state_pre_record ∷ []) s)
    then some (bad_request invalid_state, s)
    else elim s.announced_desc [
      | none ↦ none
      | some medias ↦
          if not (length s.setupped_medias == length medias)
          then some (bad_request not_all_announced_medias_setup, s)
          else if not (same_bytes r.request_path s.setupped_path)
          then some (bad_request path_has_changed, s)
          else record_handled sv now sc s r
    ]
