-- ===== src/Session/Handle.antt =====
-- `handleRequestInner` of server_session.go, with its cases PAUSE and TEARDOWN. `none` is a panic.
use gortsplib.Common.{ℕ, Bool, false, not, ◌==◌, if◌then◌else◌, Option, none, some, [], ◌∷◌}
use gortsplib.Session.{
  state_pre_play, state_play, state_pre_record, state_record, transport_udp,
  transport_udp_multicast, transport_tcp, linked_to_other_conn, invalid_state, switch_read_func,
  Response, writer_nil, ServerSession, Server, same_state, same_transport, check_state, bad_request,
  status_ok, status_not_implemented,
}
use gortsplib.Session.Requests.{
  PathRequest, Request, options, announce, setup, play, record_stream, pause, teardown,
  get_parameter, set_parameter, other_method,
}
use gortsplib.Session.Setup.{setup_session}
use gortsplib.Session.Methods.{Answer, is_live, announce_session, play_session, record_session}

-- PAUSE of a live session.
unfoldable pub pause_live : ServerSession → Response → Answer
pause_live s res =
    let s1 = record s {
      writer = writer_nil;
      reader_active = elim s.setupped_stream [ none ↦ s.reader_active | some st ↦ false ];
      medias_started = false;
      time_decoder = false;
      state = if same_state s.state state_play then state_pre_play else state_pre_record;
    } in
    let timeless = record s1 { udp_check_stream_timer = false } in
    let unlinked = record s1 { tcp_conn = none } in
    let switched = record res { error = some (switch_read_func false) } in
    elim s.setupped_transport [
      | none ↦ none
      | some transport_udp ↦ some (res, timeless)
      | some transport_udp_multicast ↦
          if same_state s.state state_play then some (res, timeless) else some (switched, unlinked)
      | some transport_tcp ↦ some (switched, unlinked)
    ]

unfoldable pub pause_session : ServerSession → PathRequest → Answer
pause_session s r =
    if not (check_state (state_pre_play ∷ state_play ∷ state_pre_record ∷ state_record ∷ []) s)
    then some (bad_request invalid_state, s)
    else elim r.on_request [
      | none ↦ none
      | some res ↦
          if not (res.status == status_ok)
          then some (res, s)
          else if is_live s.state
          then pause_live s res
          else some (res, s)
    ]

unfoldable pub teardown_session : ServerSession → Answer
teardown_session s =
    let done : Response = record { status = status_ok; error = none } in
    if is_live s.state
    then elim s.setupped_transport [
      | none ↦ none
      | some t ↦
          if same_transport t transport_tcp
          then some (record done { error = some (switch_read_func false) }, s)
          else some (done, s)
    ]
    else some (done, s)

abbrev pub is_other_conn : Option ℕ → ℕ → Bool
is_other_conn none sc = false
is_other_conn (some c) sc = not (sc == c)

unfoldable pub handle_method : Server → ℕ → ℕ → ServerSession → Request → Answer
handle_method sv now sc s options = some (record { status = status_ok; error = none }, s)
handle_method sv now sc s (announce r) = announce_session s r
handle_method sv now sc s (setup r) = setup_session sv s r
handle_method sv now sc s (play r) = play_session sv now sc s r
handle_method sv now sc s (record_stream r) = record_session sv now sc s r
handle_method sv now sc s (pause r) = pause_session s r
handle_method sv now sc s teardown = teardown_session s
handle_method sv now sc s (get_parameter (some res)) = some (res, s)
handle_method sv now sc s (get_parameter none) =
    some (record { status = status_ok; error = none }, s)
handle_method sv now sc s (set_parameter (some res)) = some (res, s)
handle_method sv now sc s (set_parameter none) =
    some (record { status = status_not_implemented; error = none }, s)
handle_method sv now sc s other_method =
    some (record { status = status_not_implemented; error = none }, s)

-- `handleRequestInner`
unfoldable pub handle_request : Server → ℕ → ℕ → ServerSession → Request → Answer
handle_request sv now sc s req =
    if is_other_conn s.tcp_conn sc
    then some (bad_request linked_to_other_conn, s)
    else handle_method sv now sc s req
