-- ===== src/Session/Loop.antt =====
-- `runInner` of server_session.go: one round of its loop for each event. `none` is a panic.
use gortsplib.Common.{
  ℕ, ◌+◌, Bool, true, false, not, ◌==◌, ◌&&◌, ◌||◌, leb, if◌then◌else◌, Option, none, some, List,
  [], ◌∷◌, length,
}
use gortsplib.Session.{
  transport_tcp, Error, switch_read_func, Response, Writer, writer_nil, state_record, ServerSession,
  Server, same_state, same_transport,
}
use gortsplib.Session.Requests.{Request, announce, teardown}
use gortsplib.Session.Setup.{is_reading}
use gortsplib.Session.Methods.{is_live, start_writer}
use gortsplib.Session.Handle.{handle_request}

-- What the loop waits for; the times are those of `timeNow`, in seconds.
pub data Event : Type 0 where
  request : ℕ → Request → Event
  remove_conn : ℕ → Event
  async_start_writer : Event
  check_stream : ℕ → Event  -- the timer, with `udpLastPacketTime`
  writer_error : Event
  context_done : Event

pub data Reason : Type 0 where
  session_torn_down : Reason
  session_not_in_use : Reason
  session_timed_out : Reason
  writer_stopped : Reason
  server_terminated : Reason

-- The answer that goes to the connection, with the timeout in its Session header or not; or none.
pub record Reply : Type 0 where
  pub response : Response
  pub has_timeout : Bool

pub data Round : Type 0 where
  goes_on : Option Reply → ServerSession → Round
  ends : Option Reply → Reason → ServerSession → Round

abbrev pub is_conn : List ℕ → ℕ → Bool
is_conn [] sc = false
is_conn (c ∷ cs) sc = c == sc || is_conn cs sc

abbrev pub remove : List ℕ → ℕ → List ℕ
remove [] sc = []
remove (c ∷ cs) sc = let rest = remove cs sc in if c == sc then rest else c ∷ rest

-- `err == nil || isSwitchReadFuncError(err)`
abbrev pub is_success : Option Error → Bool
is_success none = true
is_success (some (switch_read_func b)) = true
is_success (some _) = false

abbrev pub is_teardown : Request → Bool
is_teardown teardown = true
is_teardown _ = false

abbrev pub is_announce : Request → Bool
is_announce (announce r) = true
is_announce _ = false

-- Whether the Session header has a timeout: when reading over UDP.
unfoldable pub timeout_of : ServerSession → Option Bool
timeout_of s =
    if is_reading s.state
    then elim s.setupped_transport [
      | none ↦ none
      | some t ↦ some (not (same_transport t transport_tcp))
    ]
    else some false

abbrev pub touch : ServerSession → ℕ → ℕ → ServerSession
touch s now sc = record s {
  last_request_time = now;
  conns = if is_conn s.conns sc then s.conns else sc ∷ s.conns;
}

-- The case `req := <-ss.chHandleRequest`.
unfoldable pub on_request : Server → ℕ → ServerSession → ℕ → Request → Option Round
on_request sv now s sc req = elim (handle_request sv now sc (touch s now sc) req) [
  | none ↦ none
  | some (res, s') ↦
      if is_success res.error
      then if is_teardown req
        then some (
            ends (some (record { response = res; has_timeout = false })) session_torn_down
              (record s' { conns = remove s'.conns sc }))
        else if is_announce req
        then some (goes_on (some (record { response = res; has_timeout = false })) s')
        else elim (timeout_of s') [
          | none ↦ none
          | some b ↦ some (goes_on (some (record { response = res; has_timeout = b })) s')
        ]
      else some (goes_on (some (record { response = res; has_timeout = false })) s')
]

-- The case `sc := <-ss.chRemoveConn`.
unfoldable pub on_remove_conn : ServerSession → ℕ → Option Round
on_remove_conn s sc =
    let s' = record s { conns = remove s.conns sc } in
    let unused =
      if length s'.conns == 0 then ends none session_not_in_use s' else goes_on none s' in
    if not (is_live s.state) then some unused else elim s.setupped_transport [
      | none ↦ none
      | some t ↦ some (if same_transport t transport_tcp then unused else goes_on none s')
    ]

-- The case `<-ss.chAsyncStartWriter`.
unfoldable pub on_async_start_writer : ServerSession → Option Round
on_async_start_writer s =
    if is_live s.state
    then elim s.setupped_transport [
      | none ↦ none
      | some t ↦
          if same_transport t transport_tcp
          then elim (start_writer s.writer) [
            | none ↦ none
            | some w ↦ some (goes_on none (record s { writer = w }))
          ]
          else some (goes_on none s)
    ]
    else some (goes_on none s)

-- The case `<-ss.udpCheckStreamTimer.C`; a timer that is empty never fires.
unfoldable pub on_check_stream : Server → ℕ → ServerSession → ℕ → Round
on_check_stream sv now s lft =
    if not s.udp_check_stream_timer
    then goes_on none s
    else if same_state s.state state_record
    then if leb (lft + sv.read_timeout) now then ends none session_timed_out s else goes_on none s
    else if leb (s.last_request_time + sv.session_timeout) now && leb (lft + sv.session_timeout) now
    then ends none session_timed_out s
    else goes_on none s

-- The channel of a writer that is nil is nil, so its case is never taken.
abbrev pub on_writer_error : ServerSession → Writer → Round
on_writer_error s writer_nil = goes_on none s
on_writer_error s _ = ends none writer_stopped s

unfoldable pub step : Server → ℕ → ServerSession → Event → Option Round
step sv now s (request sc req) = on_request sv now s sc req
step sv now s (remove_conn sc) = on_remove_conn s sc
step sv now s async_start_writer = on_async_start_writer s
step sv now s (check_stream lft) = some (on_check_stream sv now s lft)
step sv now s writer_error = some (on_writer_error s s.writer)
step sv now s context_done = some (ends none server_terminated s)
