-- ===== src/Session/LoopValid.antt =====
-- The loop of a session: no round panics, and a session that goes on is valid.
use gortsplib.Common.{
  ℕ, ◌+◌, ◌≡◌, refl, sym, ap, ◌∙◌, subst, Bool, true, false, not, ◌==◌, ◌&&◌, leb, if◌then◌else◌,
  Option, none, some, some-inj, List, length, true-ne-false, arith,
}
use gortsplib.Session.{
  transport_tcp, Response, Writer, writer_nil, writer_idle, writer_running, state_record,
  ServerSession, Server, same_state, same_transport, new_session,
}
use gortsplib.Session.Requests.{Request}
use gortsplib.Session.Methods.{is_live, start_writer}
use gortsplib.Session.Handle.{handle_request}
use gortsplib.Common.Cases.{if_case, option_case}
use gortsplib.Session.Valid.{is_some, IsValid}
use gortsplib.Session.PlayValid.{with_writer-IsValid}
use gortsplib.Session.Answered.{Serves, handle_request-IsValid}
use gortsplib.Session.Loop.{
  Event, request, remove_conn, async_start_writer, check_stream, writer_error, context_done, Reason,
  session_not_in_use, Reply, Round, goes_on, ends, is_success, is_teardown, is_announce, remove,
  timeout_of, touch, on_request, on_remove_conn, on_async_start_writer, on_check_stream,
  on_writer_error, step,
}

-- The round does not panic, and leaves a valid session.
pub data Survives : Option Round → Type 0 where
  survives : (r : Option Reply) (s : ServerSession) → IsValid s → Survives (some (goes_on r s))
  stops :
      (r : Option Reply) (why : Reason) (s : ServerSession)
      → IsValid s
      → Survives (some (ends r why s))

-- The fields that no part of the invariant reads.
touched-IsValid :
    (s : ServerSession) (conns : List ℕ) (now : ℕ)
    → IsValid s
    → IsValid (record s { conns = conns; last_request_time = now })
touched-IsValid s conns now v = record {
  stream = v.stream;
  announced = v.announced;
  described = v.described;
  transport = v.transport;
  unicast = v.unicast;
  fresh = v.fresh;
  recorded = v.recorded;
  apart = v.apart;
  writer = v.writer;
  linked = v.linked;
  timer = v.timer;
  active = v.active;
  started = v.started;
  own = v.own;
  decoder = v.decoder;
}

timeout_of-is_some : (s : ServerSession) → IsValid s → is_some (timeout_of s) ≡ true
unfolding timeout_of
timeout_of-is_some s v = ground (arith, v.transport)

on_request-Survives :
    (sv : Server) (now : ℕ) (s : ServerSession) (sc : ℕ) (req : Request)
    → IsValid s
    → Serves (touch s now sc) req
    → Survives (on_request sv now s sc req)
unfolding on_request
on_request-Survives sv now s sc req v h =
    let (res, s', e, v') =
      handle_request-IsValid sv now sc (touch s now sc) req
        (touched-IsValid s (touch s now sc).conns now v) h in
    option_case Survives (handle_request sv now sc (touch s now sc) req)
      (λ n. absurd (true-ne-false (ground (arith, n, e))))
      (λ rs q.
        let w : IsValid rs.1 =
          subst (λ (x : Response × ServerSession). IsValid x.1) (some-inj (sym e ∙ q)) v' in
        if_case Survives (is_success rs.0.error)
          (λ good.
            if_case Survives (is_teardown req)
              (λ t.
                stops _ _ _ (touched-IsValid rs.1 (remove rs.1.conns sc) rs.1.last_request_time w))
              (λ n.
                if_case Survives (is_announce req) (λ a. survives _ _ w)
                  (λ n'.
                    option_case Survives (timeout_of rs.1)
                      (λ none_is.
                        absurd (true-ne-false (ground (arith, none_is, timeout_of-is_some rs.1 w))))
                      (λ b eb. survives _ _ w))))
          (λ bad. survives _ _ w))

-- A live session has its transport.
transport_absent :
    (s : ServerSession) → IsValid s → is_live s.state ≡ true → s.setupped_transport ≡ none → ⊥
transport_absent s v live n = true-ne-false (ground (arith, v.transport, v.recorded, live, n))

on_remove_conn-Survives : (s : ServerSession) (sc : ℕ) → IsValid s → Survives (on_remove_conn s sc)
unfolding on_remove_conn
on_remove_conn-Survives s sc v =
    if_case Survives (not (is_live s.state)) (λ idle. unused)
      (λ live.
        option_case Survives s.setupped_transport
          (λ n. absurd (transport_absent s v (ground (arith, live)) n))
          (λ t e.
            if_case (λ r. Survives (some r)) (same_transport t transport_tcp) (λ tcp. unused)
              (λ udp. survives _ _ w)))
  where
    w : IsValid (record s { conns = remove s.conns sc })
    w = touched-IsValid s (remove s.conns sc) s.last_request_time v

    unused : Survives (
        some (
          if length (remove s.conns sc) == 0
          then ends none session_not_in_use (record s { conns = remove s.conns sc })
          else goes_on none (record s { conns = remove s.conns sc })))
    unused =
        if_case (λ r. Survives (some r)) (length (remove s.conns sc) == 0) (λ e. stops _ _ _ w)
          (λ n. survives _ _ w)

on_async_start_writer-Survives :
    (s : ServerSession) → IsValid s → Survives (on_async_start_writer s)
unfolding on_async_start_writer
on_async_start_writer-Survives s v =
    if_case Survives (is_live s.state)
      (λ live.
        option_case Survives s.setupped_transport (λ n. absurd (transport_absent s v live n))
          (λ t e.
            if_case Survives (same_transport t transport_tcp)
              (λ tcp.
                option_case Survives (start_writer s.writer)
                  (λ n. absurd (true-ne-false (ground (arith, n, v.writer, live, e, tcp))))
                  (λ w ew.
                    survives _ _
                      (with_writer-IsValid s w v (ground (arith, ew, v.writer, live, e, tcp)))))
              (λ udp. survives _ _ v)))
      (λ idle. survives _ _ v)

on_check_stream-Survives :
    (sv : Server) (now : ℕ) (s : ServerSession) (lft : ℕ)
    → IsValid s
    → Survives (some (on_check_stream sv now s lft))
unfolding on_check_stream
on_check_stream-Survives sv now s lft v =
    if_case (λ r. Survives (some r)) (not s.udp_check_stream_timer) (λ off. survives _ _ v)
      (λ on.
        if_case (λ r. Survives (some r)) (same_state s.state state_record)
          (λ rec.
            if_case (λ r. Survives (some r)) (leb (lft + sv.read_timeout) now)
              (λ late. stops _ _ _ v) (λ fine. survives _ _ v))
          (λ other.
            if_case (λ r. Survives (some r))
              (leb (s.last_request_time + sv.session_timeout) now
                && leb (lft + sv.session_timeout) now)
              (λ late. stops _ _ _ v) (λ fine. survives _ _ v)))

on_writer_error-Survives :
    (s : ServerSession) (w : Writer) → IsValid s → Survives (some (on_writer_error s w))
on_writer_error-Survives s writer_nil v = survives _ _ v
on_writer_error-Survives s (writer_idle n) v = stops _ _ _ v
on_writer_error-Survives s (writer_running n) v = stops _ _ _ v

-- What the environment owes to an event.
abbrev pub ServesEvent : Server → ℕ → ServerSession → Event → Type 0
ServesEvent sv now s (request sc req) = Serves (touch s now sc) req
ServesEvent sv now s _ = Unit

pub step-Survives :
    (sv : Server) (now : ℕ) (s : ServerSession) (e : Event)
    → IsValid s
    → ServesEvent sv now s e
    → Survives (step sv now s e)
unfolding step
step-Survives sv now s (request sc req) v h = on_request-Survives sv now s sc req v h
step-Survives sv now s (remove_conn sc) v h = on_remove_conn-Survives s sc v
step-Survives sv now s async_start_writer v h = on_async_start_writer-Survives s v
step-Survives sv now s (check_stream lft) v h = on_check_stream-Survives sv now s lft v
step-Survives sv now s writer_error v h = on_writer_error-Survives s s.writer v
step-Survives sv now s context_done v h = stops _ _ _ v

abbrev is_end : Round → Bool
is_end (goes_on r s) = false
is_end (ends r why s) = true

session_of : Round → ServerSession
session_of (goes_on r s) = s
session_of (ends r why s) = s

goes-inj : {r r' : Option Reply} {s s' : ServerSession} → goes_on r s ≡ goes_on r' s' → s ≡ s'
goes-inj e = unfold session_of in ap session_of e

-- The sessions that a server can come to hold, by rounds of the loop whose handlers serve.
pub data Reachable (sv : Server) : ServerSession → Type 0 where
  opened : (now : ℕ) → Reachable sv (new_session now)
  after :
      (now : ℕ) (s s' : ServerSession) (e : Event) (r : Option Reply)
      → Reachable sv s
      → ServesEvent sv now s e
      → step sv now s e ≡ some (goes_on r s')
      → Reachable sv s'

new_session-IsValid : (now : ℕ) → IsValid (new_session now)
new_session-IsValid now = record {
  stream = refl;
  announced = refl;
  described = tt;
  transport = λ h. absurd (true-ne-false (sym h));
  unicast = λ h. refl;
  fresh = λ h. refl;
  recorded = λ h. absurd (true-ne-false (sym h));
  apart = λ h. tt;
  writer = refl;
  linked = refl;
  timer = refl;
  active = refl;
  started = refl;
  own = tt;
  decoder = refl;
}

-- A session that a server can come to hold is valid. Its stream, announced description, writer, timer,
-- connection and time decoder are there exactly in the states (and with the transports) that use
-- them; a session that reads or has medias has a transport, and one that records has a media; its
-- medias are medias of the stream that it reads; and over TCP no two of them share a channel. This is
-- so as long as the program has a handler for each method, an announced description has a media, and
-- each SETUP to play gives the same stream, with a media, a format in every media and, for multicast,
-- the writers of the medias.
pub Reachable-IsValid : (sv : Server) (s : ServerSession) → Reachable sv s → IsValid s
Reachable-IsValid sv s (opened now) = new_session-IsValid now
Reachable-IsValid sv t (after now s s' e r reach serves q) =
    went_on (step-Survives sv now s e (Reachable-IsValid sv s reach) serves) q
  where
    went_on : {o : Option Round} → Survives o → o ≡ some (goes_on r s') → IsValid s'
    went_on (survives r1 s1 v) q = subst IsValid (goes-inj (some-inj q)) v
    went_on (stops r1 why s1 v) q = absurd (true-ne-false (ap is_end (some-inj q)))

-- In a session that a server can come to hold, the next event is handled without a panic, as long as
-- the program has a handler for each method, an announced description has a media, and each SETUP to
-- play gives the same stream, with a media, a format in every media and, for multicast, the writers of
-- the medias.
pub step_total :
    (sv : Server) (now : ℕ) (s : ServerSession) (e : Event)
    → Reachable sv s
    → ServesEvent sv now s e
    → (round : Round) × (step sv now s e ≡ some round)
step_total sv now s e reach serves =
    found (step-Survives sv now s e (Reachable-IsValid sv s reach) serves)
  where
    found : {o : Option Round} → Survives o → (round : Round) × (o ≡ some round)
    found (survives r s1 v) = (_, refl)
    found (stops r why s1 v) = (_, refl)
