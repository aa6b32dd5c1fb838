-- ===== src/Session/PauseValid.antt =====
-- PAUSE and TEARDOWN keep a session valid.
use gortsplib.Common.{
  ℕ, ◌≡◌, refl, Bool, true, false, not, ◌==◌, if◌then◌else◌, Option, none, some, [], ◌∷◌,
  true-ne-false, arith,
}
use gortsplib.Session.{
  state_pre_play, state_play, state_pre_record, state_record, transport_tcp, Response, writer_nil,
  ServerSession, same_state, same_transport, check_state, status_ok,
}
use gortsplib.Session.Methods.{is_live}
use gortsplib.Session.Handle.{pause_live, pause_session, teardown_session}
use gortsplib.Session.Requests.{PathRequest}
use gortsplib.Common.Cases.{if_case, option_case}
use gortsplib.Session.Valid.{is_some, IsValid, Keeps, keeps, transport_case}

-- The session that PAUSE leaves, with its timer and its connection.
abbrev paused : ServerSession → Bool → Option ℕ → ServerSession
paused s timer conn = record s {
  writer = writer_nil;
  reader_active = elim s.setupped_stream [ none ↦ s.reader_active | some st ↦ false ];
  medias_started = false;
  time_decoder = false;
  state = if same_state s.state state_play then state_pre_play else state_pre_record;
  udp_check_stream_timer = timer;
  tcp_conn = conn;
}

paused-IsValid :
    (s : ServerSession) (timer : Bool) (conn : Option ℕ)
    → IsValid s
    → is_live s.state ≡ true
    → timer ≡ false
    → is_some conn ≡ false
    → IsValid (paused s timer conn)
paused-IsValid s timer conn v live et ec = record {
  stream = ground (arith, v.stream);
  announced = ground (arith, v.announced);
  described = v.described;
  transport = λ h. ground (arith, v.transport, v.recorded);
  unicast = λ h. ground (arith, v.unicast);
  recorded = λ h. ground arith;
  fresh = λ h. ground arith;
  apart = v.apart;
  writer = ground arith;
  linked = ground (arith, ec);
  timer = ground (arith, et);
  active = ground (arith, v.active, v.stream);
  started = ground arith;
  own = v.own;
  decoder = ground arith;
}

pause_live-Keeps :
    (s : ServerSession) (res : Response)
    → IsValid s
    → is_live s.state ≡ true
    → Keeps (pause_live s res)
unfolding pause_live
pause_live-Keeps s res v live =
    option_case Keeps s.setupped_transport
      (λ e. absurd (true-ne-false (ground (arith, v.transport, v.recorded, e))))
      (λ t e.
        transport_case Keeps t
          (λ u.
            keeps _ _
              (paused-IsValid s false s.tcp_conn v live refl (ground (arith, v.linked, e, u))))
          (λ u.
            if_case Keeps (same_state s.state state_play)
              (λ p.
                keeps _ _
                  (paused-IsValid s false s.tcp_conn v live refl (ground (arith, v.linked, e, u))))
              (λ p. absurd (true-ne-false (ground (arith, v.unicast, v.recorded, e, u)))))
          (λ u. keeps _ _ (
            paused-IsValid s s.udp_check_stream_timer none v live (ground (arith, v.timer, e, u))
              refl)))

-- The handler of a request is there.
pub pause_session-Keeps :
    (s : ServerSession) (r : PathRequest)
    → IsValid s
    → is_some r.on_request ≡ true
    → Keeps (pause_session s r)
unfolding pause_session
pause_session-Keeps s r v h =
    if_case Keeps
      (not (check_state (state_pre_play ∷ state_play ∷ state_pre_record ∷ state_record ∷ []) s))
      (λ bad. keeps _ _ v)
      (λ good.
        option_case Keeps r.on_request (λ e. absurd (true-ne-false (ground (arith, e))))
          (λ res e.
            if_case Keeps (not (res.status == status_ok)) (λ refused. keeps _ _ v)
              (λ fine.
                if_case Keeps (is_live s.state) (λ live. pause_live-Keeps s res v live)
                  (λ idle. keeps _ _ v))))

pub teardown_session-Keeps : (s : ServerSession) → IsValid s → Keeps (teardown_session s)
unfolding teardown_session
teardown_session-Keeps s v =
    if_case Keeps (is_live s.state)
      (λ live.
        option_case Keeps s.setupped_transport
          (λ e. absurd (true-ne-false (ground (arith, v.transport, v.recorded, e))))
          (λ t e.
            if_case Keeps (same_transport t transport_tcp) (λ tcp. keeps _ _ v)
              (λ other. keeps _ _ v)))
      (λ idle. keeps _ _ v)
