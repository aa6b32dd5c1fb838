-- ===== src/Session/Answered.antt =====
-- Every request of a valid session is answered, and leaves it valid.
use gortsplib.Common.{
  ℕ, ◌≡◌, refl, sym, ap, ◌∙◌, subst, true, false, not, ◌==◌, ◌&&◌, Option, none, some, some-inj, [],
  ◌∷◌, true-ne-false, arith,
}
use gortsplib.Session.{
  state_initial, state_pre_play, state_pre_record, Transport, Response, Stream, ServerSession,
  Server, same_state, same_bytes, check_state, status_ok,
}
use gortsplib.Session.Requests.{
  TransportHeader, Target, SetupRequest, Request, options, announce, setup, play, record_stream,
  pause, teardown, get_parameter, set_parameter, other_method,
}
use gortsplib.Session.Setup.{
  find_first_supported_transport_header, transport_of, is_for_play, differs, check_transport,
  check_mode, find_media, setup_handled, setup_checked, setup_session,
}
use gortsplib.Session.Methods.{is_live}
use gortsplib.Session.Handle.{is_other_conn, handle_method, handle_request}
use gortsplib.Common.Cases.{if_case, option_case}
use gortsplib.Session.Valid.{is_some, is_multicast, IsValid, Keeps, keeps}
use gortsplib.Session.SetupAdds.{media_of-Made}
use gortsplib.Session.SetupValid.{
  HasStream, ServesSetup, Ready, setup_media-Keeps, find_media-Found, find_media-InStream,
}
use gortsplib.Session.PauseValid.{pause_session-Keeps, teardown_session-Keeps}
use gortsplib.Session.PlayValid.{play_session-Keeps}
use gortsplib.Session.RecordValid.{record_session-Keeps, ServesAnnounce, announce_session-Keeps}

setup_handled-Keeps :
    (s : ServerSession) (r : SetupRequest) (th : TransportHeader) (t : Transport) (tg : Target)
    → IsValid s
    → Ready s t
    → ServesSetup s r
    → check_transport s th t ≡ none
    → Keeps (setup_handled s r th t tg)
unfolding setup_handled
setup_handled-Keeps s r th t tg v ready (res0, stream0, e0, hs0) ports =
    option_case Keeps r.on_setup (λ n. absurd (true-ne-false (ground (arith, n, e0))))
      (λ rs e.
        if_case Keeps (not (rs.0.status == status_ok)) (λ refused. keeps _ _ v)
          (λ fine.
            let same : (res0, stream0) ≡ rs = some-inj (sym e0 ∙ e) in
            let hs : is_for_play s.state ≡ true → HasStream s.setupped_stream rs.1 = λ p.
              subst
                (λ (x : Response × Option Stream).
                  ((x.0.status == status_ok && is_for_play s.state) ≡ true
                    → HasStream s.setupped_stream x.1))
                same hs0 (ground (arith, fine, p)) in
            let found = find_media-Found s r tg rs.1 v ready.idle hs in
            option_case Keeps (find_media s r tg rs.1)
              (λ n. absurd (true-ne-false (ground (arith, n, found.1))))
              (λ found' q.
                option_case Keeps found' (λ n. keeps _ _ v)
                  (λ m eq.
                    setup_media-Keeps s th t tg rs.1 m rs.0 v ready hs
                      (λ p. find_media-InStream s r tg rs.1 m p (q ∙ ap some eq))
                      (media_of-Made s th t m ports)))))

not_multicast :
    (th : TransportHeader) (t : Transport)
    → check_mode false th t ≡ none
    → is_multicast (some t) ≡ false
unfolding check_mode
not_multicast th t h = ground (arith, h)

setup_checked-Keeps :
    (s : ServerSession) (r : SetupRequest) (th : TransportHeader) (t : Transport) (tg : Target)
    → IsValid s
    → is_live s.state ≡ false
    → ServesSetup s r
    → Keeps (setup_checked s r th t tg)
unfolding setup_checked
setup_checked-Keeps s r th t tg v idle serves =
    if_case Keeps (differs s.setupped_transport t) (λ other. keeps _ _ v)
      (λ same.
        option_case Keeps (check_transport s th t)
          (λ ports.
            option_case Keeps (check_mode (is_for_play s.state) th t)
              (λ mode.
                setup_handled-Keeps s r th t tg v
                  (record {
                    idle = idle;
                    same = same;
                    unicast = λ p.
                        not_multicast th t
                          (subst (λ b. check_mode b th t ≡ none) (ground (arith, p)) mode);
                  })
                  serves ports)
              (λ res e. keeps _ _ v))
          (λ bad e. keeps _ _ v))

setup_session-Keeps :
    (sv : Server) (s : ServerSession) (r : SetupRequest)
    → IsValid s
    → ServesSetup s r
    → Keeps (setup_session sv s r)
unfolding setup_session
setup_session-Keeps sv s r v serves =
    if_case Keeps (not (check_state (state_initial ∷ state_pre_play ∷ state_pre_record ∷ []) s))
      (λ bad. keeps _ _ v)
      (λ good.
        let idle : is_live s.state ≡ false = unfold check_state in ground (arith, good) in
        option_case Keeps r.transports (λ n. keeps _ _ v)
          (λ ths e.
            option_case Keeps (find_first_supported_transport_header sv ths) (λ n. keeps _ _ v)
              (λ th f.
                if_case Keeps (is_for_play s.state)
                  (λ playing.
                    option_case Keeps r.target (λ n. keeps _ _ v)
                      (λ tg g.
                        if_case Keeps
                          (same_state s.state state_pre_play
                            && not (same_bytes tg.path s.setupped_path))
                          (λ moved. keeps _ _ v)
                          (λ same. setup_checked-Keeps s r th (transport_of th) tg v idle serves)))
                  (λ publishing. setup_checked-Keeps s r th (transport_of th) _ v idle serves))))

-- What the environment owes to a request: a handler for it, a media in an announced description, and
-- for a session that is to play the same stream each time, with what an answer reads of it.
abbrev pub Serves : ServerSession → Request → Type 0
Serves s (announce r) = ServesAnnounce r
Serves s (setup r) = ServesSetup s r
Serves s (play r) = is_some r.on_request ≡ true
Serves s (record_stream r) = is_some r.on_request ≡ true
Serves s (pause r) = is_some r.on_request ≡ true
Serves s _ = Unit

handle_method-Keeps :
    (sv : Server) (now sc : ℕ) (s : ServerSession) (req : Request)
    → IsValid s
    → Serves s req
    → Keeps (handle_method sv now sc s req)
unfolding handle_method
handle_method-Keeps sv now sc s options v h = keeps _ _ v
handle_method-Keeps sv now sc s (announce r) v h = announce_session-Keeps s r v h
handle_method-Keeps sv now sc s (setup r) v h = setup_session-Keeps sv s r v h
handle_method-Keeps sv now sc s (play r) v h = play_session-Keeps sv now sc s r v h
handle_method-Keeps sv now sc s (record_stream r) v h = record_session-Keeps sv now sc s r v h
handle_method-Keeps sv now sc s (pause r) v h = pause_session-Keeps s r v h
handle_method-Keeps sv now sc s teardown v h = teardown_session-Keeps s v
handle_method-Keeps sv now sc s (get_parameter (some res)) v h = keeps _ _ v
handle_method-Keeps sv now sc s (get_parameter none) v h = keeps _ _ v
handle_method-Keeps sv now sc s (set_parameter (some res)) v h = keeps _ _ v
handle_method-Keeps sv now sc s (set_parameter none) v h = keeps _ _ v
handle_method-Keeps sv now sc s other_method v h = keeps _ _ v

handle_request-Keeps :
    (sv : Server) (now sc : ℕ) (s : ServerSession) (req : Request)
    → IsValid s
    → Serves s req
    → Keeps (handle_request sv now sc s req)
unfolding handle_request
handle_request-Keeps sv now sc s req v h =
    if_case Keeps (is_other_conn s.tcp_conn sc) (λ other. keeps _ _ v)
      (λ own. handle_method-Keeps sv now sc s req v h)

-- The handler of a session answers any request of a valid session without a panic, and the session
-- after it is valid: its stream, announced description, writer, timer, connection and time decoder
-- are there exactly in the states (and with the transports) that use them; where it reads or has
-- medias it has a transport; its medias are medias of the stream that it reads; and over TCP no two of
-- them share a channel. The program has a handler of the method, an announced description has a media,
-- and a SETUP to play gives the stream that the session reads already, if it reads one, with a media, a
-- format in every media and, for multicast, the writers of the medias.
pub handle_request-IsValid :
    (sv : Server) (now sc : ℕ) (s : ServerSession) (req : Request)
    → IsValid s
    → Serves s req
    → (res : Response) × (s' : ServerSession) × (handle_request sv now sc s req ≡ some (res, s'))
      × IsValid s'
handle_request-IsValid sv now sc s req v h = answered (handle_request-Keeps sv now sc s req v h)
  where
    answered :
        {a : Option (Response × ServerSession)}
        → Keeps a
        → (res : Response) × (s' : ServerSession) × (a ≡ some (res, s')) × IsValid s'
    answered (keeps res s' v') = (res, s', refl, v')
