-- ===== src/Session/PlayValid.antt =====
-- PLAY keeps a session valid.
use gortsplib.Common.{
  ℕ, ◌≡◌, refl, subst, ◌∙◌, Bool, true, not, ◌==◌, ◌&&◌, Option, some, List, [], ◌∷◌, true-ne-false,
  arith,
}
use gortsplib.Session.{
  state_pre_play, state_play, Transport, Response, Writer, ServerSession, Server, same_state,
  same_bytes, check_state, status_ok, ReadFunc,
}
use gortsplib.Session.Methods.{start_writer, has_all, play_start, play_handled, play_session}
use gortsplib.Session.Requests.{PathRequest}
use gortsplib.Common.Cases.{if_case, option_case}
use gortsplib.Session.Valid.{
  is_some, has_writer, is_tcp, is_multicast, Owns, IsValid, Keeps, keeps, transport_case,
}

-- A writer that is there exactly if the session's is, in its place.
pub with_writer-IsValid :
    (s : ServerSession) (w : Writer)
    → IsValid s
    → has_writer w ≡ has_writer s.writer
    → IsValid (record s { writer = w })
with_writer-IsValid s w v e = record {
  stream = v.stream;
  announced = v.announced;
  described = v.described;
  transport = v.transport;
  unicast = v.unicast;
  recorded = v.recorded;
  fresh = v.fresh;
  apart = v.apart;
  writer = e ∙ v.writer;
  linked = v.linked;
  timer = v.timer;
  active = v.active;
  started = v.started;
  own = v.own;
  decoder = v.decoder;
}

-- PLAY in the state PrePlay with the transport `t`, and the writer made.
play_start-Keeps :
    (now sc : ℕ) (s : ServerSession) (t : Transport) (res : Response) (w : Writer)
    → IsValid s
    → s.state ≡ state_pre_play
    → s.setupped_transport ≡ some t
    → has_writer w ≡ not (is_multicast (some t))
    → Keeps (play_start now sc (record s { writer = w }) t res)
unfolding play_start
play_start-Keeps now sc s t res w v p e hw =
    option_case Keeps s.setupped_stream
      (λ n. absurd (true-ne-false (ground (arith, v.stream, n, p))))
      (λ st es.
        if_case Keeps (not (has_all st.stream_medias s.setupped_medias))
          (λ z.
            absurd
              (true-ne-false (ground (arith, z, subst (λ o. Owns o s.setupped_medias) es v.own))))
          (λ z.
            transport_case Keeps t
              (λ u.
                option_case Keeps (start_writer w)
                  (λ n. absurd (true-ne-false (ground (arith, hw, n, u))))
                  (λ w' ew. keeps _ _ (
                    live true s.tcp_conn w' s.tcp_callbacks (ground (arith, u))
                      (ground (arith, v.linked, u, p)) (ground (arith, ew, u)))))
              (λ u. keeps _ _ (
                live true s.tcp_conn w s.tcp_callbacks (ground (arith, u))
                  (ground (arith, v.linked, u, p)) hw))
              (λ u. keeps _ _ (
                live s.udp_check_stream_timer (some sc) w _ (ground (arith, v.timer, p, u))
                  (ground (arith, u)) hw))))
  where
    live :
        (timer : Bool) (conn : Option ℕ) (w' : Writer) (cs : List (ℕ × ReadFunc))
        → timer ≡ not (is_tcp (some t))
        → is_some conn ≡ is_tcp (some t)
        → has_writer w' ≡ not (is_multicast (some t))
        → IsValid (record s {
          state = state_play;
          udp_last_packet_time = now;
          time_decoder = true;
          medias_started = true;
          reader_active = true;
          udp_check_stream_timer = timer;
          writer = w';
          tcp_conn = conn;
          tcp_callbacks = cs;
        })
    live timer conn w' cs ht hc hw' = record {
      stream = ground (arith, v.stream, p);
      announced = ground (arith, v.announced, p);
      described = v.described;
      transport = λ h. ground (arith, e);
      unicast = λ h. ground arith;
      recorded = λ h. ground arith;
      fresh = λ h. ground arith;
      apart = v.apart;
      writer = ground (arith, hw', e);
      linked = ground (arith, hc, e);
      timer = ground (arith, ht, e);
      active = refl;
      started = refl;
      own = v.own;
      decoder = refl;
    }

play_handled-Keeps :
    (sv : Server) (now sc : ℕ) (s : ServerSession) (t : Transport) (r : PathRequest)
    → IsValid s
    → s.state ≡ state_pre_play
    → s.setupped_transport ≡ some t
    → is_some r.on_request ≡ true
    → Keeps (play_handled sv now sc s t r)
unfolding play_handled
play_handled-Keeps sv now sc s t r v p e h =
    option_case Keeps r.on_request (λ n. absurd (true-ne-false (ground (arith, n))))
      (λ res er.
        if_case Keeps (not (res.status == status_ok))
          (λ refused. keeps _ _ (with_writer-IsValid s _ v (ground (arith, v.writer, p))))
          (λ fine. play_start-Keeps now sc s t res _ v p e (ground (arith, v.writer, e, p))))

pub play_session-Keeps :
    (sv : Server) (now sc : ℕ) (s : ServerSession) (r : PathRequest)
    → IsValid s
    → is_some r.on_request ≡ true
    → Keeps (play_session sv now sc s r)
unfolding play_session
play_session-Keeps sv now sc s r v h =
    if_case Keeps (not (check_state (state_pre_play ∷ state_play ∷ []) s)) (λ bad. keeps _ _ v)
      (λ good.
        if_case Keeps
          (same_state s.state state_pre_play && not (same_bytes r.request_path s.setupped_path))
          (λ moved. keeps _ _ v)
          (λ same.
            if_case Keeps (same_state s.state state_play)
              (λ twice.
                option_case Keeps r.on_request (λ n. absurd (true-ne-false (ground (arith, n))))
                  (λ res er. keeps _ _ v))
              (λ once.
                let p : s.state ≡ state_pre_play =
                  unfold check_state in ground (arith, good, once) in
                option_case Keeps s.setupped_transport
                  (λ n. absurd (true-ne-false (ground (arith, v.transport, n, p))))
                  (λ t e. play_handled-Keeps sv now sc s t r v p e h))))
