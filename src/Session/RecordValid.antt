-- ===== src/Session/RecordValid.antt =====
-- RECORD and ANNOUNCE keep a session valid.
use gortsplib.Common.{
  ℕ, ◌<◌, ◌≡◌, refl, sym, subst, Bool, true, not, ◌==◌, Option, some, List, [], ◌∷◌, length,
  true-ne-false, arith,
}
use gortsplib.Session.{
  state_initial, state_pre_record, state_record, Response, Writer, writer_nil, writer_idle,
  writer_running, SessionMedia, ServerSession, Server, same_bytes, check_state, status_ok, ReadFunc,
}
use gortsplib.Session.Methods.{
  buffer_size, record_start, record_handled, record_session, announce_session,
}
use gortsplib.Session.Requests.{AnnounceRequest, PathRequest}
use gortsplib.Common.Cases.{if_case, option_case}
use gortsplib.Session.Valid.{
  is_some, has_medias, has_writer, is_tcp, Described, IsValid, Keeps, keeps, transport_case,
}
use gortsplib.Session.PlayValid.{with_writer-IsValid}

-- RECORD with the writer made.
record_start-Keeps :
    (now sc : ℕ) (s : ServerSession) (res : Response) (n : ℕ)
    → IsValid s
    → s.state ≡ state_pre_record
    → has_medias s.setupped_medias ≡ true
    → Keeps (record_start now sc (record s { writer = writer_idle n }) res)
unfolding record_start
record_start-Keeps now sc s res n v p hm =
    option_case Keeps s.setupped_transport
      (λ e. absurd (true-ne-false (ground (arith, v.transport, hm, e))))
      (λ t e.
        transport_case Keeps t
          (λ u. keeps _ _ (
            live true s.tcp_conn (writer_running n) s.tcp_callbacks (ground (arith, e, u))
              (ground (arith, v.linked, e, u, p)) refl))
          (λ u. absurd (true-ne-false (ground (arith, v.unicast, hm, e, u, p))))
          (λ u. keeps _ _ (
            live s.udp_check_stream_timer (some sc) (writer_idle n) _
              (ground (arith, v.timer, e, u, p)) (ground (arith, e, u)) refl)))
  where
    live :
        (timer : Bool) (conn : Option ℕ) (w : Writer) (cs : List (ℕ × ReadFunc))
        → timer ≡ not (is_tcp s.setupped_transport)
        → is_some conn ≡ is_tcp s.setupped_transport
        → has_writer w ≡ true
        → IsValid (record s {
          state = state_record;
          udp_last_packet_time = now;
          time_decoder = true;
          medias_started = true;
          udp_check_stream_timer = timer;
          writer = w;
          tcp_conn = conn;
          tcp_callbacks = cs;
        })
    live timer conn w cs ht hc hw = record {
      stream = ground (arith, v.stream, p);
      announced = ground (arith, v.announced, p);
      described = v.described;
      transport = λ h. ground (arith, v.transport, hm);
      unicast = λ h. ground (arith, v.unicast, hm, p);
      recorded = λ h. hm;
      fresh = λ h. absurd (true-ne-false (sym h));
      apart = v.apart;
      writer = ground (arith, hw, v.unicast, hm, p);
      linked = hc;
      timer = ht;
      active = ground (arith, v.active, p);
      started = refl;
      own = v.own;
      decoder = refl;
    }

record_handled-Keeps :
    (sv : Server) (now sc : ℕ) (s : ServerSession) (r : PathRequest)
    → IsValid s
    → s.state ≡ state_pre_record
    → has_medias s.setupped_medias ≡ true
    → is_some r.on_request ≡ true
    → Keeps (record_handled sv now sc s r)
unfolding record_handled
record_handled-Keeps sv now sc s r v p hm h =
    option_case Keeps r.on_request (λ n. absurd (true-ne-false (ground (arith, n))))
      (λ res er.
        if_case Keeps (not (res.status == status_ok))
          (λ refused. keeps _ _ (with_writer-IsValid s writer_nil v (ground (arith, v.writer, p))))
          (λ fine. record_start-Keeps now sc s res (buffer_size sv s) v p hm))

has_medias_some : (sms : List SessionMedia) → 0 < length sms → has_medias sms ≡ true
has_medias_some [] h = absurd (omega arith)
has_medias_some (sm ∷ sms) h = refl

pub record_session-Keeps :
    (sv : Server) (now sc : ℕ) (s : ServerSession) (r : PathRequest)
    → IsValid s
    → is_some r.on_request ≡ true
    → Keeps (record_session sv now sc s r)
unfolding record_session
record_session-Keeps sv now sc s r v h =
    if_case Keeps (not (check_state (state_pre_record ∷ []) s)) (λ bad. keeps _ _ v)
      (λ good.
        let p : s.state ≡ state_pre_record = unfold check_state in ground (arith, good) in
        option_case Keeps s.announced_desc
          (λ n. absurd (true-ne-false (ground (arith, v.announced, n, p))))
          (λ medias em.
            if_case Keeps (not (length s.setupped_medias == length medias)) (λ bad. keeps _ _ v)
              (λ all.
                if_case Keeps (not (same_bytes r.request_path s.setupped_path))
                  (λ moved. keeps _ _ v)
                  (λ same.
                    let d : 0 < length medias = subst Described em v.described in
                    record_handled-Keeps sv now sc s r v p
                      (has_medias_some s.setupped_medias (ground (arith, all, d))) h))))

-- What the environment owes to an ANNOUNCE: a handler, and an SDP with one media at least.
pub record ServesAnnounce (r : AnnounceRequest) : Type 0 where
  pub handler : is_some r.on_announce ≡ true
  pub medias : Described r.description

pub announce_session-Keeps :
    (s : ServerSession) (r : AnnounceRequest)
    → IsValid s
    → ServesAnnounce r
    → Keeps (announce_session s r)
unfolding announce_session
announce_session-Keeps s r v h =
    if_case Keeps (not (check_state (state_initial ∷ []) s)) (λ bad. keeps _ _ v)
      (λ good.
        let p : s.state ≡ state_initial = unfold check_state in ground (arith, good) in
        option_case Keeps r.content_type_count (λ n. keeps _ _ v)
          (λ n en.
            if_case Keeps (not (n == 1)) (λ bad. keeps _ _ v)
              (λ one.
                if_case Keeps (not r.is_sdp) (λ bad. keeps _ _ v)
                  (λ sdp.
                    option_case Keeps r.description (λ e. keeps _ _ v)
                      (λ medias em.
                        option_case Keeps r.on_announce
                          (λ e. absurd (true-ne-false (ground (arith, h.handler, e))))
                          (λ res er.
                            if_case Keeps (not (res.status == status_ok)) (λ refused. keeps _ _ v)
                              (λ fine. keeps _ _ record {
                                stream = ground (arith, v.stream, p);
                                announced = refl;
                                described = subst Described em h.medias;
                                transport =
                                    λ q. absurd (true-ne-false (ground (arith, v.fresh, p, q)));
                                unicast =
                                    λ q. absurd (true-ne-false (ground (arith, v.fresh, p, q)));
                                fresh = λ q. ground arith;
                                recorded = λ q. ground arith;
                                apart = v.apart;
                                writer = ground (arith, v.writer, p);
                                linked = ground (arith, v.linked, p);
                                timer = ground (arith, v.timer, p);
                                active = ground (arith, v.active, p);
                                started = ground (arith, v.started, p);
                                own = v.own;
                                decoder = ground (arith, v.decoder, p);
                              })))))))
