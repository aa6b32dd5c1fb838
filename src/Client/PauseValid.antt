-- ===== src/Client/PauseValid.antt =====
-- `doPause` keeps a client valid.
use gortsplib.Common.{
  ◌≡◌, refl, sym, ◌∙◌, Bool, true, false, not, none, [], ◌∷◌, true-ne-false, ◌==◌, arith,
}
use gortsplib.Common.Cases.{if_case, some_case}
use gortsplib.Session.{Writer, writer_nil}
use gortsplib.Session.Valid.{has_writer}
use gortsplib.Client.{
  ClientState, client_play, client_record, check_client_state, Net, Config, Link, Client, reply,
  nothing, failed, unfinished,
}
use gortsplib.Client.Exchange.{Act, do_request}
use gortsplib.Client.Routines.{
  is_live, stop_transport_routines, create_writer, destroy_writer, run_writer,
}
use gortsplib.Client.Methods.{resume, pause_answered, do_pause}
use gortsplib.Client.LinkValid.{IsWhole, Acts, works, fails}
use gortsplib.Client.Valid.{IsValid, Keeps, keeps, refuses, with_link-IsValid, open-IsValid}
use gortsplib.Client.ResetValid.{destroy_writer-is_some}
use gortsplib.Client.LiveValid.{frames, stopped-IsValid}
use gortsplib.Client.PlayValid.{request-Acts}

module _ (net : Net) (cfg : Config) where
  with_writer-IsValid :
      {d : Bool} (c : Client) (wr : Writer)
      → IsValid d c
      → has_writer wr ≡ is_live c.state
      → IsValid d (record c { writer = wr })
  with_writer-IsValid c wr v e = record {
    writer = e;
    decoder = v.decoder;
    started = v.started;
    keepalive = v.keepalive;
    check = v.check;
    transport = v.transport;
    based = v.based;
    linked = v.linked;
    apart = v.apart;
    described = v.described;
    whole = v.whole;
  }

  resumed :
      {d : Bool} (c : Client) (l : Link) (wr : Writer)
      → is_live c.state ≡ true
      → has_writer wr ≡ true
      → IsValid d (record c { link = l })
      → IsValid d (record c { link = l; writer = wr })
  resumed c l wr h e v = with_writer-IsValid (record c { link = l }) wr v (e ∙ sym h)

  -- What comes of the request of PAUSE: the client stops, or has a new writer.
  pause_answered-Keeps :
      {d : Bool} (c : Client) {o : Act}
      → IsValid d c
      → is_live c.state ≡ true
      → Acts true false o
      → Keeps d (pause_answered net cfg (record c { writer = writer_nil }) o)
  unfolding pause_answered resume create_writer run_writer
  pause_answered-Keeps {d} c v h (works (reply a) l i p) =
      if_case (Keeps d) (a.status == 200)
        (λ e.
          keeps _ _
            (stopped-IsValid (record c { link = l }) _ (open-IsValid c l v p) h (ground (arith, h)))
            (unfold stop_transport_routines in (frames false l.reader ∙ p.1 ∙ sym p.0)))
        (λ e. refuses _ _ refl (resumed c l _ h refl (open-IsValid c l v p)))
  pause_answered-Keeps {d} c v h (works nothing l i p) = absurd (true-ne-false (sym i))
  pause_answered-Keeps {d} c v h (works (failed e) l i p) = absurd (true-ne-false (sym i))
  pause_answered-Keeps {d} c v h (works unfinished l i p) = absurd (true-ne-false (sym i))
  pause_answered-Keeps {d} c v h (fails (reply a) l e m w) = absurd (true-ne-false (sym e))
  pause_answered-Keeps {d} c v h (fails nothing l e m w) = absurd (true-ne-false (sym e))
  pause_answered-Keeps {d} c v h (fails (failed e) l x m w) =
      refuses _ _ refl (resumed c l _ h refl (with_link-IsValid c l v (λ q. m refl) w))
  pause_answered-Keeps {d} c v h (fails unfinished l x m w) =
      refuses _ _ refl (resumed c l _ h refl (with_link-IsValid c l v (λ q. m refl) w))

  -- `doPause` does not panic and keeps a client valid, in every state.
  pub do_pause-Keeps :
      {d : Bool} (c : Client) → IsValid d c → IsWhole c.link → Keeps d (do_pause net cfg c)
  unfolding do_pause check_client_state
  do_pause-Keeps {d} c v w =
      if_case (Keeps d) (not (check_client_state (client_play ∷ client_record ∷ []) c.state))
        (λ h. refuses _ _ refl v)
        (λ h.
          let live = live_checked c.state h in
          let n = v.linked (ground (arith, live)) in
          some_case (Keeps d) (destroy_writer net cfg c) none
            (λ c1.
              pause_answered net cfg c1
                (do_request net cfg c1.state c1.conn_url c1.base_url c1.link))
            (destroy_writer-is_some net cfg c (v.writer ∙ live))
            (pause_answered-Keeps c v live (request-Acts net cfg c v live (n, w ∙ n) c.state)))
    where
      live_checked :
          (s : ClientState)
          → not (check_client_state (client_play ∷ client_record ∷ []) s) ≡ false
          → is_live s ≡ true
      live_checked s h = ground (arith, h)
