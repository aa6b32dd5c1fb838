-- ===== src/Client/PlayValid.antt =====
-- `doPlay` and `doRecord` keep a client valid.
use gortsplib.Common.{
  ℕ, ◌≡◌, refl, sym, ◌∙◌, subst, Bool, true, false, not, Option, none, some, [], ◌∷◌, true-ne-false,
  is_some, ◌==◌, arith,
}
use gortsplib.Common.Cases.{if_case, some_case}
use gortsplib.Session.{writer_idle, writer_running}
use gortsplib.Client.{
  ClientState, client_pre_play, client_play, client_pre_record, client_record, check_client_state,
  bad_status_code, Net, Config, Link, Client, Reply, reply, nothing, failed, unfinished,
}
use gortsplib.Client.Exchange.{Act, do_request}
use gortsplib.Client.Routines.{
  is_live, stop_transport_routines, create_writer, destroy_writer, run_writer,
}
use gortsplib.Client.Describe.{Done}
use gortsplib.Client.Methods.{on_client, roll_back, concluded, do_play, do_record}
use gortsplib.Client.LinkValid.{is_failure, IsWhole, IsOpen, Acts, works, fails, do_request-Acts}
use gortsplib.Client.Valid.{IsValid, Keeps, keeps, refuses, with_link-IsValid, open-IsValid}
use gortsplib.Client.ResetValid.{destroy_writer-is_some}
use gortsplib.Client.MethodsValid.{base-is_some}
use gortsplib.Client.LiveValid.{
  is_paused, IsStarted, is_started, start_transport_routines-IsStarted, ranged-IsValid,
  stopped-IsValid,
}

abbrev pub is_pre_record : ClientState → Bool
is_pre_record client_pre_record = true
is_pre_record _ = false

module _ (net : Net) (cfg : Config) where
  -- A request on the base URL, which is there.
  pub request-Acts :
      {d : Bool} (c : Client)
      → IsValid d c
      → is_live c.state ≡ true
      → IsOpen c.link
      → (s : ClientState) → Acts true false (do_request net cfg s c.conn_url c.base_url c.link)
  request-Acts c v h p s =
      let (u, e) = base-is_some net cfg c v (ground (arith, h)) in
      subst (λ o. Acts true false (do_request net cfg s c.conn_url o c.link)) (sym e)
        (do_request-Acts net cfg s c.conn_url u c.link p)

  roll_back-refuses :
      {d : Bool} (before : ClientState) (r : Reply) (c : Client)
      → IsValid d c
      → is_live c.state ≡ true
      → is_paused before ≡ true
      → is_failure r ≡ true
      → Keeps d (roll_back net cfg before r c)
  unfolding roll_back
  roll_back-refuses {d} before r c v h s f =
      some_case (Keeps d) (destroy_writer net cfg c) none
        (λ c1. some (r, record (stop_transport_routines c1) { state = before }))
        (destroy_writer-is_some net cfg c (v.writer ∙ h))
        (refuses _ _ f (stopped-IsValid c before v h s))

  -- What comes of the request: the client goes on, or it is what it was before.
  concluded-Keeps :
      {d : Bool} (before : ClientState) {o : Act} (c : Client) (start : Client → Done)
      → IsValid d c
      → is_live c.state ≡ true
      → is_paused before ≡ true
      → c.link.nconn ≡ true
      → Acts true false o
      → ((l : Link)
          → IsOpen l
          → IsValid d (record c { link = l })
          → Keeps d (start (record c { link = l })))
      → Keeps d (concluded net cfg before o c start)
  unfolding concluded
  concluded-Keeps {d} before c start v h s n (works (reply a) l i p) f =
      if_case (Keeps d) (a.status == 200) (λ e. f l p (open-IsValid c l v p))
        (λ e.
          roll_back-refuses before (failed (bad_status_code a.status)) (record c { link = l })
            (open-IsValid c l v p) h s refl)
  concluded-Keeps before c start v h s n (works nothing l i p) f = absurd (true-ne-false (sym i))
  concluded-Keeps before c start v h s n (works (failed e) l i p) f = absurd (true-ne-false (sym i))
  concluded-Keeps before c start v h s n (works unfinished l i p) f = absurd (true-ne-false (sym i))
  concluded-Keeps before c start v h s n (fails (reply a) l e m w) f =
      absurd (true-ne-false (sym e))
  concluded-Keeps before c start v h s n (fails nothing l e m w) f = absurd (true-ne-false (sym e))
  concluded-Keeps before c start v h s n (fails (failed e) l x m w) f =
      roll_back-refuses before (failed e) (record c { link = l })
        (with_link-IsValid c l v (λ q. m refl) w) h s refl
  concluded-Keeps before c start v h s n (fails unfinished l x m w) f =
      roll_back-refuses before unfinished (record c { link = l })
        (with_link-IsValid c l v (λ q. m refl) w) h s refl

  -- PLAY and RECORD from the routines on; `touch` is a change that validity does not read.
  begin-Keeps :
      {d : Bool} (now : ℕ) (before : ClientState) (touch : Client → Client) {o : Option Client}
      → is_paused before ≡ true
      → ((c : Client) → IsValid d c → IsValid d (touch c))
      → ((c : Client) → (touch c).link ≡ c.link)
      → IsStarted d o
      → Keeps d (
          on_client o (λ c1.
            let c2 = create_writer net cfg c1 in
            concluded net cfg before
              (do_request net cfg c2.state c2.conn_url c2.base_url c2.link)
              c2
              (λ c3. on_client (run_writer net cfg c3) (λ c4. some (nothing, touch c4)))))
  unfolding create_writer run_writer
  begin-Keeps now before touch s t same (is_started c f p h) =
      let v = f (writer_idle _) refl in
      concluded-Keeps before _ _ v h s p.0 (request-Acts _ v h p _) (λ l q v'.
        keeps _ _
          (t _ (with_link-IsValid _ l (f (writer_running _) refl) (λ n. q.0) (λ m. q.1 ∙ sym q.0)))
          (subst IsWhole (sym (same _)) (q.1 ∙ sym q.0)))

  -- `doPlay` does not panic and keeps a client valid, in every state.
  pub do_play-Keeps :
      {d : Bool} (now default_range : ℕ) (range : Option ℕ) (c : Client)
      → IsValid d c
      → IsWhole c.link
      → Keeps d (do_play net cfg now default_range range c)
  unfolding do_play check_client_state
  do_play-Keeps {d} now default_range range c v w =
      if_case (Keeps d) (not (check_client_state (client_pre_play ∷ []) c.state))
        (λ h. refuses _ _ refl v)
        (λ h.
          let ra = elim range as (λ r. ℕ) [ none ↦ default_range | some r ↦ r ] in
          begin-Keeps now client_pre_play (λ c4. record c4 { last_range = ra }) refl
            (λ c4 v4. ranged-IsValid c4 ra v4) (λ c4. refl)
            (start_transport_routines-IsStarted now c client_play v w (ground (arith, h)) refl
              (v.transport (ground (arith, h)))))

  -- `doRecord` does not panic and keeps a client valid, in every state, if in the state PreRecord a
  -- media was set up.
  pub do_record-Keeps :
      {d : Bool} (now : ℕ) (c : Client)
      → IsValid d c
      → IsWhole c.link
      → (is_pre_record c.state ≡ true → is_some c.effective_transport ≡ true)
      → Keeps d (do_record net cfg now c)
  unfolding do_record check_client_state
  do_record-Keeps {d} now c v w t =
      if_case (Keeps d) (not (check_client_state (client_pre_record ∷ []) c.state))
        (λ h. refuses _ _ refl v)
        (λ h.
          begin-Keeps now client_pre_record (λ c4. c4) refl (λ c4 v4. v4) (λ c4. refl)
            (start_transport_routines-IsStarted now c client_record v w (ground (arith, h)) refl
              (t (ground (arith, h)))))
