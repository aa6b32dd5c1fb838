-- ===== src/Client/Plays.antt =====
-- PLAY, and a switch of transport that plays again, leave a client in the state Play.
use gortsplib.Common.{
  ℕ, ◌≡◌, refl, sym, ap, ◌∙◌, Bool, true, false, not, Option, none, some, [], ◌∷◌, true-ne-false,
  ◌==◌,
}
use gortsplib.Common.Cases.{if_case, option_case}
use gortsplib.Session.{transport_tcp}
use gortsplib.Client.{
  ClientState, client_pre_play, client_play, check_client_state, Net, Config, Link, Client,
  is_reader, Reply, reply, nothing, failed, unfinished,
}
use gortsplib.Client.Routines.{
  reset, destroy_writer, start_transport_routines, create_writer, run_writer,
}
use gortsplib.Client.Exchange.{Act, do_request}
use gortsplib.Client.Describe.{Done, on_done, do_describe}
use gortsplib.Client.Methods.{on_client, roll_back, concluded, do_play}
use gortsplib.Client.Loop.{setup_again, try_switching_protocol}
use gortsplib.Client.LinkValid.{is_failure}
use gortsplib.Client.Valid.{is_play}
use gortsplib.Session.Valid.{transport_case}

-- Without a failure, the client plays.
abbrev pub Plays : Done → Type 0
Plays none = Unit
Plays (some (r, c)) = is_failure r ≡ false → is_play c.state ≡ true

on_done-Plays : (o : Done) (k : Client → Done) → ((c : Client) → Plays (k c)) → Plays (on_done o k)
on_done-Plays none k f = tt
on_done-Plays (some (reply a, c)) k f = f c
on_done-Plays (some (nothing, c)) k f = f c
on_done-Plays (some (failed e, c)) k f = λ h. absurd (true-ne-false h)
on_done-Plays (some (unfinished, c)) k f = λ h. absurd (true-ne-false h)

abbrev IsIn : ClientState → Option Client → Type 0
IsIn s none = Unit
IsIn s (some c) = c.state ≡ s

module _ (net : Net) (cfg : Config) (bound default_range now : ℕ) where
  start_transport_routines-IsIn : (c : Client) → IsIn c.state (start_transport_routines now c)
  unfolding start_transport_routines
  start_transport_routines-IsIn c =
      option_case (IsIn c.state) c.effective_transport (λ e. tt)
        (λ t e.
          transport_case (IsIn c.state) t (λ u. refl) (λ u. refl)
            (λ u. if_case (IsIn c.state) (not (is_reader c.link.reader)) (λ r. tt) (λ r. refl)))

  rolled_back :
      (before : ClientState) (r : Reply) (c : Client)
      → is_failure r ≡ true
      → Plays (roll_back net cfg before r c)
  unfolding roll_back
  rolled_back before r c f =
      option_case Plays (destroy_writer net cfg c) (λ e. tt)
        (λ c1 e h. absurd (true-ne-false (sym f ∙ h)))

  concluded-Plays :
      (o : Act) (c : Client) (start : Client → Done)
      → ((l : Link) → Plays (start (record c { link = l })))
      → Plays (concluded net cfg client_pre_play o c start)
  unfolding concluded
  concluded-Plays none c start f = tt
  concluded-Plays (some (reply a, l)) c start f =
      if_case Plays (a.status == 200) (λ e. f l) (λ e. rolled_back client_pre_play _ _ refl)
  concluded-Plays (some (nothing, l)) c start f = tt
  concluded-Plays (some (failed e, l)) c start f = rolled_back client_pre_play _ _ refl
  concluded-Plays (some (unfinished, l)) c start f = rolled_back client_pre_play _ _ refl

  -- PLAY either fails, or leaves the client in the state Play.
  pub do_play-Plays :
      (range : Option ℕ) (c : Client) → Plays (do_play net cfg now default_range range c)
  unfolding do_play create_writer run_writer
  do_play-Plays range c =
      if_case Plays (not (check_client_state (client_pre_play ∷ []) c.state))
        (λ h h'. absurd (true-ne-false h'))
        (λ h. from _ (start_transport_routines-IsIn (record c { state = client_play })))
    where
      ra : ℕ
      ra = elim range as (λ r. ℕ) [ none ↦ default_range | some v ↦ v ]

      from :
          (o : Option Client)
          → IsIn client_play o
          → Plays (
              on_client o (λ c1.
                let c2 = create_writer net cfg c1 in
                concluded net cfg client_pre_play
                  (do_request net cfg c2.state c2.conn_url c2.base_url c2.link)
                  c2
                  (λ c3.
                    on_client
                      (run_writer net cfg c3)
                      (λ c4. some (nothing, record c4 { last_range = ra })))))
      from none i = tt
      from (some c1) i =
          let c2 = create_writer net cfg c1 in
          concluded-Plays (do_request net cfg c2.state c2.conn_url c2.base_url c2.link) c2
            (λ c3.
              on_client (run_writer net cfg c3)
                (λ c4. some (nothing, record c4 { last_range = ra })))
            (λ l h. ap is_play i)

  pub try_switching_protocol-Plays :
      (back : ℕ → Bool) (c : Client)
      → Plays (try_switching_protocol net cfg bound default_range now back c)
  unfolding try_switching_protocol
  try_switching_protocol-Plays back c =
      option_case Plays (reset net cfg c) (λ e. tt)
        (λ c1 e.
          option_case Plays c1.last_describe_url (λ n. tt)
            (λ u n.
              option_case Plays c.base_url (λ m. tt)
                (λ base m.
                  on_done-Plays
                    (do_describe net cfg bound u
                      (record c1 { effective_transport = some transport_tcp }))
                    (λ c2.
                      on_done
                        (setup_again net cfg bound default_range now back base c.setupped_medias c2)
                        (λ c3. do_play net cfg now default_range (some c3.last_range) c3))
                    (λ c2.
                      on_done-Plays
                        (setup_again net cfg bound default_range now back base c.setupped_medias c2)
                        (λ c3. do_play net cfg now default_range (some c3.last_range) c3)
                        (λ c3. do_play-Plays (some c3.last_range) c3)))))
