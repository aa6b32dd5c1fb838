-- ===== src/Client/CheckValid.antt =====
-- `doCheckTimeout` and `trySwitchingProtocol` keep a client that plays valid.
use gortsplib.Common.{
  ℕ, ◌≡◌, refl, sym, ap, ◌∙◌, Bool, true, false, not, ◌&&◌, Option, none, some, List, [], ◌∷◌,
  true-ne-false, is_some, arith,
}
use gortsplib.Common.Cases.{if_case, option_case}
use gortsplib.Session.{transport_tcp, same_transport}
use gortsplib.Client.{Url, Net, Config, ClientMedia, Client}
use gortsplib.Client.Describe.{Done, on_done, do_describe}
use gortsplib.Client.Methods.{do_play}
use gortsplib.Client.Setup.{is_unset}
use gortsplib.Client.Loop.{setup_again, try_switching_protocol, do_check_timeout}
use gortsplib.Client.LinkValid.{IsWhole}
use gortsplib.Client.Plays.{Plays, try_switching_protocol-Plays}
use gortsplib.Client.Valid.{is_initial, is_play, IsValid, Keeps, keeps, refuses, on_done-Keeps}
use gortsplib.Client.ResetValid.{IsReset, is_reset, reset-IsReset}
use gortsplib.Client.DescribeValid.{do_describe-Keeps}
use gortsplib.Client.SetupAnswer.{with_transport-IsValid}
use gortsplib.Client.SetupValid.{do_setup-Keeps}
use gortsplib.Client.PlayValid.{do_play-Keeps}

module _ (net : Net) (cfg : Config) (bound default_range now : ℕ) where
  setup_again-Keeps :
      (back : ℕ → Bool) (base : Url) (cms : List ClientMedia) (c : Client)
      → IsValid true c
      → IsWhole c.link
      → Keeps true (setup_again net cfg bound default_range now back base cms c)
  unfolding setup_again
  setup_again-Keeps back base [] c v w = keeps _ _ v w
  setup_again-Keeps back base (cm ∷ cms) c v w =
      on_done-Keeps (setup_again net cfg bound default_range now back base cms)
        (do_setup-Keeps net cfg bound _ c v w)
        (λ c' v' w'. setup_again-Keeps back base cms c' v' w')

  -- The switch to TCP of a client that plays: reset, DESCRIBE, SETUP of each media, PLAY.
  try_switching_protocol-Keeps :
      (back : ℕ → Bool) (c : Client)
      → IsValid true c
      → IsWhole c.link
      → is_initial c.state ≡ false
      → Keeps true (try_switching_protocol net cfg bound default_range now back c)
  unfolding try_switching_protocol
  try_switching_protocol-Keeps back c v w h = from (reset-IsReset net cfg c v w)
    where
      switched : Client → Url → Url → Done
      switched c1 u base =
          on_done
            (do_describe net cfg bound u (record c1 { effective_transport = some transport_tcp }))
            (λ c2.
              on_done (setup_again net cfg bound default_range now back base c.setupped_medias c2)
                (λ c3. do_play net cfg now default_range (some c3.last_range) c3))

      from :
          {o : Option Client}
          → IsReset true o
          → Keeps true (elim o [
            | none ↦ none
            | some c1 ↦ elim c1.last_describe_url [
              | none ↦ none
              | some u ↦ elim c.base_url [ none ↦ none | some base ↦ switched c1 u base ]
            ]
          ])
      from (is_reset c1 v1 w1 s m) =
          option_case (Keeps true) c1.last_describe_url
            (λ e. absurd (true-ne-false (sym (v1.described refl) ∙ ap is_some e)))
            (λ u e.
              option_case (Keeps true) c.base_url
                (λ n. absurd (true-ne-false (sym (v.based h) ∙ ap is_some n)))
                (λ base n.
                  on_done-Keeps
                    (λ c2.
                      on_done
                        (setup_again net cfg bound default_range now back base c.setupped_medias c2)
                        (λ c3. do_play net cfg now default_range (some c3.last_range) c3))
                    (do_describe-Keeps net cfg bound u _
                      (with_transport-IsValid c1 transport_tcp v1 m) w1)
                    (λ c2 v2 w2.
                      on_done-Keeps
                        (λ c3. do_play net cfg now default_range (some c3.last_range) c3)
                        (setup_again-Keeps back base c.setupped_medias c2 v2 w2)
                        (λ c3 v3 w3.
                          do_play-Keeps net cfg now default_range (some c3.last_range) c3 v3 w3))))

  -- The flag of the first check is read by no part of validity.
  with_initial-IsValid :
      {d : Bool} (c : Client) (b : Bool)
      → IsValid d c
      → IsValid d (record c { check_timeout_initial = b })
  with_initial-IsValid c b v = record {
    writer = v.writer;
    decoder = v.decoder;
    started = v.started;
    keepalive = v.keepalive;
    check = v.check;
    transport = v.transport;
    based = v.based;
    linked = v.linked;
    apart = v.apart;
    described = v.described;
    whole = v.whole;
  }

  -- `doCheckTimeout` of a client that plays.
  pub do_check_timeout-Keeps :
      (back : ℕ → Bool) (received late : Bool) (c : Client)
      → IsValid true c
      → IsWhole c.link
      → is_play c.state ≡ true
      → Keeps true (do_check_timeout net cfg bound default_range now back received late c)
  unfolding do_check_timeout
  do_check_timeout-Keeps back received late c v w h =
      option_case (Keeps true) c.effective_transport
        (λ e. absurd (true-ne-false (sym (v.transport (ground (arith, h))) ∙ ap is_some e)))
        (λ t e.
          if_case (Keeps true) (same_transport t transport_tcp)
            (λ u. if_case (Keeps true) late (λ l. refuses _ _ refl v) (λ l. keeps _ _ v w))
            (λ u.
              if_case (Keeps true)
                (c.check_timeout_initial && (not c.back_channel_setupped && is_unset cfg.transport))
                (λ i.
                  let v' = with_initial-IsValid c false v in
                  if_case (Keeps true) received (λ r. keeps _ _ v' w)
                    (λ r. try_switching_protocol-Keeps back _ v' w (ground (arith, h))))
                (λ i. if_case (Keeps true) late (λ l. refuses _ _ refl v) (λ l. keeps _ _ v w))))

  pub do_check_timeout-Plays :
      (back : ℕ → Bool) (received late : Bool) (c : Client)
      → is_play c.state ≡ true
      → Plays (do_check_timeout net cfg bound default_range now back received late c)
  unfolding do_check_timeout
  do_check_timeout-Plays back received late c h =
      option_case Plays c.effective_transport (λ e. tt)
        (λ t e.
          if_case Plays (same_transport t transport_tcp)
            (λ u. if_case Plays late (λ l n. h) (λ l n. h))
            (λ u.
              if_case Plays
                (c.check_timeout_initial && (not c.back_channel_setupped && is_unset cfg.transport))
                (λ i.
                  if_case Plays received (λ r n. h)
                    (λ r. try_switching_protocol-Plays net cfg bound default_range now back _))
                (λ i. if_case Plays late (λ l n. h) (λ l n. h))))
