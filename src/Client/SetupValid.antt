-- ===== src/Client/SetupValid.antt =====
-- `doSetup` keeps a client valid.
use gortsplib.Common.{
  ℕ, zero, suc, ◌≡◌, refl, sym, ap, ◌∙◌, subst, true, false, not, ◌&&◌, Option, none, some, [], ◌∷◌,
  true-ne-false, is_some, if◌then◌else◌, ◌==◌, arith,
}
use gortsplib.Common.Cases.{if_case, option_case, some_case}
use gortsplib.Session.{
  Transport, transport_udp, transport_udp_multicast, transport_tcp, same_transport,
}
use gortsplib.Session.Valid.{is_tcp}
use gortsplib.Client.{
  client_initial, client_pre_play, client_pre_record, check_client_state,
  cannot_setup_medias_different_urls, Answer, Net, Config, Client, failed,
}
use gortsplib.Client.Media.{find_free_channel_pair}
use gortsplib.Client.Describe.{Done, on_done, do_describe}
use gortsplib.Client.Setup.{
  SetupCall, without_ports, is_rtsps, desired, is_unset, choose_transport, prepare,
  try_switching_protocol2, setup_answered, setup_request, is_other_url, do_setup,
}
use gortsplib.Client.LinkValid.{IsWhole, IsOpen, do_request-Acts}
use gortsplib.Client.MediaApart.{find_free_channel_pair-is_some}
use gortsplib.Client.Valid.{
  IsValid, Keeps, refuses, on_answer-Keeps, on_done-Keeps, with_conn-Keeps,
}
use gortsplib.Client.ResetValid.{IsReset, is_reset, reset-IsReset}
use gortsplib.Client.DescribeValid.{do_describe-Keeps}
use gortsplib.Client.SetupAnswer.{
  is_idle, idle_checked, with_transport-IsValid, with_base-IsValid, choose_transport-IsValid,
  finish_setup-Keeps,
}

module _ (net : Net) (cfg : Config) where
  -- `doSetup` again, on a valid client.
  abbrev Again : (SetupCall → Client → Done) → Type 0
  Again again =
      (r : SetupCall) (c : Client) → IsValid true c → IsWhole c.link → Keeps true (again r c)

  -- A switch of transport from a client that was reset, which described an URL before.
  try_switching_protocol2-Keeps :
      (k : ℕ) (again : SetupCall → Client → Done) (r : SetupCall) (c : Client)
      → IsValid true c
      → IsWhole c.link
      → Again again
      → Keeps true (try_switching_protocol2 net cfg k again r c)
  unfolding try_switching_protocol2
  try_switching_protocol2-Keeps k again r c v w f = from (reset-IsReset net cfg c v w)
    where
      from :
          {o : Option Client}
          → IsReset true o
          → Keeps true (elim o [
            | none ↦ none
            | some c1 ↦ elim c1.last_describe_url [
              | none ↦ none
              | some u ↦
                  on_done
                    (do_describe net cfg k u
                      (record c1 { effective_transport = some transport_tcp }))
                    (again (without_ports r))
            ]
          ])
      from (is_reset c1 v1 w1 s m) =
          option_case (Keeps true) c1.last_describe_url
            (λ e. absurd (true-ne-false (sym (v1.described refl) ∙ ap is_some e)))
            (λ u e.
              on_done-Keeps (again (without_ports r))
                (do_describe-Keeps net cfg k u _ (with_transport-IsValid c1 transport_tcp v1 m) w1)
                (f (without_ports r)))

  setup_answered-Keeps :
      (k : ℕ) (again : SetupCall → Client → Done) (r : SetupCall) (t : Transport) (a : Answer)
      (c : Client)
      → IsValid true c
      → is_idle c.state ≡ true
      → IsOpen c.link
      → desired c.effective_transport ≡ t
      → Again again
      → Keeps true (setup_answered net cfg k again r t a c)
  unfolding setup_answered
  setup_answered-Keeps k again r t a c v idle p e f =
      if_case (Keeps true) (not (a.status == 200))
        (λ h.
          if_case (Keeps true) (a.status == 461 && is_unset c.effective_transport)
            (λ u.
              f (without_ports r) _
                (with_transport-IsValid c transport_tcp v
                  (unset c.effective_transport (ground (arith, u))))
                whole)
            (λ u. refuses _ _ refl v))
        (λ h.
          option_case (Keeps true) a.transport (λ n. refuses _ _ refl v)
            (λ th n.
              if_case (Keeps true) (not (same_transport t transport_tcp) && th.is_tcp)
                (λ q.
                  if_case (Keeps true) (is_unset c.effective_transport && is_unset cfg.transport)
                    (λ u.
                      try_switching_protocol2-Keeps k again r _ (with_base-IsValid c r.base v) whole
                        f)
                    (λ u. refuses _ _ refl v))
                (λ q.
                  finish_setup-Keeps net cfg r t th a c v idle p
                    (λ tcp. v.apart (chosen c.effective_transport e tcp)))))
    where
      whole : IsWhole c.link
      whole = p.1 ∙ sym p.0

      unset : (o : Option Transport) → is_unset o ≡ true → is_some o ≡ false
      unset none h = refl
      unset (some x) h = absurd (true-ne-false (sym h))

      chosen : (o : Option Transport) → desired o ≡ t → is_tcp (some t) ≡ true → is_tcp o ≡ true
      chosen none q h = ap (λ x. is_tcp (some x)) q ∙ h
      chosen (some x) q h = ap (λ y. is_tcp (some y)) q ∙ h

  prepare-is_some :
      (c : Client) (r : SetupCall) (t : Transport) → is_some (prepare net cfg c r t) ≡ true
  unfolding prepare
  prepare-is_some c r transport_udp = ground arith
  prepare-is_some c r transport_udp_multicast = refl
  prepare-is_some c r transport_tcp =
      let (ch, e) = find_free_channel_pair-is_some c.setupped_medias in
      some_case (λ o. is_some o ≡ true) (find_free_channel_pair c.setupped_medias) none
        (λ ch. some none) e refl

  setup_request-Keeps :
      (k : ℕ) (again : SetupCall → Client → Done) (r : SetupCall) (c : Client)
      → IsValid true c
      → is_idle c.state ≡ true
      → IsOpen c.link
      → Again again
      → Keeps true (setup_request net cfg k again r c)
  unfolding setup_request
  setup_request-Keeps k again r c v idle p f =
      option_case (Keeps true) (prepare net cfg c r (desired c.effective_transport))
        (λ e. absurd (true-ne-false (sym (prepare-is_some c r _) ∙ ap is_some e)))
        (λ e q.
          option_case (Keeps true) e
            (λ n.
              option_case (Keeps true) (net.media_url r.media r.base) (λ m. refuses _ _ refl v)
                (λ u m.
                  on_answer-Keeps c
                    (setup_answered net cfg k again r (desired c.effective_transport)) v p.0
                    (do_request-Acts net cfg c.state c.conn_url u c.link p)
                    (λ a l p' v'. setup_answered-Keeps k again r _ a _ v' idle p' refl f)))
            (λ e' n. refuses _ _ refl v))

  chosen-link : (c : Client) → (choose_transport net cfg c).link ≡ c.link
  unfolding choose_transport
  chosen-link c =
      option_case (λ (x : Client). x.link ≡ c.link) c.effective_transport
        (λ e.
          if_case (λ (x : Client). x.link ≡ c.link) (is_rtsps c.conn_url.scheme) (λ s. refl)
            (λ s.
              option_case (λ (x : Client). x.link ≡ c.link) cfg.transport (λ n. refl)
                (λ t n. refl)))
        (λ t e. refl)

  chosen-state : (c : Client) → (choose_transport net cfg c).state ≡ c.state
  unfolding choose_transport
  chosen-state c =
      option_case (λ (x : Client). x.state ≡ c.state) c.effective_transport
        (λ e.
          if_case (λ (x : Client). x.state ≡ c.state) (is_rtsps c.conn_url.scheme) (λ s. refl)
            (λ s.
              option_case (λ (x : Client). x.state ≡ c.state) cfg.transport (λ n. refl)
                (λ t n. refl)))
        (λ t e. refl)

  -- `doSetup` does not panic and keeps a client valid, in every state, if there was a DESCRIBE.
  pub do_setup-Keeps :
      (k : ℕ) (r : SetupCall) (c : Client)
      → IsValid true c
      → IsWhole c.link
      → Keeps true (do_setup net cfg k r c)
  unfolding do_setup
  do_setup-Keeps zero r c v w = refuses _ _ refl v
  do_setup-Keeps (suc k) r c v w =
      if_case (Keeps true)
        (not
          (check_client_state (client_initial ∷ client_pre_play ∷ client_pre_record ∷ []) c.state))
        (λ h. refuses _ _ refl v)
        (λ h.
          with_conn-Keeps net cfg c
            (λ c1.
              if is_other_url net cfg c1.base_url r.base
              then some (failed cannot_setup_medias_different_urls, c1)
              else setup_request net cfg k (do_setup net cfg k) r (choose_transport net cfg c1))
            v w
            (λ l p v1.
              if_case (Keeps true) (is_other_url net cfg c.base_url r.base)
                (λ o. refuses _ _ refl v1)
                (λ o.
                  setup_request-Keeps k (do_setup net cfg k) r _
                    (choose_transport-IsValid net cfg _ v1)
                    (ap is_idle (chosen-state (record c { link = l }))
                      ∙ ground (arith, idle_checked c.state, h))
                    (subst IsOpen (sym (chosen-link (record c { link = l }))) p)
                    (λ r' c' v' w'. do_setup-Keeps k r' c' v' w'))))
