-- ===== src/Client/MethodsValid.antt =====
-- ANNOUNCE, PLAY, RECORD, PAUSE, OPTIONS and keepalives keep a client valid.
use gortsplib.Common.{
  ◌≡◌, refl, sym, ap, ◌∙◌, subst, Bool, true, false, not, Option, none, some, [], ◌∷◌,
  true-ne-false, is_some, if◌then◌else◌, ◌==◌, arith,
}
use gortsplib.Common.Cases.{if_case, option_case}
use gortsplib.Client.{
  ClientState, client_initial, client_pre_play, client_play, client_pre_record, client_record,
  check_client_state, Url, get_parameter, options, invalid_url, bad_status_code, Answer, Net,
  Config, Client, reply, failed,
}
use gortsplib.Client.Exchange.{Act, do_request, do_skip}
use gortsplib.Client.Routines.{is_live}
use gortsplib.Client.Describe.{Done, on_answer}
use gortsplib.Client.Methods.{with_link, client_options, do_announce, do_keep_alive}
use gortsplib.Client.LinkValid.{
  IsWhole, Acts, works, fails, do_request-Acts, do_options-Acts, do_skip-Acts,
}
use gortsplib.Client.Valid.{
  is_initial, IsValid, Keeps, keeps, refuses, on_answer-Keeps, with_conn-Keeps, with_link-IsValid,
  open-IsValid,
}

with_link-Keeps :
    {d b s : Bool} (c : Client) {o : Act}
    → IsValid d c
    → c.link.nconn ≡ b
    → Acts b s o
    → Keeps d (with_link c o)
with_link-Keeps c v e (works r l i p) = keeps _ _ (open-IsValid c l v p) (p.1 ∙ sym p.0)
with_link-Keeps c v e (fails r l h n w) =
    refuses _ _ h (with_link-IsValid c l v (λ q. n (sym e ∙ q)) w)

module _ (net : Net) (cfg : Config) where
  pub client_options-Keeps :
      {d : Bool} (u : Url) (c : Client)
      → IsValid d c
      → IsWhole c.link
      → Keeps d (client_options net cfg u c)
  unfolding client_options
  client_options-Keeps u c v w =
      with_link-Keeps c v refl (do_options-Acts net cfg c.state c.conn_url u c.link w)

  announced-IsValid :
      {d : Bool} (c : Client) (u : Url)
      → IsValid d c
      → c.state ≡ client_initial
      → c.link.nconn ≡ true
      → IsValid d (record c { base_url = some u; state = client_pre_record })
  announced-IsValid c u v s n = record {
    writer = v.writer ∙ ap is_live s;
    decoder = v.decoder ∙ ap is_live s;
    started = v.started ∙ ap is_live s;
    keepalive = ground (arith, v.keepalive, s);
    check = λ h. ground (arith, v.check h, s);
    transport = λ h. v.transport (ground (arith, h));
    based = λ h. refl;
    linked = λ h. n;
    apart = v.apart;
    described = v.described;
    whole = v.whole;
  }

  abbrev announce_concluded : Url → Answer → Client → Done
  announce_concluded u a c =
      if a.status == 200
      then some (reply a, record c { base_url = some u; state = client_pre_record })
      else some (failed (bad_status_code a.status), c)

  pub do_announce-Keeps :
      {d : Bool} (marshals : Bool) (u : Url) (c : Client)
      → IsValid d c
      → IsWhole c.link
      → Keeps d (do_announce net cfg marshals u c)
  unfolding do_announce check_client_state
  do_announce-Keeps {d} marshals u c v w =
      if_case (Keeps d) (not (check_client_state (client_initial ∷ []) c.state))
        (λ h. refuses _ _ refl v)
        (λ h.
          with_conn-Keeps net cfg c
            (λ c1.
              if not marshals
              then some (failed invalid_url, c1)
              else on_answer (do_request net cfg c1.state c1.conn_url (some u) c1.link) c1
                  (announce_concluded u))
            v w
            (λ l p v1.
              if_case (Keeps d) (not marshals) (λ m. refuses _ _ refl v1)
                (λ m.
                  on_answer-Keeps (record c { link = l }) (announce_concluded u) v1 p.0
                    (do_request-Acts net cfg c.state c.conn_url u l p)
                    (λ a l2 q v2.
                      if_case (Keeps d) (a.status == 200)
                        (λ s.
                          keeps _ _ (announced-IsValid _ u v2 (initial c.state h) q.0)
                            (q.1 ∙ sym q.0))
                        (λ s. refuses _ _ refl v2)))))
    where
      initial :
          (s : ClientState)
          → not (check_client_state (client_initial ∷ []) s) ≡ false
          → s ≡ client_initial
      initial client_initial h = refl
      initial client_pre_play h = absurd (true-ne-false h)
      initial client_play h = absurd (true-ne-false h)
      initial client_pre_record h = absurd (true-ne-false h)
      initial client_record h = absurd (true-ne-false h)

  pub base-is_some :
      {d : Bool} (c : Client)
      → IsValid d c
      → is_initial c.state ≡ false
      → (u : Url) × (c.base_url ≡ some u)
  base-is_some c v h =
      option_case (λ (x : Option Url). (u : Url) × (c.base_url ≡ some u)) c.base_url {n = none}
        {f = some} (λ e. absurd (true-ne-false (sym (v.based h) ∙ ap is_some e))) (λ u e. (u, e))

  pub do_keep_alive-Keeps :
      {d : Bool} (c : Client)
      → IsValid d c
      → IsWhole c.link
      → is_initial c.state ≡ false
      → Keeps d (do_keep_alive net cfg c)
  unfolding do_keep_alive
  do_keep_alive-Keeps {d} c v w h =
      let (u, e) = base-is_some c v h in
      let n = v.linked h in
      with_link-Keeps c v n (
        subst
          (λ o. Acts true true (
            do_skip net cfg (if c.link.use_get_parameter then get_parameter else options) c.state
              c.conn_url o c.link))
          (sym e) (do_skip-Acts net cfg _ c.state c.conn_url u c.link (n, w ∙ n)))
