-- ===== src/Client/LinkValid.antt =====
-- Requests of a client: `do` and `doOptions` do not panic, and where they give a response the
-- connection and its reader are still there.
use gortsplib.Common.{
  ◌≡◌, refl, sym, subst, some-inj, none-ne-some, Bool, true, false, not, ◌&&◌, ◌||◌, Option, none,
  some, true-ne-false, if◌then◌else◌, ◌∙◌, ◌==◌, [], ◌∷◌, arith,
}
use gortsplib.Common.Cases.{if_case, option_case}
use gortsplib.Session.{transport_tcp, same_transport}
use gortsplib.Client.{
  ClientState, client_initial, client_pre_play, client_pre_record, check_client_state, Scheme,
  scheme_rtsp, scheme_rtsps, scheme_other, Url, Method, ClientError, unsupported_scheme, rtsps_tcp,
  dial_failed, bad_status_code, SessionHeader, session_absent, session_invalid, session_given,
  Answer, Outcome, write_failed, no_answer, answered, Net, Config, reader_on, Link, is_reader,
  Reply, reply, nothing, failed, unfinished,
}
use gortsplib.Client.Exchange.{
  Act, on_reply, is_options, take_session, conn_open, exchange, authenticate, do_plain, do_options,
  do_once, do_request, write_only, do_skip,
}

abbrev pub is_failure : Reply → Bool
is_failure (failed e) = true
is_failure unfinished = true
is_failure _ = false

abbrev pub is_answer : Reply → Bool
is_answer (reply a) = true
is_answer _ = false

-- The reader runs exactly while the connection is open.
abbrev pub IsWhole : Link → Type 0
IsWhole l = is_reader l.reader ≡ l.nconn

-- Both are there.
abbrev pub IsOpen : Link → Type 0
IsOpen l = (l.nconn ≡ true) × (is_reader l.reader ≡ true)

-- No panic; with a failure, a connection that was there before (the first argument) is still there,
-- and if the reader is not, then the client has to close. Without `skips`, there is an answer where there
-- is no failure.
pub data Acts (before skips : Bool) : Act → Type 0 where
  works :
      (r : Reply) (l : Link)
      → (skips || is_answer r) ≡ true
      → IsOpen l
      → Acts before skips (some (r, l))
  fails :
      (r : Reply) (l : Link)
      → is_failure r ≡ true
      → (before ≡ true → l.nconn ≡ true)
      → (l.must_close ≡ false → IsWhole l)
      → Acts before skips (some (r, l))

weaken : {s : Bool} {o : Act} (b : Bool) → Acts true s o → Acts b s o
weaken b (works r l i p) = works r l i p
weaken b (fails r l f n w) = fails r l f (λ h. n refl) w

on_reply-Acts :
    {b s : Bool} {o : Act} (k : Answer → Link → Act)
    → Acts b false o
    → ((a : Answer) (l : Link) → IsOpen l → Acts b s (k a l))
    → Acts b s (on_reply o k)
on_reply-Acts k (works (reply a) l i p) f = f a l p
on_reply-Acts k (works nothing l i p) f = absurd (true-ne-false (sym i))
on_reply-Acts k (works (failed e) l i p) f = absurd (true-ne-false (sym i))
on_reply-Acts k (works unfinished l i p) f = absurd (true-ne-false (sym i))
on_reply-Acts k (fails (reply a) l h n w) f = absurd (true-ne-false (cc))
on_reply-Acts k (fails nothing l h n w) f = absurd (true-ne-false (cc))
on_reply-Acts k (fails (failed e) l h n w) f = fails (failed e) l h n w
on_reply-Acts k (fails unfinished l h n w) f = fails unfinished l h n w

outcome_case :
    (P : Act → Type 0) (o : Outcome) {x : Act} {y : Bool → Act} {z : Answer → Act}
    → P x
    → ((gone : Bool) → P (y gone))
    → ((a : Answer) → P (z a))
    → P (elim o [ write_failed ↦ x | no_answer gone ↦ y gone | answered a ↦ z a ])
outcome_case P write_failed f g h = f
outcome_case P (no_answer gone) f g h = g gone
outcome_case P (answered a) f g h = h a

take_session-link :
    (l : Link) (s : SessionHeader) {l' : Link} → take_session l s ≡ some l' → IsOpen l → IsOpen l'
unfolding take_session
take_session-link l session_absent e p = subst IsOpen (some-inj e) p
take_session-link l session_invalid e p = absurd (none-ne-some e)
take_session-link l (session_given id none) e p = subst IsOpen (some-inj e) p
take_session-link l (session_given id (some t)) e p = subst IsOpen (some-inj e) p

module _ (net : Net) (cfg : Config) where
  exchange-Acts : (l : Link) → IsOpen l → Acts true false (exchange net cfg l)
  unfolding exchange
  exchange-Acts l (n, r) =
      if_case (Acts true false) (not l.nconn) (λ h. absurd (true-ne-false (ground (arith, h, n))))
        (λ h.
          outcome_case (Acts true false) (net.outcome l.sent)
            (fails _ _ refl (λ q. n) (λ q. r ∙ sym n))
            (λ gone.
              if_case (Acts true false) (not (is_reader l.reader))
                (λ k. absurd (true-ne-false (ground (arith, k, r))))
                (λ k. fails _ _ refl (λ q. n) (λ q. absurd (true-ne-false q))))
            (λ a.
              if_case (Acts true false) (not (is_reader l.reader))
                (λ k. absurd (true-ne-false (ground (arith, k, r))))
                (λ k.
                  option_case (Acts true false) (take_session _ a.session_header)
                    (λ e. fails _ _ refl (λ q. n) (λ q. r ∙ sym n))
                    (λ l' e. works _ _ refl (take_session-link _ a.session_header e (n, r))))))

  -- The answer is given back, or asked for once more with the credentials.
  authenticate-Acts :
      (u : Url) (once : Link → Act) (a : Answer) (l : Link)
      → IsOpen l
      → ((l' : Link) → IsOpen l' → Acts true false (once l'))
      → Acts true false (authenticate net cfg (some u) once a l)
  unfolding authenticate
  authenticate-Acts u once a l p f =
      if_case (Acts true false) (not (a.status == 401)) (λ e. works _ _ refl p)
        (λ e.
          if_case (Acts true false) (u.has_user && not l.sender)
            (λ c.
              if_case (Acts true false) a.authenticable (λ d. f _ p)
                (λ d. fails _ _ refl (λ q. p.0) (λ q. p.1 ∙ sym p.0)))
            (λ c. works _ _ refl p))

  do_plain-Acts : (u : Url) (l : Link) → IsOpen l → Acts true false (do_plain net cfg (some u) l)
  unfolding do_plain
  do_plain-Acts u l p =
      on_reply-Acts _ (exchange-Acts l p) (λ a l' q. authenticate-Acts u _ a l' q exchange-Acts)

  -- `connOpen` opens the connection and the reader, or fails and changes nothing.
  pub data Opens (l : Link) : Option ClientError × Link → Type 0 where
    opens : (l' : Link) → IsOpen l' → Opens l (none, l')
    stays : (e : ClientError) → Opens l (some e, l)

  pub conn_open-Opens : (u : Url) (l : Link) → IsWhole l → Opens l (conn_open net cfg u l)
  unfolding conn_open
  conn_open-Opens u l w =
      if_case (Opens l) l.nconn (λ n. opens l (n, w ∙ n)) (λ n. by_scheme u.scheme)
    where
      dialled : Opens l (
          if net.dials l.sent
          then (none, record l { nconn = true; reader = reader_on false })
          else (some dial_failed, l))
      dialled = if_case (Opens l) (net.dials l.sent) (λ d. opens _ (refl, refl)) (λ d. stays _)

      by_scheme :
          (s : Scheme)
          → Opens l (elim s [
            | scheme_other ↦ (some unsupported_scheme, l)
            | scheme_rtsp ↦
                if net.dials l.sent
                then (none, record l { nconn = true; reader = reader_on false })
                else (some dial_failed, l)
            | scheme_rtsps ↦ elim cfg.transport [
              | none ↦
                  if net.dials l.sent
                  then (none, record l { nconn = true; reader = reader_on false })
                  else (some dial_failed, l)
              | some t ↦
                  if same_transport t transport_tcp
                  then (if net.dials l.sent
                      then (none, record l { nconn = true; reader = reader_on false })
                      else (some dial_failed, l))
                  else (some rtsps_tcp, l)
            ]
          ])
      by_scheme scheme_other = stays _
      by_scheme scheme_rtsp = dialled
      by_scheme scheme_rtsps =
          option_case (Opens l) cfg.transport (λ e. dialled)
            (λ t e.
              if_case (Opens l) (same_transport t transport_tcp) (λ d. dialled) (λ d. stays _))

  options_answered-Acts :
      (u : Url) (l : Link)
      → IsOpen l
      → Acts true false (
          on_reply (do_plain net cfg (some u) l) (λ a l''.
            if a.status == 200
            then some (
              reply a,
              record l'' { options_sent = true; use_get_parameter = a.public_get_parameter },
            )
            else if a.status == 404
            then some (reply a, l'')
            else some (failed (bad_status_code a.status), l'')))
  options_answered-Acts u l p = on_reply-Acts _ (do_plain-Acts u l p) (λ a l' q.
      if_case (Acts true false) (a.status == 200) (λ d. works _ _ refl q)
        (λ d.
          if_case (Acts true false) (a.status == 404) (λ c. works _ _ refl q)
            (λ c. fails _ _ refl (λ h. q.0) (λ h. q.1 ∙ sym q.0))))

  pub do_options-Acts :
      (s : ClientState) (conn_url u : Url) (l : Link)
      → IsWhole l
      → Acts l.nconn false (do_options net cfg s conn_url (some u) l)
  unfolding do_options
  do_options-Acts s conn_url u l w =
      if_case (Acts l.nconn false)
        (not (check_client_state (client_initial ∷ client_pre_play ∷ client_pre_record ∷ []) s))
        (λ h. fails _ _ refl (λ n. n) (λ m. w)) (λ h. connected _ (conn_open-Opens conn_url l w))
    where
      connected :
          (o : Option ClientError × Link)
          → Opens l o
          → Acts l.nconn false (elim o.0 [
            | some e' ↦ some (failed e', o.1)
            | none ↦ on_reply (do_plain net cfg (some u) o.1) (λ a l''.
                if a.status == 200
                then some (
                  reply a,
                  record l'' { options_sent = true; use_get_parameter = a.public_get_parameter },
                )
                else if a.status == 404
                then some (reply a, l'')
                else some (failed (bad_status_code a.status), l''))
          ])
      connected _ (opens l' p) = weaken _ (options_answered-Acts u l' p)
      connected _ (stays e) = fails _ _ refl (λ n. n) (λ m. w)

  whole : (l : Link) → IsOpen l → IsWhole l
  whole l (n, r) = r ∙ sym n

  on_open : (l : Link) {o : Act} → IsOpen l → Acts l.nconn false o → Acts true false o
  on_open l {o} (n, r) a = subst (λ b. Acts b false o) n a

  do_once-Acts :
      (s : ClientState) (conn_url u : Url) (l : Link)
      → IsOpen l
      → Acts true false (do_once net cfg s conn_url (some u) l)
  unfolding do_once
  do_once-Acts s conn_url u l p =
      if_case (Acts true false) l.options_sent (λ h. exchange-Acts l p)
        (λ h.
          on_reply-Acts _ (on_open l p (do_options-Acts s conn_url u l (whole l p)))
            (λ a l' q. exchange-Acts l' q))

  pub do_request-Acts :
      (s : ClientState) (conn_url u : Url) (l : Link)
      → IsOpen l
      → Acts true false (do_request net cfg s conn_url (some u) l)
  unfolding do_request
  do_request-Acts s conn_url u l p =
      on_reply-Acts _ (do_once-Acts s conn_url u l p)
        (λ a l' q. authenticate-Acts u _ a l' q (do_once-Acts s conn_url u))

  write_only-Acts : (l : Link) → IsOpen l → Acts true true (write_only net cfg l)
  unfolding write_only
  write_only-Acts l p =
      if_case (Acts true true) (not l.nconn) (λ h. absurd (true-ne-false (ground (arith, h, p))))
        (λ h.
          outcome_case (Acts true true) (net.outcome l.sent)
            (fails _ _ refl (λ q. p.0) (λ q. p.1 ∙ sym p.0)) (λ gone. works _ _ refl p)
            (λ a. works _ _ refl p))

  pub do_skip-Acts :
      (m : Method) (s : ClientState) (conn_url u : Url) (l : Link)
      → IsOpen l
      → Acts true true (do_skip net cfg m s conn_url (some u) l)
  unfolding do_skip
  do_skip-Acts m s conn_url u l p =
      if_case (Acts true true) (l.options_sent || is_options m) (λ h. write_only-Acts l p)
        (λ h.
          on_reply-Acts _ (on_open l p (do_options-Acts s conn_url u l (whole l p)))
            (λ a l' q. write_only-Acts l' q))
