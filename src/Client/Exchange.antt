-- ===== src/Client/Exchange.antt =====
-- `connOpen`, `do`, `waitResponse` and `doOptions` of client.go.
use gortsplib.Common.{
  ◌+◌, ◌*◌, Bool, true, false, not, ◌==◌, ◌&&◌, ◌||◌, ltb, if◌then◌else◌, Option, none, some, [],
  ◌∷◌,
}
use gortsplib.Common.Words.{u64}
use gortsplib.RtpTime.{divide, second}
use gortsplib.Session.{transport_tcp, same_transport}
use gortsplib.Client.{
  ClientState, client_initial, client_pre_play, client_pre_record, check_client_state, scheme_rtsp,
  scheme_rtsps, scheme_other, Url, Method, options, ClientError, invalid_state, unsupported_scheme,
  rtsps_tcp, dial_failed, write_error, no_response, session_header_invalid, auth_setup,
  bad_status_code, SessionHeader, session_absent, session_invalid, session_given, Answer,
  write_failed, no_answer, answered, Net, Config, reader_nil, reader_on, Link, is_reader, Reply,
  reply, nothing, failed, unfinished,
}

abbrev pub Act : Type 0
Act = Option (Reply × Link)

-- To go on with the answer, if there is one.
abbrev pub on_reply : Act → (Answer → Link → Act) → Act
on_reply o k = elim o [
  | none ↦ none
  | some (r, l) ↦ elim r [
    | reply a ↦ k a l
    | nothing ↦ some (nothing, l)
    | failed e ↦ some (failed e, l)
    | unfinished ↦ some (unfinished, l)
  ]
]

abbrev pub is_options : Method → Bool
is_options options = true
is_options _ = false

-- The update of the session and of the period of keepalives: 8/10 of the timeout.
unfoldable pub take_session : Link → SessionHeader → Option Link
take_session l session_absent = some l
take_session l session_invalid = none
take_session l (session_given id none) = some (record l { session = id })
take_session l (session_given id (some t)) = some (record l {
  session = id;
  keepalive_period = if ltb 0 t then divide (u64 (u64 (t * second) * 8)) 10 else l.keepalive_period;
})

abbrev pub has_user : Option Url → Option Bool
has_user none = none
has_user (some u) = some u.has_user

module _ (net : Net) (cfg : Config) where
  -- `connOpen`; the first result is the error.
  unfoldable pub conn_open : Url → Link → Option ClientError × Link
  conn_open u l =
      let opened = record l { nconn = true; reader = reader_on false } in
      let dialled : Option ClientError × Link =
        if net.dials l.sent then (none, opened) else (some dial_failed, l) in
      if l.nconn then (none, l) else elim u.scheme [
        | scheme_other ↦ (some unsupported_scheme, l)
        | scheme_rtsp ↦ dialled
        | scheme_rtsps ↦ elim cfg.transport [
          | none ↦ dialled
          | some t ↦ if same_transport t transport_tcp then dialled else (some rtsps_tcp, l)
        ]
      ]

  -- The middle of `do`: a request is written, and its response is waited for. On a connection that
  -- is nil the write panics, on a reader that is nil the wait.
  unfoldable pub exchange : Link → Act
  unfolding take_session
  exchange l =
      let written = record l { cseq = l.cseq + 1; sent = l.sent + 1 } in
      if not l.nconn then none else elim (net.outcome l.sent) [
        | write_failed ↦ some (failed write_error, written)
        | no_answer gone ↦
            if not (is_reader l.reader)
            then none
            else some (
              failed no_response,
              record written { must_close = true; reader = if gone then reader_nil else l.reader },
            )
        | answered a ↦
            if not (is_reader l.reader)
            then none
            else elim (take_session written a.session_header) [
              | none ↦ some (failed session_header_invalid, written)
              | some l' ↦ some (reply a, l')
            ]
      ]

  -- The end of `do`: on status 401, and with credentials that were not used yet, once more with
  -- authentication. In that second run there is a sender, so it does not come to a third.
  unfoldable pub authenticate : Option Url → (Link → Act) → Answer → Link → Act
  authenticate u once a l = if not (a.status == 401) then some (reply a, l) else elim (has_user u) [
    | none ↦ none
    | some credentials ↦
        if credentials && not l.sender
        then (if a.authenticable
            then once (record l { sender = true })
            else some (failed auth_setup, l))
        else some (reply a, l)
  ]

  -- `do` of OPTIONS.
  unfoldable pub do_plain : Option Url → Link → Act
  unfolding exchange authenticate
  do_plain u l = on_reply (exchange l) (authenticate u exchange)

  -- `doOptions`
  unfoldable pub do_options : ClientState → Url → Option Url → Link → Act
  unfolding do_plain conn_open
  do_options s conn_url u l =
      if not (check_client_state (client_initial ∷ client_pre_play ∷ client_pre_record ∷ []) s)
      then some (failed invalid_state, l)
      else let (e, l') = conn_open conn_url l in
        elim e [
          | some e' ↦ some (failed e', l')
          | none ↦ on_reply (do_plain u l') (λ a l''.
              if a.status == 200
              then some (
                reply a,
                record l'' { options_sent = true; use_get_parameter = a.public_get_parameter },
              )
              else if a.status == 404
              then some (reply a, l'')
              else some (failed (bad_status_code a.status), l''))
        ]

  -- One run of `do`, without the authentication: OPTIONS before the first request of another method.
  unfoldable pub do_once : ClientState → Url → Option Url → Link → Act
  unfolding do_options exchange
  do_once s conn_url u l =
      if l.options_sent
      then exchange l
      else on_reply (do_options s conn_url u l) (λ a l'. exchange l')

  -- `do` of a method other than OPTIONS.
  unfoldable pub do_request : ClientState → Url → Option Url → Link → Act
  unfolding do_once authenticate
  do_request s conn_url u l =
      on_reply (do_once s conn_url u l) (authenticate u (do_once s conn_url u))

  -- `do` with `skipResponse`, after the OPTIONS.
  unfoldable pub write_only : Link → Act
  write_only l =
      let written = record l { cseq = l.cseq + 1; sent = l.sent + 1 } in
      if not l.nconn then none else elim (net.outcome l.sent) [
        | write_failed ↦ some (failed write_error, written)
        | no_answer gone ↦ some (nothing, written)
        | answered a ↦ some (nothing, written)
      ]

  unfoldable pub do_skip : Method → ClientState → Url → Option Url → Link → Act
  unfolding do_options write_only
  do_skip m s conn_url u l =
      if l.options_sent || is_options m
      then write_only l
      else on_reply (do_options s conn_url u l) (λ a l'. write_only l')
