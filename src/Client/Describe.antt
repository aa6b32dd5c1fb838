-- ===== src/Client/Describe.antt =====
-- `doDescribe` of client.go.
use gortsplib.Common.{
  ℕ, zero, suc, Bool, false, not, ◌==◌, ◌&&◌, ◌||◌, leb, if◌then◌else◌, Option, none, some, [], ◌∷◌,
}
use gortsplib.Client.{
  client_initial, client_pre_play, client_pre_record, check_client_state, Url, invalid_state,
  bad_status_code, invalid_url, content_type_missing, content_type_unsupported, sdp_invalid,
  base_url_invalid, content_missing, content_unsupported, sdp_bad, described, Answer, Net, Config,
  Link, Client, Reply, reply, nothing, failed, unfinished,
}
use gortsplib.Client.Exchange.{conn_open, do_request}
use gortsplib.Client.Routines.{reset}

-- What a method of the client comes to.
abbrev pub Done : Type 0
Done = Option (Reply × Client)

-- To go on with the answer, if there is one, and the client that holds the link.
abbrev pub on_answer : Option (Reply × Link) → Client → (Answer → Client → Done) → Done
on_answer o c k = elim o [
  | none ↦ none
  | some (r, l) ↦ elim r [
    | reply a ↦ k a (record c { link = l })
    | nothing ↦ none  -- no error and no response, which is read
    | failed e ↦ some (failed e, record c { link = l })
    | unfinished ↦ some (unfinished, record c { link = l })
  ]
]

-- To go on if a method of the client succeeds.
abbrev pub on_done : Done → (Client → Done) → Done
on_done o k = elim o [
  | none ↦ none
  | some (r, c) ↦ elim r [
    | reply a ↦ k c
    | nothing ↦ k c
    | failed e ↦ some (failed e, c)
    | unfinished ↦ some (unfinished, c)
  ]
]

module _ (net : Net) (cfg : Config) where
  -- `connOpen`, and what comes behind it.
  abbrev pub with_conn : Client → (Client → Done) → Done
  with_conn c k =
      let (e, l) = conn_open net cfg c.conn_url c.link in
      elim e [
        | some e' ↦ some (failed e', record c { link = l })
        | none ↦ k (record c { link = l })
      ]

  abbrev pub is_redirect : Answer → Bool
  is_redirect a = leb 301 a.status && leb a.status 305

  -- The body of the response, and `findBaseURL`.
  unfoldable pub read_description : Url → Answer → Client → Done
  read_description u a c = elim a.description [
    | content_missing ↦ some (failed content_type_missing, c)
    | content_unsupported ↦ some (failed content_type_unsupported, c)
    | sdp_bad ↦ some (failed sdp_invalid, c)
    | described base ↦ elim base [
      | none ↦ some (reply a, record c { last_describe_url = some u })
      | some parsed ↦ elim parsed [
        | none ↦ some (failed base_url_invalid, c)
        | some b ↦ some (reply a, record c { last_describe_url = some u })
      ]
    ]
  ]

  -- A redirect: the client is reset, and describes the new URL with the credentials of the old one.
  unfoldable pub follow : (Url → Client → Done) → Url → Option Url → Client → Done
  follow again u location c = elim (reset net cfg c) [
    | none ↦ none
    | some c' ↦ elim location [
      | none ↦ some (failed invalid_url, c')
      | some ru ↦
          again (record ru { has_user = u.has_user || ru.has_user })
            (record c' { conn_url = record ru { has_user = false } })
    ]
  ]

  unfoldable pub describe_answered : (Url → Client → Done) → Url → Answer → Client → Done
  unfolding read_description follow
  describe_answered again u a c =
      if a.status == 200
      then read_description u a c
      else if is_redirect a
      then elim a.location [
        | none ↦ some (failed (bad_status_code a.status), c)
        | some location ↦ follow again u location c
      ]
      else some (failed (bad_status_code a.status), c)

  -- `doDescribe`; nothing in the code bounds the redirects, so the first argument does.
  unfoldable pub do_describe : ℕ → Url → Client → Done
  unfolding describe_answered
  do_describe zero u c = some (unfinished, c)
  do_describe (suc k) u c =
      if not
        (check_client_state (client_initial ∷ client_pre_play ∷ client_pre_record ∷ []) c.state)
      then some (failed invalid_state, c)
      else with_conn c (λ c1.
        on_answer (do_request net cfg c1.state c1.conn_url (some u) c1.link) c1
          (describe_answered (do_describe k) u))
