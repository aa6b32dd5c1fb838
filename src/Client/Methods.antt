-- ===== src/Client/Methods.antt =====
-- `doOptions`, `doAnnounce`, `doPlay`, `doRecord`, `doPause` and `doKeepAlive` of client.go.
use gortsplib.Common.{ℕ, Bool, not, ◌==◌, if◌then◌else◌, Option, none, some, [], ◌∷◌}
use gortsplib.Client.{
  ClientState, client_initial, client_pre_play, client_play, client_pre_record, client_record,
  check_client_state, Url, options, get_parameter, invalid_state, bad_status_code, invalid_url, Net,
  Config, Link, Client, Reply, reply, nothing, failed, unfinished,
}
use gortsplib.Client.Exchange.{do_options, do_request, do_skip}
use gortsplib.Client.Routines.{
  start_transport_routines, stop_transport_routines, create_writer, destroy_writer, run_writer,
}
use gortsplib.Client.Describe.{Done, on_answer, with_conn}

-- A link method on the client.
abbrev pub with_link : Client → Option (Reply × Link) → Done
with_link c o = elim o [ none ↦ none | some (r, l) ↦ some (r, record c { link = l }) ]

abbrev pub on_client : Option Client → (Client → Done) → Done
on_client o k = elim o [ none ↦ none | some c ↦ k c ]

module _ (net : Net) (cfg : Config) where
  unfoldable pub client_options : Url → Client → Done
  client_options u c = with_link c (do_options net cfg c.state c.conn_url (some u) c.link)

  -- `doAnnounce`; the first argument is whether the description can be written.
  unfoldable pub do_announce : Bool → Url → Client → Done
  do_announce marshals u c =
      if not (check_client_state (client_initial ∷ []) c.state)
      then some (failed invalid_state, c)
      else with_conn net cfg c (λ c1.
        if not marshals
        then some (failed invalid_url, c1)
        else on_answer (do_request net cfg c1.state c1.conn_url (some u) c1.link) c1 (λ a c2.
          if a.status == 200
          then some (reply a, record c2 { base_url = some u; state = client_pre_record })
          else some (failed (bad_status_code a.status), c2)))

  -- What PLAY and RECORD do where the request fails.
  unfoldable pub roll_back : ClientState → Reply → Client → Done
  unfolding destroy_writer stop_transport_routines
  roll_back before r c =
      on_client (destroy_writer net cfg c)
        (λ c1. some (r, record (stop_transport_routines c1) { state = before }))

  -- What comes of the request of PLAY or RECORD, `start` being what follows on success.
  unfoldable pub concluded : ClientState → Option (Reply × Link) → Client → (Client → Done) → Done
  unfolding roll_back
  concluded before o c start = elim o [
    | none ↦ none
    | some (r, l) ↦
        let c1 = record c { link = l } in
        elim r [
          | reply a ↦
              if a.status == 200
              then start c1
              else roll_back before (failed (bad_status_code a.status)) c1
          | nothing ↦ none  -- no error and no response, which is read
          | failed e ↦ roll_back before (failed e) c1
          | unfinished ↦ roll_back before unfinished c1
        ]
  ]

  -- `doPlay` at the time `now`; `default_range` is NPT from 0. The packets that open the firewall
  -- are not read back, so they are left out.
  unfoldable pub do_play : ℕ → ℕ → Option ℕ → Client → Done
  unfolding start_transport_routines create_writer run_writer concluded
  do_play now default_range range c =
      let ra = elim range as (λ r. ℕ) [ none ↦ default_range | some v ↦ v ] in
      if not (check_client_state (client_pre_play ∷ []) c.state)
      then some (failed invalid_state, c)
      else on_client (start_transport_routines now (record c { state = client_play })) (λ c1.
        let c2 = create_writer net cfg c1 in
        concluded client_pre_play (do_request net cfg c2.state c2.conn_url c2.base_url c2.link) c2
          (λ c3.
            on_client (run_writer net cfg c3)
              (λ c4. some (nothing, record c4 { last_range = ra }))))

  -- `doRecord`
  unfoldable pub do_record : ℕ → Client → Done
  unfolding start_transport_routines create_writer run_writer concluded
  do_record now c =
      if not (check_client_state (client_pre_record ∷ []) c.state)
      then some (failed invalid_state, c)
      else on_client (start_transport_routines now (record c { state = client_record })) (λ c1.
        let c2 = create_writer net cfg c1 in
        concluded client_pre_record (do_request net cfg c2.state c2.conn_url c2.base_url c2.link) c2
          (λ c3. on_client (run_writer net cfg c3) (λ c4. some (nothing, c4))))

  -- The writer again, where PAUSE fails.
  unfoldable pub resume : Reply → Client → Done
  unfolding create_writer run_writer
  resume r c = on_client (run_writer net cfg (create_writer net cfg c)) (λ c1. some (r, c1))

  abbrev pub paused_state : ClientState → ClientState
  paused_state client_play = client_pre_play
  paused_state client_record = client_pre_record
  paused_state s = s

  -- What comes of the request of PAUSE.
  unfoldable pub pause_answered : Client → Option (Reply × Link) → Done
  unfolding resume stop_transport_routines
  pause_answered c o = elim o [
    | none ↦ none
    | some (r, l) ↦
        let c1 = record c { link = l } in
        elim r [
          | reply a ↦
              if a.status == 200
              then some
                  (reply a, record (stop_transport_routines c1) { state = paused_state c1.state })
              else resume (failed (bad_status_code a.status)) c1
          | nothing ↦ none
          | failed e ↦ resume (failed e) c1
          | unfinished ↦ resume unfinished c1
        ]
  ]

  -- `doPause`
  unfoldable pub do_pause : Client → Done
  unfolding destroy_writer pause_answered
  do_pause c =
      if not (check_client_state (client_play ∷ client_record ∷ []) c.state)
      then some (failed invalid_state, c)
      else on_client (destroy_writer net cfg c)
          (λ c1. pause_answered c1 (do_request net cfg c1.state c1.conn_url c1.base_url c1.link))

  -- `doKeepAlive`
  unfoldable pub do_keep_alive : Client → Done
  do_keep_alive c = with_link c (
      do_skip net cfg (if c.link.use_get_parameter then get_parameter else options) c.state
        c.conn_url c.base_url c.link)
