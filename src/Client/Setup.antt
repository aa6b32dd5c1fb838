-- ===== src/Client/Setup.antt =====
-- `doSetup` and `trySwitchingProtocol2` of client.go.
use gortsplib.Common.{
  ℕ, zero, suc, ◌+◌, Bool, true, false, not, ◌==◌, ◌&&◌, ◌||◌, if◌then◌else◌, Option, none, some,
  List, [], ◌∷◌,
}
use gortsplib.Session.{
  Transport, transport_udp, transport_udp_multicast, transport_tcp, same_transport,
}
use gortsplib.Client.{
  ClientState, client_initial, client_pre_play, client_pre_record, same_client_state,
  check_client_state, Scheme, scheme_rtsps, Url, ClientError, invalid_state, bad_status_code,
  invalid_url, cannot_setup_medias_different_urls, udp_ports_zero, udp_ports_not_consecutive,
  listen_failed, transport_header_invalid, server_requested_tcp, server_requested_udp,
  invalid_delivery, server_ports_not_provided, no_ports, no_destination, no_interleaved_ids,
  invalid_interleaved_ids, interleaved_ids_in_use, TransportAnswer, Answer, Net, Config,
  ClientMedia, Client, reply, failed, unfinished,
}
use gortsplib.Client.Media.{is_channel_pair_in_use, find_free_channel_pair, insert_media}
use gortsplib.Client.Exchange.{do_request}
use gortsplib.Client.Routines.{reset}
use gortsplib.Client.Describe.{Done, on_answer, on_done, with_conn, do_describe}

-- The arguments of `doSetup`.
pub record SetupCall : Type 0 where
  pub base : Url
  pub media : ℕ
  pub is_back_channel : Bool
  pub rtp_port : ℕ
  pub rtcp_port : ℕ

abbrev pub without_ports : SetupCall → SetupCall
without_ports r = record r { rtp_port = 0; rtcp_port = 0 }

abbrev pub is_any_port : ℕ → Bool
is_any_port p = p == 0 || p == 1

abbrev pub has_ports : Option (ℕ × ℕ) → Bool
has_ports none = false
has_ports (some (a, b)) = not (is_any_port a) && not (is_any_port b)

abbrev pub is_rtsps : Scheme → Bool
is_rtsps scheme_rtsps = true
is_rtsps _ = false

-- `desiredTransport`
abbrev pub desired : Option Transport → Transport
desired none = transport_udp
desired (some t) = t

-- Multicast is asked for, or unicast is not.
abbrev pub is_not_unicast : Option Bool → Bool
is_not_unicast none = false
is_not_unicast (some unicast) = not unicast

abbrev pub is_unset : Option Transport → Bool
is_unset none = true
is_unset (some t) = false

module _ (net : Net) (cfg : Config) where
  -- The transport, if it is not chosen yet, is that of the scheme or of the configuration.
  unfoldable pub choose_transport : Client → Client
  choose_transport c = elim c.effective_transport [
    | some t ↦ c
    | none ↦
        if is_rtsps c.conn_url.scheme
        then record c { effective_transport = some transport_tcp }
        else elim cfg.transport [ none ↦ c | some t ↦ record c { effective_transport = some t } ]
  ]

  -- Before the request: the ports and the listeners of UDP, the channels of TCP. The outer `none` is
  -- a search for channels that does not end.
  unfoldable pub prepare : Client → SetupCall → Transport → Option (Option ClientError)
  prepare c r transport_udp =
      if (r.rtp_port == 0 && not (r.rtcp_port == 0)) || (not (r.rtp_port == 0) && r.rtcp_port == 0)
      then some (some udp_ports_zero)
      else if not (r.rtp_port == 0) && not (r.rtcp_port == r.rtp_port + 1)
      then some (some udp_ports_not_consecutive)
      else if net.listens c.link.sent
      then some none
      else some (some listen_failed)
  prepare c r transport_udp_multicast = some none
  prepare c r transport_tcp = elim (find_free_channel_pair c.setupped_medias) [
    | none ↦ none
    | some ch ↦ some none
  ]

  -- The checks on the Transport header of the response; the result is `tcpChannel`, or an error.
  unfoldable pub check_udp : ClientState → TransportAnswer → Option ClientError × ℕ
  check_udp s t =
      if is_not_unicast t.is_unicast
      then (some invalid_delivery, 0)
      else if (same_client_state s client_pre_record || not cfg.any_port_enable)
          && not (has_ports t.server_ports)
      then (some server_ports_not_provided, 0)
      else (none, 0)

  unfoldable pub check_multicast : Client → TransportAnswer → Option ClientError × ℕ
  check_multicast c t =
      if not (is_not_unicast t.is_unicast) then (some invalid_delivery, 0) else elim t.ports [
        | none ↦ (some no_ports, 0)
        | some ps ↦
            if not t.has_destination
            then (some no_destination, 0)
            else if net.listens c.link.sent
            then (none, 0)
            else (some listen_failed, 0)
      ]

  unfoldable pub check_tcp : List ClientMedia → TransportAnswer → Option ClientError × ℕ
  check_tcp cms t =
      if not t.is_tcp
      then (some server_requested_udp, 0)
      else if is_not_unicast t.is_unicast
      then (some invalid_delivery, 0)
      else elim t.interleaved_ids [
        | none ↦ (some no_interleaved_ids, 0)
        | some (a, b) ↦
            if not (a + 1 == b)
            then (some invalid_interleaved_ids, 0)
            else if is_channel_pair_in_use cms a
            then (some interleaved_ids_in_use, 0)
            else (none, a)
      ]

  unfoldable pub check_answer : Client → TransportAnswer → Transport → Option ClientError × ℕ
  unfolding check_udp check_multicast check_tcp
  check_answer c t transport_udp = check_udp c.state t
  check_answer c t transport_udp_multicast = check_multicast c t
  check_answer c t transport_tcp = check_tcp c.setupped_medias t

  -- The end of `doSetup`.
  unfoldable pub set_up : Client → SetupCall → Transport → ℕ → Client
  set_up c r t channel = record c {
    setupped_medias =
        insert_media (record { media = r.media; tcp_channel = channel }) c.setupped_medias;
    base_url = some r.base;
    effective_transport = some t;
    back_channel_setupped = r.is_back_channel || c.back_channel_setupped;
    std_channel_setupped = not r.is_back_channel || c.std_channel_setupped;
    state = if same_client_state c.state client_initial then client_pre_play else c.state;
  }

  -- `trySwitchingProtocol2`, where `again` is `doSetup`. Without an URL of an earlier DESCRIBE the code
  -- describes a nil URL, which panics where the server answers with credentials, a redirect or a base.
  unfoldable pub try_switching_protocol2 :
      ℕ → (SetupCall → Client → Done) → SetupCall → Client → Done
  try_switching_protocol2 k again r c = elim (reset net cfg c) [
    | none ↦ none
    | some c1 ↦ elim c1.last_describe_url [
      | none ↦ none
      | some u ↦
          on_done (do_describe net cfg k u (record c1 { effective_transport = some transport_tcp }))
            (again (without_ports r))
    ]
  ]

  unfoldable pub finish_setup : SetupCall → Transport → TransportAnswer → Answer → Client → Done
  unfolding check_answer set_up
  finish_setup r t th a c =
      let (e, channel) = check_answer c th t in
      elim e [ some e' ↦ some (failed e', c) | none ↦ some (reply a, set_up c r t channel) ]

  -- `doSetup` from the response on; `t` is the desired transport.
  unfoldable pub setup_answered :
      ℕ → (SetupCall → Client → Done) → SetupCall → Transport → Answer → Client → Done
  unfolding try_switching_protocol2 finish_setup
  setup_answered k again r t a c =
      let unchosen = is_unset c.effective_transport in
      let unset = is_unset cfg.transport in
      if not (a.status == 200)
      then if a.status == 461 && unchosen
        then again (without_ports r) (record c { effective_transport = some transport_tcp })
        else some (failed (bad_status_code a.status), c)
      else elim a.transport [
        | none ↦ some (failed transport_header_invalid, c)
        | some th ↦
            if not (same_transport t transport_tcp) && th.is_tcp
            then if unchosen && unset
              then try_switching_protocol2 k again r (record c { base_url = some r.base })
              else some (failed server_requested_tcp, c)
            else finish_setup r t th a c
      ]

  -- `doSetup` up to the request.
  unfoldable pub setup_request : ℕ → (SetupCall → Client → Done) → SetupCall → Client → Done
  unfolding prepare setup_answered
  setup_request k again r c =
      let t = desired c.effective_transport in
      elim (prepare c r t) [
        | none ↦ none
        | some e ↦ elim e [
          | some e' ↦ some (failed e', c)
          | none ↦ elim (net.media_url r.media r.base) [
            | none ↦ some (failed invalid_url, c)
            | some u ↦
                on_answer (do_request net cfg c.state c.conn_url (some u) c.link) c
                  (setup_answered k again r t)
          ]
        ]
      ]

  abbrev pub is_other_url : Option Url → Url → Bool
  is_other_url none u = false
  is_other_url (some b) u = not (b.identity == u.identity)

  -- `doSetup`; it comes back to itself after a switch to TCP, and nothing bounds the switches of a
  -- server that redirects, so the first argument does, for these and for the redirects.
  unfoldable pub do_setup : ℕ → SetupCall → Client → Done
  unfolding setup_request choose_transport
  do_setup zero r c = some (unfinished, c)
  do_setup (suc k) r c =
      if not
        (check_client_state (client_initial ∷ client_pre_play ∷ client_pre_record ∷ []) c.state)
      then some (failed invalid_state, c)
      else with_conn net cfg c (λ c1.
        if is_other_url c1.base_url r.base
        then some (failed cannot_setup_medias_different_urls, c1)
        else setup_request k (do_setup k) r (choose_transport c1))
