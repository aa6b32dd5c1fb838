-- ===== src/Client/Loop.antt =====
-- `runInner`, `run`, `doCheckTimeout` and `trySwitchingProtocol` of client.go: one round of the loop
-- for each event.
use gortsplib.Common.{
  ℕ, Bool, true, false, not, ◌&&◌, if◌then◌else◌, Option, none, some, List, [], ◌∷◌,
}
use gortsplib.Session.{transport_tcp, same_transport, Writer, writer_nil}
use gortsplib.Client.{
  client_initial, Url, udp_timeout, tcp_timeout, writer_error, reader_error, unhandled_method,
  client_terminated, write_error, Net, Config, reader_nil, ClientMedia, Client, is_reader, Reply,
  reply, nothing, failed, unfinished,
}
use gortsplib.Client.Routines.{reset}
use gortsplib.Client.Describe.{Done, on_done, do_describe}
use gortsplib.Client.Setup.{SetupCall, is_unset, do_setup}
use gortsplib.Client.Methods.{
  client_options, do_announce, do_play, do_record, do_pause, do_keep_alive,
}

-- What the loop waits for. A timer is the time, and what the client reads of its listeners: whether
-- a UDP packet was received, and whether the last packet is too long ago.
pub data ClientEvent : Type 0 where
  options_called : Url → ClientEvent
  describe_called : Url → ClientEvent
  announce_called : Bool → Url → ClientEvent
  setup_called : SetupCall → ClientEvent
  play_called : Option ℕ → ClientEvent
  record_called : ClientEvent
  pause_called : ClientEvent
  check_timeout : Bool → Bool → ClientEvent
  keep_alive : ClientEvent
  writer_stopped : ClientEvent
  reader_stopped : ClientEvent
  server_request : Bool → Bool → ClientEvent  -- it is OPTIONS; the response can be written
  closed : ClientEvent

pub data ClientRound : Type 0 where
  goes_on : Reply → Client → ClientRound
  ends : Reply → Client → ClientRound

-- The client that `Start` makes, for the URL of the server.
abbrev pub new_client : Url → Client
new_client u = record {
  link = record {
    nconn = false;
    reader = reader_nil;
    session = [];
    sender = false;
    cseq = 0;
    options_sent = false;
    use_get_parameter = false;
    keepalive_period = 30000000000;
    must_close = false;
    sent = 0;
  };
  conn_url = u;
  state = client_initial;
  last_describe_url = none;
  base_url = none;
  effective_transport = none;
  back_channel_setupped = false;
  std_channel_setupped = false;
  setupped_medias = [];
  medias_started = false;
  last_range = 0;
  check_timeout_timer = false;
  check_timeout_initial = false;
  keepalive_timer = false;
  tcp_last_frame_time = 0;
  writer = writer_nil;
  time_decoder = false;
}

module _ (net : Net) (cfg : Config) (bound default_range now : ℕ) where
  -- The loop over the medias that were set up; which of them is a back channel is in the media.
  unfoldable pub setup_again : (ℕ → Bool) → Url → List ClientMedia → Client → Done
  setup_again back base [] c = some (nothing, c)
  setup_again back base (cm ∷ cms) c =
      on_done
        (do_setup net cfg bound
          (record {
            base = base;
            media = cm.media;
            is_back_channel = back cm.media;
            rtp_port = 0;
            rtcp_port = 0;
          })
          c)
        (setup_again back base cms)

  -- `trySwitchingProtocol`. With no base URL, `doSetup` panics; with no earlier DESCRIBE see
  -- `try_switching_protocol2`.
  unfoldable pub try_switching_protocol : (ℕ → Bool) → Client → Done
  unfolding setup_again
  try_switching_protocol back c = elim (reset net cfg c) [
    | none ↦ none
    | some c1 ↦ elim c1.last_describe_url [
      | none ↦ none
      | some u ↦ elim c.base_url [
        | none ↦ none
        | some base ↦
            on_done
              (do_describe net cfg bound u (record c1 { effective_transport = some transport_tcp }))
              (λ c2.
                on_done (setup_again back base c.setupped_medias c2)
                  (λ c3. do_play net cfg now default_range (some c3.last_range) c3))
      ]
    ]
  ]

  -- `doCheckTimeout`
  unfoldable pub do_check_timeout : (ℕ → Bool) → Bool → Bool → Client → Done
  unfolding try_switching_protocol
  do_check_timeout back received late c = elim c.effective_transport [
    | none ↦ none
    | some t ↦
        if same_transport t transport_tcp
        then (if late then some (failed tcp_timeout, c) else some (nothing, c))
        else if c.check_timeout_initial && (not c.back_channel_setupped && is_unset cfg.transport)
        then (let c1 = record c { check_timeout_initial = false } in
            if received then some (nothing, c1) else try_switching_protocol back c1)
        else if late
        then some (failed udp_timeout, c)
        else some (nothing, c)
  ]

  -- After a call of the user, the loop ends if `mustClose` is set.
  abbrev pub after_call : Done → Option ClientRound
  after_call o = elim o [
    | none ↦ none
    | some (r, c) ↦ some (if c.link.must_close then ends r c else goes_on r c)
  ]

  -- After a timer, the loop ends with its error, and the timer runs again.
  abbrev pub after_timer : Done → (Client → Client) → Option ClientRound
  after_timer o again = elim o [
    | none ↦ none
    | some (r, c) ↦ elim r [
      | failed e ↦ some (ends (failed e) c)
      | unfinished ↦ some (ends unfinished c)
      | nothing ↦ some (goes_on nothing (again c))
      | reply a ↦ some (goes_on nothing (again c))
    ]
  ]

  abbrev pub writer_case : Client → Writer → ClientRound
  writer_case c writer_nil = goes_on nothing c
  writer_case c _ = ends (failed writer_error) c

  -- One round of the loop of `runInner`; an event of a timer, a reader or a writer that is not there
  -- does not occur, and changes nothing.
  unfoldable pub client_step : (ℕ → Bool) → Client → ClientEvent → Option ClientRound
  client_step back c (options_called u) = after_call (client_options net cfg u c)
  client_step back c (describe_called u) = after_call (do_describe net cfg bound u c)
  client_step back c (announce_called marshals u) = after_call (do_announce net cfg marshals u c)
  client_step back c (setup_called r) = after_call (do_setup net cfg bound r c)
  client_step back c (play_called range) = after_call (do_play net cfg now default_range range c)
  client_step back c record_called = after_call (do_record net cfg now c)
  client_step back c pause_called = after_call (do_pause net cfg c)
  client_step back c (check_timeout received late) =
      if c.check_timeout_timer
      then after_timer (do_check_timeout back received late c)
          (λ c1. record c1 { check_timeout_timer = true })
      else some (goes_on nothing c)
  client_step back c keep_alive =
      if c.keepalive_timer
      then after_timer (do_keep_alive net cfg c) (λ c1. record c1 { keepalive_timer = true })
      else some (goes_on nothing c)
  client_step back c writer_stopped = some (writer_case c c.writer)
  client_step back c reader_stopped =
      if is_reader c.link.reader
      then some
          (ends (failed reader_error) (record c { link = record c.link { reader = reader_nil } }))
      else some (goes_on nothing c)
  client_step back c (server_request is_options writes) =
      if not (is_reader c.link.reader)
      then some (goes_on nothing c)
      else if not is_options
      then some (ends (failed unhandled_method) c)
      else if writes
      then some (goes_on nothing c)
      else some (ends (failed write_error) c)
  client_step back c closed = some (ends (failed client_terminated) c)
