-- ===== src/Client/Routines.antt =====
-- The writer and the routines of a client, `doClose` and `reset` of client.go.
use gortsplib.Common.{ℕ, Bool, true, false, not, ◌&&◌, ◌||◌, if◌then◌else◌, Option, none, some, []}
use gortsplib.Session.{
  transport_udp, transport_udp_multicast, transport_tcp, writer_nil, writer_idle, writer_running,
}
use gortsplib.Client.{
  ClientState, client_initial, client_play, client_record, same_client_state, teardown, Net, Config,
  reader_nil, Link, Client, is_reader, allow_frames,
}
use gortsplib.Client.Exchange.{do_skip}

abbrev pub is_live : ClientState → Bool
is_live client_play = true
is_live client_record = true
is_live _ = false

-- `startTransportRoutines`, at the time `now`. Without a transport, or over TCP without a reader, it
-- panics.
unfoldable pub start_transport_routines : ℕ → Client → Option Client
start_transport_routines now c =
    let playing = same_client_state c.state client_play && c.std_channel_setupped in
    let started = record c {
      time_decoder = true;
      medias_started = true;
      keepalive_timer = if playing then true else c.keepalive_timer;
      check_timeout_timer = if playing then true else c.check_timeout_timer;
    } in
    elim c.effective_transport [
      | none ↦ none
      | some t ↦ elim t [
        | transport_udp ↦ some (record started {
          check_timeout_initial = if playing then true else c.check_timeout_initial;
        })
        | transport_udp_multicast ↦ some started
        | transport_tcp ↦
            if not (is_reader c.link.reader)
            then none
            else some (record started {
              tcp_last_frame_time = if playing then now else c.tcp_last_frame_time;
              link = record c.link { reader = allow_frames true c.link.reader };
            })
      ]
    ]

unfoldable pub stop_transport_routines : Client → Client
stop_transport_routines c = record c {
  link = record c.link { reader = allow_frames false c.link.reader };
  check_timeout_timer = false;
  keepalive_timer = false;
  medias_started = false;
  time_decoder = false;
}

module _ (net : Net) (cfg : Config) where
  unfoldable pub create_writer : Client → Client
  create_writer c = record c {
    writer = writer_idle (
        if same_client_state c.state client_record || c.back_channel_setupped
        then cfg.write_queue_size
        else 8);
  }

  -- `destroyWriter`: a writer that is nil panics in `close`.
  unfoldable pub destroy_writer : Client → Option Client
  destroy_writer c = elim c.writer [
    | writer_nil ↦ none
    | writer_idle n ↦ some (record c { writer = writer_nil })
    | writer_running n ↦ some (record c { writer = writer_nil })
  ]

  -- `startWriter`
  unfoldable pub run_writer : Client → Option Client
  run_writer c = elim c.writer [
    | writer_nil ↦ none
    | writer_idle n ↦ some (record c { writer = writer_running n })
    | writer_running n ↦ some (record c { writer = writer_running n })
  ]

  -- The end of `doClose`: the connection and its reader are dropped, the medias are closed.
  abbrev pub dropped : Client → Link → Client
  dropped c l = record c { link = record l { nconn = false; reader = reader_nil } }

  -- TEARDOWN, whose result is not read, and the end of `doClose`.
  unfoldable pub close_link : Client → Option Client
  close_link c =
      if c.link.nconn
      then elim c.base_url [
        | none ↦ some (dropped c c.link)
        | some u ↦ elim (do_skip net cfg teardown c.state c.conn_url (some u) c.link) [
          | none ↦ none
          | some (r, l) ↦ some (dropped c l)
        ]
      ]
      else some (dropped c c.link)

  -- `doClose`
  unfoldable pub do_close : Client → Option Client
  unfolding close_link destroy_writer stop_transport_routines
  do_close c =
      if is_live c.state
      then elim (destroy_writer c) [
        | none ↦ none
        | some c' ↦ close_link (stop_transport_routines c')
      ]
      else close_link c

  -- `reset`
  unfoldable pub reset : Client → Option Client
  unfolding do_close
  reset c = elim (do_close c) [
    | none ↦ none
    | some c' ↦ some (record c' {
      state = client_initial;
      link = record c'.link {
        session = [];
        sender = false;
        cseq = 0;
        options_sent = false;
        use_get_parameter = false;
      };
      base_url = none;
      effective_transport = none;
      back_channel_setupped = false;
      std_channel_setupped = false;
      setupped_medias = [];
    })
  ]
