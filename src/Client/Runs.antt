-- ===== src/Client/Runs.antt =====
-- Runs of a client: DESCRIBE, SETUP over TCP and PLAY, and the theorems at the clients they come to.
use gortsplib.Common.{ℕ, ◌≡◌, refl, Bool, true, false, Option, none, some, [], ◌∷◌}
use gortsplib.Session.{transport_tcp, writer_running}
use gortsplib.Client.{
  client_pre_play, client_play, check_client_state, scheme_rtsp, Url, session_absent, session_given,
  described, Answer, answered, Net, Config, reader_on, Link, Client, reply, nothing,
}
use gortsplib.Client.Loop.{
  ClientEvent, ClientRound, goes_on, describe_called, setup_called, play_called, new_client,
  client_step,
}
use gortsplib.Client.Outcomes.{IsRefused, do_play-IsRefused}
use gortsplib.Client.Methods.{do_play, concluded}
use gortsplib.Session.Channels
use gortsplib.Client.Exchange.{
  take_session, conn_open, exchange, authenticate, do_plain, do_options, do_once, do_request,
}
use gortsplib.Client.Media.{is_channel_pair_in_use, find_free_channel_pair, insert_media}
use gortsplib.Client.Routines.{start_transport_routines, create_writer, run_writer}
use gortsplib.Client.Describe.{read_description, describe_answered, do_describe}
use gortsplib.Client.Setup.{
  SetupCall, choose_transport, prepare, check_tcp, check_answer, set_up, finish_setup,
  setup_answered, setup_request, do_setup,
}
use gortsplib.Client.LoopValid.{Survives, client_step-Survives}
use gortsplib.Client.LinkValid.{IsWhole}
use gortsplib.Client.Valid.{IsValid}
use gortsplib.Client.Reachable.{Reachable, opened, after, reached-IsValid}

abbrev url : Url
url = record { identity = 7; scheme = scheme_rtsp; has_user = false }

abbrev ok : Answer
ok = record {
  status = 200;
  session_header = session_absent;
  authenticable = false;
  public_get_parameter = true;
  transport = some (record {
    is_tcp = true;
    is_unicast = none;
    server_ports = none;
    ports = none;
    has_destination = false;
    interleaved_ids = some (0, 1);
  });
  location = none;
  description = described none;
}

-- The server answers all requests with 200.
abbrev net : Net
net = record {
  dials = λ n. true;
  outcome = λ n. answered ok;
  listens = λ n. true;
  media_url = λ m u. some u;
}

abbrev cfg : Config
cfg = record { transport = some transport_tcp; any_port_enable = false; write_queue_size = 256 }

abbrev no_back : ℕ → Bool
no_back m = false

-- The link after OPTIONS and `n` more requests.
abbrev link : ℕ → Bool → Link
link n frames = record {
  nconn = true;
  reader = reader_on frames;
  session = [];
  sender = false;
  cseq = n;
  options_sent = true;
  use_get_parameter = true;
  keepalive_period = 30000000000;
  must_close = false;
  sent = n;
}

abbrev describing : Client
describing = record (new_client url) { link = link 2 false; last_describe_url = some url }

abbrev prepared : Client
prepared = record describing {
  link = link 3 false;
  state = client_pre_play;
  base_url = some url;
  effective_transport = some transport_tcp;
  std_channel_setupped = true;
  setupped_medias = record { media = 42; tcp_channel = 0 } ∷ [];
}

abbrev playing : Client
playing = record prepared {
  link = link 4 true;
  state = client_play;
  medias_started = true;
  time_decoder = true;
  keepalive_timer = true;
  check_timeout_timer = true;
  tcp_last_frame_time = 100;
  last_range = 9;
  writer = writer_running 8;
}

abbrev step : Client → ClientEvent → Option ClientRound
step = client_step net cfg 4 0 100 no_back

abbrev call : SetupCall
call = record { base = url; media = 42; is_back_channel = false; rtp_port = 0; rtcp_port = 0 }

describe_run : step (new_client url) (describe_called url) ≡ some (goes_on (reply ok) describing)
unfolding client_step do_describe describe_answered read_description check_client_state conn_open
    do_request do_once exchange take_session authenticate do_options do_plain
describe_run = refl

setup_run : step describing (setup_called call) ≡ some (goes_on (reply ok) prepared)
unfolding client_step do_setup setup_request prepare setup_answered finish_setup check_answer
    check_tcp set_up choose_transport check_client_state conn_open do_request do_once exchange
    take_session authenticate is_channel_pair_in_use find_free_channel_pair insert_media
    Channels.find_free_channel_pair Channels.find_loop Channels.is_channel_pair_in_use
setup_run = refl

play_run : step prepared (play_called (some 9)) ≡ some (goes_on nothing playing)
unfolding client_step do_play check_client_state start_transport_routines create_writer run_writer
    concluded do_request do_once exchange take_session authenticate
play_run = refl

prepared-Reachable : Reachable net cfg 4 0 100 no_back prepared
prepared-Reachable =
    after describing prepared (setup_called call) (reply ok)
      (after (new_client url) describing (describe_called url) (reply ok) (opened url) tt
        describe_run)
      refl setup_run

prepared-IsValid : IsValid false prepared × IsWhole prepared.link
prepared-IsValid = reached-IsValid net cfg 4 0 100 no_back prepared prepared-Reachable

client_step-Survives_example : Survives false (step prepared (play_called (some 9)))
client_step-Survives_example =
    client_step-Survives net cfg 4 0 100 no_back prepared (play_called (some 9)) prepared-IsValid.0
      prepared-IsValid.1 tt

reached-IsValid_example : IsValid false playing × IsWhole playing.link
reached-IsValid_example =
    reached-IsValid net cfg 4 0 100 no_back playing
      (after prepared playing (play_called (some 9)) nothing prepared-Reachable tt play_run)

-- A server that answers with a session and its timeout.
abbrev keyed : Answer
keyed = record ok { session_header = session_given (65 ∷ []) (some 60) }

abbrev keyed_net : Net
keyed_net = record net { outcome = λ n. answered keyed }

-- A client that prepared to play without an OPTIONS that was answered with 200.
abbrev unasked : Client
unasked = record prepared { link = record prepared.link { options_sent = false } }

do_play-IsRefused_example : IsRefused unasked (do_play net cfg 100 0 (some 9) unasked)
do_play-IsRefused_example =
    do_play-IsRefused net cfg 100 0 (some 9) unasked
      (record {
        writer = refl;
        decoder = refl;
        started = refl;
        keepalive = refl;
        check = prepared-IsValid.0.check;
        transport = λ h. refl;
        based = λ h. refl;
        linked = λ h. refl;
        apart = prepared-IsValid.0.apart;
        described = prepared-IsValid.0.described;
        whole = λ h. refl;
      })
      refl refl refl
