-- ===== src/Session/Runs.antt =====
-- Runs of a session: SETUP and PLAY over TCP, and the theorems at the session that plays.
use gortsplib.Common.{ℕ, ◌≡◌, refl, ◌*◌, true, false, none, some, List, [], ◌∷◌, arith}
use gortsplib.Session.{
  state_pre_play, state_play, check_state, transport_tcp, switch_read_func, Response, writer_idle,
  SessionMedia, Stream, ServerSession, Server, new_session, read_rtp_play, read_rtcp_play,
}
use gortsplib.Session.Channels.{
  is_channel_pair_in_use, find_loop, find_free_channel_pair, find_free_channel_pair-is_free,
}
use gortsplib.Session.Requests.{
  protocol_tcp, TransportHeader, track_number, SetupRequest, PathRequest, setup, play, pause,
}
use gortsplib.Session.Setup.{
  find_first_supported_transport_header, setup_session, setup_checked, check_transport, check_mode,
  setup_handled, find_media, find_media_by_track_id, setup_media, start_reading, add_media,
  media_of,
}
use gortsplib.Session.Methods.{play_session, play_handled, play_start}
use gortsplib.Session.Handle.{handle_request, handle_method}
use gortsplib.Session.Valid.{IsValid}
use gortsplib.Session.Answered.{handle_request-IsValid}
use gortsplib.Session.Loop.{
  Round, goes_on, request, async_start_writer, step, on_request, timeout_of,
}
use gortsplib.Session.LoopValid.{Reachable, opened, after, Reachable-IsValid, step_total}

abbrev server : Server
server = record {
  has_udp_listener = true;
  has_multicast_range = false;
  write_queue_size = 256;
  session_timeout = 60;
  read_timeout = 10;
}

abbrev ok : Response
ok = record { status = 200; error = none }

abbrev tcp_header : TransportHeader
tcp_header = record {
  protocol = protocol_tcp;
  is_multicast = false;
  client_ports = none;
  interleaved_ids = none;
  mode = none;
}

abbrev stream : Stream
stream = record {
  stream_medias = 41 ∷ 42 ∷ [];
  accepts_reader = true;
  has_formats = λ m. true;
  has_multicast_writers = true;
}

-- SETUP of the second media of the stream, at the path 7.
abbrev setup_second : SetupRequest
setup_second = record {
  transports = some (tcp_header ∷ []);
  target = some (record { path = 7 ∷ []; query = []; track_id = track_number 1 });
  by_url = none;
  on_setup = some (ok, some stream);
}

abbrev play_it : PathRequest
play_it = record { request_path = 7 ∷ []; on_request = some ok }

-- The session after SETUP from connection 3.
abbrev prepared : ServerSession
prepared = record (new_session 100) {
  conns = 3 ∷ [];
  last_request_time = 101;
  state = state_pre_play;
  setupped_medias =
      record { media = 42; tcp_channel = 0; udp_rtp_read_port = 0; udp_rtcp_read_port = 0 } ∷ [];
  setupped_transport = some transport_tcp;
  setupped_stream = some stream;
  setupped_path = 7 ∷ [];
}

setup_run :
    step server 101 (new_session 100) (request 3 (setup setup_second))
    ≡ some (goes_on (some (record { response = ok; has_timeout = false })) prepared)
unfolding step on_request handle_request handle_method setup_session check_state
    find_first_supported_transport_header setup_checked check_transport check_mode setup_handled
    find_media find_media_by_track_id setup_media start_reading add_media media_of
    find_free_channel_pair find_loop is_channel_pair_in_use timeout_of
setup_run = refl

-- After PLAY, the writer waits for the response to be sent.
abbrev playing : ServerSession
playing = record prepared {
  last_request_time = 102;
  state = state_play;
  medias_started = true;
  tcp_callbacks = (0, read_rtp_play) ∷ (1, read_rtcp_play) ∷ [];
  reader_active = true;
  tcp_conn = some 3;
  udp_last_packet_time = 102;
  writer = writer_idle 256;
  time_decoder = true;
}

switched : Response
switched = record { status = 200; error = some (switch_read_func true) }

play_run :
    step server 102 prepared (request 3 (play play_it))
    ≡ some (goes_on (some (record { response = switched; has_timeout = false })) playing)
unfolding step on_request handle_request handle_method play_session check_state play_handled
    play_start timeout_of switched
play_run = refl

prepared-Reachable : Reachable server prepared
prepared-Reachable =
    after 101 (new_session 100) prepared (request 3 (setup setup_second)) _ (opened 100)
      (ok, some stream, refl, λ h. (omega arith, λ m i. refl, refl, tt)) setup_run

playing-Reachable : Reachable server playing
playing-Reachable =
    after 102 prepared playing (request 3 (play play_it)) _ prepared-Reachable refl play_run

playing-IsValid : IsValid playing
playing-IsValid = Reachable-IsValid server playing playing-Reachable

Reachable-IsValid_example : IsValid playing
Reachable-IsValid_example = Reachable-IsValid server playing playing-Reachable

step_total_example : (round : Round) × (step server 103 playing async_start_writer ≡ some round)
step_total_example = step_total server 103 playing async_start_writer playing-Reachable tt

handle_request-IsValid_example :
    (res : Response) × (s' : ServerSession) × (handle_request server 104 3 playing (pause play_it)
      ≡ some (res, s'))
    × IsValid s'
handle_request-IsValid_example =
    handle_request-IsValid server 104 3 playing (pause play_it) playing-IsValid refl

-- Two medias on the channels 0 and 4: the pair from 2 on is free.
abbrev two_medias : List SessionMedia
two_medias =
    record { media = 1; tcp_channel = 0; udp_rtp_read_port = 0; udp_rtcp_read_port = 0 }
    ∷ record { media = 2; tcp_channel = 4; udp_rtp_read_port = 0; udp_rtcp_read_port = 0 }
    ∷ []

find_free_channel_pair-is_free_example :
    (channel n : ℕ) × (find_free_channel_pair two_medias ≡ some channel)
    × (channel ≡ 2 * n)
    × (is_channel_pair_in_use two_medias channel ≡ false)
find_free_channel_pair-is_free_example = find_free_channel_pair-is_free two_medias
