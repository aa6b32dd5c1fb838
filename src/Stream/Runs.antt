-- ===== src/Stream/Runs.antt =====
-- A stream of one media, with a reader over UDP multicast.
use gortsplib.Common.{ℕ, ◌≡◌, refl, sym, true, false, true-ne-false, none, some, [], ◌∷◌}
use gortsplib.Common.Int.{pos, ◌+ℤ◌}
use gortsplib.Rtp.{Packet}
use gortsplib.Session.{Transport, transport_udp_multicast}
use gortsplib.Sender.{RtcpSender}
use gortsplib.Stream.{ServerStream, is_in}
use gortsplib.Stream.Readers.{reader_add, new_stream}
use gortsplib.Stream.Writes.{Takers}
use gortsplib.Stream.Safe.{IsValidStream}
use gortsplib.Stream.Steps.{
  StreamCall, adds, made, called, ReachableStream-IsValidStream, writes_rtp, call, IsSafeCall,
  call-IsSafeCall,
}

abbrev sender : RtcpSender ℕ
sender = record {
  clock_rate = 90000;
  first_rtp_packet_sent = false;
  last_time_rtp = 0;
  last_time_ntp = pos 0;
  last_time_system = 0;
  local_ssrc = 0;
  last_sequence_number = 0;
  packet_count = 0;
  octet_count = 0;
}

abbrev packet : Packet
packet = record {
  version = 2;
  payload_type = 96;
  sequence_number = 1;
  timestamp = 90000;
  ssrc = 7;
  marker = true;
  payload = 1 ∷ 2 ∷ [];
}

abbrev stream : ServerStream ℕ
stream = record {
  readers = 3 ∷ [];
  multicast_reader_count = pos 1;
  active_unicast_readers = [];
  medias =
      record {
        media = 42;
        formats = record { payload_type = 96; rtcp_sender = sender; rtp_packets_sent = 0 } ∷ [];
        multicast_writer = some (9 ∷ []);
        bytes_sent = 0;
        rtcp_packets_sent = 0;
      }
      ∷ [];
  closed = false;
}

abbrev closed_stream : ServerStream ℕ
closed_stream = record stream { closed = true }

abbrev all_multicast : ℕ → Transport
all_multicast k = transport_udp_multicast

abbrev author_of : ℕ → ℕ
author_of k = 9

abbrev takers : Takers
takers = record { has_media = λ k. true; takes = λ k. true; multicast_takes = true }

call-IsSafeCall_example : IsSafeCall all_multicast author_of (
    call all_multicast author_of stream
      (writes_rtp takers 42 (some 14) packet (pos 1700000000000000000) true 5))
call-IsSafeCall_example =
    call-IsSafeCall all_multicast author_of stream
      (writes_rtp takers 42 (some 14) packet (pos 1700000000000000000) true 5)
      (record {
        counted = refl;
        opened = λ q. (refl, tt);
        unique = (refl, tt);
        active = λ k h. absurd (true-ne-false (sym h));
      })
      refl

-- A new stream, and one with a reader of multicast.
abbrev fresh : ServerStream ℕ
fresh = record stream {
  readers = [];
  multicast_reader_count = pos 0;
  medias =
      record {
        media = 42;
        formats = record { payload_type = 96; rtcp_sender = sender; rtp_packets_sent = 0 } ∷ [];
        multicast_writer = none;
        bytes_sent = 0;
        rtcp_packets_sent = 0;
      }
      ∷ [];
}

abbrev read : ServerStream ℕ
read = record fresh {
  readers = 3 ∷ [];
  multicast_reader_count = pos 1;
  medias =
      record {
        media = 42;
        formats = record { payload_type = 96; rtcp_sender = sender; rtp_packets_sent = 0 } ∷ [];
        multicast_writer = some [];
        bytes_sent = 0;
        rtcp_packets_sent = 0;
      }
      ∷ [];
}

fresh_run : new_stream 0 ((42, (96, 90000) ∷ []) ∷ []) ≡ fresh
unfolding new_stream
fresh_run = refl

abbrev add_it : StreamCall ℕ
add_it = adds (λ k. []) (λ m. true) 3 0

add_run :
    call all_multicast author_of (new_stream 0 ((42, (96, 90000) ∷ []) ∷ [])) add_it
    ≡ some (none, read)
unfolding call reader_add new_stream ◌+ℤ◌
add_run = refl

none_yet : is_in 3 (new_stream {T = ℕ} 0 ((42, (96, 90000) ∷ []) ∷ [])).readers ≡ false
unfolding new_stream
none_yet = refl

ReachableStream-IsValidStream_example : IsValidStream all_multicast author_of read
ReachableStream-IsValidStream_example = ReachableStream-IsValidStream all_multicast author_of read (
    called (new_stream 0 ((42, (96, 90000) ∷ []) ∷ [])) read add_it none
      (made 0 ((42, (96, 90000) ∷ []) ∷ [])) none_yet add_run)
