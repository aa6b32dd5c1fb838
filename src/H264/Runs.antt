-- ===== src/H264/Runs.antt =====
-- Runs of the encoder and the decoder, and their theorems on an access unit of three NALUs.
use gortsplib.Common.{◌≡◌, refl, true, false, some, List, [], ◌∷◌, arith}
use gortsplib.Rtp.{Packet}
use gortsplib.H264.Types.{Nalu}
use gortsplib.H264.Encoder.{Encoder}
use gortsplib.H264.Decoder.{Codec, Decoder, Result, err, annexb, decode}
use gortsplib.H264.AnyPacket.{IsBounded, Within, decode-IsBounded}

-- No Annex-B stream is read in these runs.
abbrev codec : Codec
codec = record {
  max_access_unit_size = 3145728;
  max_nalus_per_access_unit = 20;
  annexb_unmarshal = λ bytes. err annexb;
}

-- The numbers wrap after the first packet.
abbrev encoder : Encoder
encoder = record {
  payload_type = 96;
  ssrc = some 7;
  initial_sequence_number = some 65535;
  payload_max_size = 10;
  packetization_mode = 1;
  sequence_number = 65535;
}

abbrev decoder : Decoder
decoder = record {
  packetization_mode = 1;
  first_packet_received = false;
  fragments = [];
  fragments_size = 0;
  fragment_next_seq_num = 0;
  annexb_mode = false;
  frame_buffer = [];
  frame_buffer_len = 0;
  frame_buffer_size = 0;
}

-- A parameter set of three bytes and another of two, which share a packet, and a slice of thirteen,
-- which takes two packets.
abbrev unit : List Nalu
unit =
    (103 ∷ 1 ∷ 2 ∷ [])
    ∷ (104 ∷ 3 ∷ [])
    ∷ (101 ∷ 1 ∷ 2 ∷ 3 ∷ 4 ∷ 5 ∷ 6 ∷ 7 ∷ 8 ∷ 9 ∷ 10 ∷ 11 ∷ 12 ∷ [])
    ∷ []

decoder-IsBounded : IsBounded codec decoder
decoder-IsBounded = record { count = refl; bytes = refl; few = omega arith; small = omega arith }

-- A STAP-A packet with two NALUs.
abbrev aggregate : Packet
aggregate = record {
  version = 2;
  payload_type = 96;
  sequence_number = 5;
  timestamp = 0;
  ssrc = 7;
  marker = true;
  payload = 24 ∷ 0 ∷ 2 ∷ 103 ∷ 1 ∷ 0 ∷ 1 ∷ 104 ∷ [];
}

decode-IsBounded_example :
    (r : Result (List Nalu)) × (d' : Decoder) × (decode codec decoder aggregate ≡ some (r, d'))
    × IsBounded codec d'
    × Within codec r
decode-IsBounded_example = decode-IsBounded codec decoder aggregate decoder-IsBounded
