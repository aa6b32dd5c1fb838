-- ===== src/Lpcm/Runs.antt =====
-- Samples of 16 bits over packets of 4 bytes.
use gortsplib.Common.{◌≡◌, refl, none, some, List, [], ◌∷◌, arith}
use gortsplib.Rtp.{Packet}
use gortsplib.Lpcm.{LpcmEncoder, init_encoder, encode_samples, LpcmDecoder}
use gortsplib.Lpcm.RoundTrip.{decode_all, Fits, decode_all-encode_samples}

abbrev encoder : LpcmEncoder
encoder = record {
  payload_type = 96;
  bit_depth = 16;
  channel_count = 1;
  ssrc = some 7;
  initial_sequence_number = some 65535;
  payload_max_size = 5;
  sequence_number = 65535;
  sample_size = 2;
  max_payload_size = 4;
}

init_run :
    init_encoder none none
      (record encoder { sequence_number = 0; sample_size = 0; max_payload_size = 0 })
    ≡ some (some encoder)
unfolding init_encoder
init_run = refl

abbrev decoder : LpcmDecoder
decoder = record { depth = 16; channels = 1; size_of_sample = 2 }

decode_all-encode_samples_example :
    (ps : List Packet) × (e' : LpcmEncoder) × (encode_samples encoder (1 ∷ 2 ∷ 3 ∷ 4 ∷ 5 ∷ 6 ∷ [])
      ≡ some (some ps, e'))
    × (decode_all decoder ps ≡ some (1 ∷ 2 ∷ 3 ∷ 4 ∷ 5 ∷ 6 ∷ []))
    × Fits 2 4 ps
decode_all-encode_samples_example =
    decode_all-encode_samples encoder decoder (1 ∷ 2 ∷ 3 ∷ 4 ∷ 5 ∷ 6 ∷ []) 7 refl refl (omega arith)
      (omega arith) refl refl
