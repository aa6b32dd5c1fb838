-- ===== src/Mpeg4Video/Runs.antt =====
-- A frame of five bytes over packets of two.
use gortsplib.Common.{◌≡◌, refl, some, List, [], ◌∷◌, arith}
use gortsplib.Rtp.{Packet}
use gortsplib.Mpeg4Video.{VideoEncoder, encode_frame, VideoDecoder}
use gortsplib.Mpeg4Video.RoundTrip.{deliver_frames, deliver_frames-encode_frame}

abbrev encoder : VideoEncoder
encoder = record { payload_type = 96; ssrc = 7; payload_max_size = 2; sequence_number = 65535 }

abbrev decoder : VideoDecoder
decoder = record { fragments = []; fragments_size = 0; fragment_next_seq_num = 0 }

deliver_frames-encode_frame_example :
    (ps : List Packet) × (e' : VideoEncoder) × (encode_frame encoder (1 ∷ 2 ∷ 3 ∷ 4 ∷ 5 ∷ [])
      ≡ some (ps, e'))
    × (deliver_frames 1048576 decoder ps ≡ some ((1 ∷ 2 ∷ 3 ∷ 4 ∷ 5 ∷ []) ∷ []))
deliver_frames-encode_frame_example =
    deliver_frames-encode_frame 1048576 encoder decoder (1 ∷ 2 ∷ 3 ∷ 4 ∷ 5 ∷ []) (omega arith)
      (omega arith) (omega arith) refl refl
