-- ===== src/RtpTime/Runs.antt =====
-- Runs of the timestamps: the encoder of the tests, and a decoder across a wrap-around.
use gortsplib.Common.{ℕ, ◌-◌, ◌*◌, ◌/◌, ◌≡◌, refl, true, false, none, some, List, [], ◌∷◌, arith}
use gortsplib.RtpTime.{
  second, TimeEncoder, initialize, encode_time, multiply_and_divide, Track, GlobalDecoder2,
  find_track, put_track, lead, start_track, decode_time, new_decoder,
}
use gortsplib.RtpTime.Exact.{multiply_and_divide_exact, encode_time-initialize}
use gortsplib.RtpTime.Unwrap.{Fed, decode_all, IsUnwrapped, decode_all-IsUnwrapped}

multiply_and_divide_exact_example :
    multiply_and_divide 1500000000 90000 second ≡ 1500000000 * 90000 / second
multiply_and_divide_exact_example =
    multiply_and_divide_exact 1500000000 90000 second (omega arith) (omega arith) (omega arith)
      (omega arith)

encode_time-initialize_example :
    (e : TimeEncoder) × (initialize 90000 (some 12345) none ≡ some e) × (encode_time e 0 ≡ 12345)
encode_time-initialize_example =
    encode_time-initialize 90000 12345 none (omega arith) (omega arith) (omega arith)

abbrev video : Track
video = record { identity = 1; rate = 90000 }

abbrev audio : Track
audio = record { identity = 2; rate = 48000 }

abbrev elapsed : ℕ → ℕ → ℕ
elapsed now before = now - before

-- A decoder that had a packet of the video at the timestamp 4294967000.
abbrev decoder : GlobalDecoder2 ℕ
decoder = record {
  leading_track = some 1;
  start_ntp = 0;
  start_pts = 0;
  start_pts_clock_rate = 90000;
  tracks = (1, record { overall = 0; prev = 4294967000 }) ∷ [];
}

first_run : decode_time elapsed video 0 true 4294967000 (new_decoder 0) ≡ (some 0, decoder)
unfolding decode_time start_track lead find_track put_track multiply_and_divide
first_run = refl

abbrev fed : List (Fed ℕ)
fed =
    record { track = video; now = 1; pts_equals_dts = true; time = 4294970000 }
    ∷ record { track = audio; now = 2; pts_equals_dts = true; time = 5 }
    ∷ record { track = video; now = 3; pts_equals_dts = false; time = 4294969000 }
    ∷ []

found : find_track 1 decoder.tracks ≡ some (record { overall = 0; prev = 4294967000 })
unfolding find_track
found = refl

decode_all-IsUnwrapped_example :
    IsUnwrapped 1 18446744069414584616 fed (decode_all elapsed fed decoder)
decode_all-IsUnwrapped_example =
    decode_all-IsUnwrapped elapsed 1 18446744069414584616 4294967000 fed decoder
      (record { overall = 0; prev = 4294967000 }) found (record { prev = refl; overall = refl })
      (
        (λ e. (refl, (omega arith, omega arith))),
        ((λ e. absurd (omega (arith, e))), ((λ e. (refl, (omega arith, omega arith))), tt)),
      )
