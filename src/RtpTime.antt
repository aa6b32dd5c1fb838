-- ===== src/RtpTime.antt =====
-- pkg/rtptime: timestamps of RTP packets from durations, and back.
-- An int64 is a number below 2^64, in two's complement, and a `time.Duration` is an int64 of
-- nanoseconds. Times are of a type `T`, of which the code reads the duration between two.
pub mod Exact
pub mod Unwrap
mod Runs
use gortsplib.Common.{
  ℕ, ◌+◌, ◌-◌, ◌*◌, ◌/◌, ◌%◌, Bool, true, false, not, ◌==◌, ◌&&◌, ltb, if◌then◌else◌, Option, none,
  some, List, [], ◌∷◌,
}
use gortsplib.Common.Words.{u32, u64, sub32}

-- Arithmetic of int64: `-`, `*`, and `/` and `%`, which round towards 0, by a positive number.
abbrev pub negate : ℕ → ℕ
negate v = u64 (18446744073709551616 - v)

abbrev pub is_minus : ℕ → Bool
is_minus v = not (ltb v 9223372036854775808)

abbrev pub divide : ℕ → ℕ → ℕ
divide v d = if is_minus v then negate (negate v / d) else v / d

abbrev pub remainder : ℕ → ℕ → ℕ
remainder v d = if is_minus v then negate (negate v % d) else v % d

-- The int64 of an int32.
abbrev pub extend : ℕ → ℕ
extend v = if ltb v 2147483648 then v else u64 (v + 18446744069414584320)

-- `multiplyAndDivide` and `multiplyAndDivide2`
unfoldable pub multiply_and_divide : ℕ → ℕ → ℕ → ℕ
multiply_and_divide v m d = u64 (u64 (divide v d * m) + divide (u64 (remainder v d * m)) d)

abbrev pub second : ℕ
second = 1000000000

unfoldable pub div_ceil : ℕ → ℕ → ℕ
div_ceil n d = if n % d == 0 then n / d else n / d + 1

-- `TimeEncoder`, whose clock rate is positive.
pub record TimeEncoder : Type 0 where
  pub clock_rate : ℕ
  pub initial_timestamp : ℕ
  pub initial_duration : ℕ

-- `TimeEncoder.Initialize`; the first result is whether it succeeds. A timestamp that is not given is
-- read from `crypto/rand`, where `none` is a failure.
unfoldable pub initialize : ℕ → Option ℕ → Option ℕ → Option TimeEncoder
unfolding div_ceil
initialize rate given random =
    elim (elim given as (λ o. Option ℕ) [ some t ↦ some t | none ↦ random ]) [
      | none ↦ none
      | some t ↦ some (record {
        clock_rate = rate;
        initial_timestamp = t;
        initial_duration = div_ceil (u64 (t * second)) rate;
      })
    ]

-- `TimeEncoder.Encode`
unfoldable pub encode_time : TimeEncoder → ℕ → ℕ
unfolding multiply_and_divide
encode_time e ts = u32 (multiply_and_divide (u64 (ts + e.initial_duration)) e.clock_rate second)

-- `globalDecoder2TrackData`
pub record TrackData : Type 0 where
  pub overall : ℕ  -- int64
  pub prev : ℕ  -- uint32

unfoldable pub decode_track : TrackData → ℕ → TrackData
decode_track d ts = record { overall = u64 (d.overall + extend (sub32 ts d.prev)); prev = ts }

-- A track as the decoder sees it: its identity and its clock rate.
pub record Track : Type 0 where
  pub identity : ℕ
  pub rate : ℕ

pub record GlobalDecoder2 (T : Type 0) : Type 0 where
  pub leading_track : Option ℕ
  pub start_ntp : T
  pub start_pts : ℕ  -- int64
  pub start_pts_clock_rate : ℕ
  pub tracks : List (ℕ × TrackData)

-- The map of tracks.
unfoldable pub find_track : ℕ → List (ℕ × TrackData) → Option TrackData
find_track k [] = none
find_track k ((i, d) ∷ more) = if i == k then some d else find_track k more

unfoldable pub put_track : ℕ → TrackData → List (ℕ × TrackData) → List (ℕ × TrackData)
put_track k d [] = (k, d) ∷ []
put_track k d ((i, e) ∷ more) = if i == k then (k, d) ∷ more else (i, e) ∷ put_track k d more

abbrev pub is_leading : ℕ → Option ℕ → Bool
is_leading k none = false
is_leading k (some i) = i == k

module _ {T : Type 0} (since : T → T → ℕ) where
  -- A first track is the leading one.
  unfoldable pub lead : Track → T → GlobalDecoder2 T → GlobalDecoder2 T
  lead track now d = elim d.leading_track [
    | some k ↦ d
    | none ↦ record d {
      leading_track = some track.identity;
      start_ntp = now;
      start_pts = 0;
      start_pts_clock_rate = track.rate;
    }
  ]

  -- The first packet of a track: it starts at the time of the leading track.
  unfoldable pub start_track : Track → T → ℕ → GlobalDecoder2 T → Option ℕ × GlobalDecoder2 T
  unfolding multiply_and_divide lead
  start_track track now ts d =
      let led = lead track now d in
      let start = u64 (
        multiply_and_divide led.start_pts track.rate led.start_pts_clock_rate
        + multiply_and_divide (since now led.start_ntp) track.rate second) in
      (
        some start,
        record led {
          tracks = put_track track.identity (record { overall = start; prev = ts }) led.tracks;
        },
      )

  -- A packet of a track that was seen before.
  unfoldable pub continue_track :
      Track → T → Bool → ℕ → TrackData → GlobalDecoder2 T → Option ℕ × GlobalDecoder2 T
  unfolding decode_track
  continue_track track now pts_equals_dts ts td d =
      let next = decode_track td ts in
      let d1 = record d { tracks = put_track track.identity next d.tracks } in
      (
        some next.overall,
        if is_leading track.identity d.leading_track && pts_equals_dts
            then record d1 { start_ntp = now; start_pts = next.overall }
            else d1,
      )

  -- `GlobalDecoder2.Decode` at the time `now`; the first result is none where the code returns false.
  unfoldable pub decode_time : Track → T → Bool → ℕ → GlobalDecoder2 T → Option ℕ × GlobalDecoder2 T
  unfolding start_track continue_track
  decode_time track now pts_equals_dts ts d =
      if track.rate == 0 then (none, d) else elim (find_track track.identity d.tracks) [
        | none ↦ if not pts_equals_dts then (none, d) else start_track track now ts d
        | some td ↦ continue_track track now pts_equals_dts ts td d
      ]

  -- `GlobalDecoder.Decode`, in nanoseconds.
  unfoldable pub decode_duration :
      Track → T → Bool → ℕ → GlobalDecoder2 T → Option ℕ × GlobalDecoder2 T
  unfolding decode_time multiply_and_divide
  decode_duration track now pts_equals_dts ts d =
      let (r, d') = decode_time track now pts_equals_dts ts d in
      (elim r [ none ↦ none | some v ↦ some (multiply_and_divide v second track.rate) ], d')

-- `NewGlobalDecoder2`; the start fields are set with the first track.
abbrev pub new_decoder : {T : Type 0} → T → GlobalDecoder2 T
new_decoder now = record {
  leading_track = none;
  start_ntp = now;
  start_pts = 0;
  start_pts_clock_rate = 0;
  tracks = [];
}
