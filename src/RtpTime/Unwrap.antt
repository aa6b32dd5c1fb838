-- ===== src/RtpTime/Unwrap.antt =====
-- The decoder follows timestamps across their wrap-around.
use gortsplib.Common.{
  ℕ, ◌+◌, ◌<◌, ◌≤◌, ◌≡◌, refl, sym, ap, ◌∙◌, subst, Bool, false, not, ◌==◌, ◌&&◌, if◌then◌else◌,
  Option, none, some, List, [], ◌∷◌, true-ne-false, Bool-cases, inl, inr, arith,
}
use gortsplib.Common.Cases.{if_case, option_case, some_case}
use gortsplib.Common.Words.{u32, u64, sub32}
use gortsplib.RtpTime.{
  extend, TrackData, decode_track, Track, GlobalDecoder2, find_track, put_track, is_leading, lead,
  start_track, continue_track, decode_time,
}

-- The time that a track is at: its timestamp without the wrap-around is `t`, and what the decoder
-- gives differs from it by `start`, modulo 2^64.
pub record IsAt (start t : ℕ) (d : TrackData) : Type 0 where
  pub prev : d.prev ≡ u32 t
  pub overall : d.overall ≡ u64 (start + t)

-- Two times of packets that follow each other are less than 2^31 ticks apart.
abbrev pub Near : ℕ → ℕ → Type 0
Near t t' = (t' < t + 2147483648) × (t ≤ t' + 2147483648)

extend-Near : (t t' : ℕ) → Near t t' → u64 (t + extend (sub32 (u32 t') (u32 t))) ≡ u64 t'
extend-Near t t' (h, k) = ground arith

decode_track-IsAt :
    (start t t' : ℕ) (d : TrackData)
    → IsAt start t d
    → Near t t'
    → IsAt start t' (decode_track d (u32 t'))
unfolding decode_track
decode_track-IsAt start t t' d a n = record {
  prev = refl;
  overall = ground (arith, a.overall, a.prev, extend-Near t t' n);
}

find_track-put_track :
    (k : ℕ) (d : TrackData) (ts : List (ℕ × TrackData)) → find_track k (put_track k d ts) ≡ some d
unfolding find_track put_track
find_track-put_track k d [] = ground arith
find_track-put_track k d ((i, e) ∷ more) =
    if_case (λ ts. find_track k ts ≡ some d) (i == k) (λ h. ground arith)
      (λ h. let rest = find_track-put_track k d more in ground (arith, h, rest))

find_track_other :
    (k i : ℕ) (d : TrackData) (ts : List (ℕ × TrackData))
    → (i == k) ≡ false
    → find_track k (put_track i d ts) ≡ find_track k ts
unfolding find_track put_track
find_track_other k i d [] h = ground (arith, h)
find_track_other k i d ((j, e) ∷ more) h =
    if_case (λ ts. find_track k ts ≡ find_track k ((j, e) ∷ more)) (j == i)
      (λ q. ground (arith, h, q))
      (λ q. let rest = find_track_other k i d more h in ground (arith, rest))

module _ {T : Type 0} (since : T → T → ℕ) where
  -- A packet of the track `k`.
  decode_time_same :
      (track : Track) (now : T) (flag : Bool) (ts : ℕ) (d : GlobalDecoder2 T) (td : TrackData)
      → (track.rate == 0) ≡ false
      → find_track track.identity d.tracks ≡ some td
      → ((decode_time since track now flag ts d).0 ≡ some (decode_track td ts).overall)
        × (find_track track.identity (decode_time since track now flag ts d).1.tracks
            ≡ some (decode_track td ts))
  unfolding decode_time continue_track
  decode_time_same track now flag ts d td r f =
      if_case Goal (track.rate == 0) (λ h. absurd (true-ne-false (sym h ∙ r)))
        (λ h.
          some_case Goal (find_track track.identity d.tracks)
            (if not flag then (none, d) else start_track since track now ts d)
            (λ td'. continue_track since track now flag ts td' d) f
            (
              refl,
              if_case
                  (λ (x : GlobalDecoder2 T).
                    find_track track.identity x.tracks ≡ some (decode_track td ts))
                  (is_leading track.identity d.leading_track && flag) (λ q. put) (λ q. put),
            ))
    where
      Goal : Option ℕ × GlobalDecoder2 T → Type 0
      Goal o =
          (o.0 ≡ some (decode_track td ts).overall)
          × (find_track track.identity o.1.tracks ≡ some (decode_track td ts))

      put :
          find_track track.identity (put_track track.identity (decode_track td ts) d.tracks)
          ≡ some (decode_track td ts)
      put = find_track-put_track track.identity (decode_track td ts) d.tracks

  lead-tracks :
      (track : Track) (now : T) (d : GlobalDecoder2 T) → (lead since track now d).tracks ≡ d.tracks
  unfolding lead
  lead-tracks track now d =
      option_case (λ (x : GlobalDecoder2 T). x.tracks ≡ d.tracks) d.leading_track (λ e. refl)
        (λ k e. refl)

  -- A packet of another track.
  decode_time_other :
      (k : ℕ) (track : Track) (now : T) (flag : Bool) (ts : ℕ) (d : GlobalDecoder2 T)
      → (track.identity == k) ≡ false
      → find_track k (decode_time since track now flag ts d).1.tracks ≡ find_track k d.tracks
  unfolding decode_time start_track continue_track
  decode_time_other k track now flag ts d h =
      if_case Goal (track.rate == 0) (λ r. refl)
        (λ r.
          option_case Goal (find_track track.identity d.tracks)
            (λ n.
              if_case Goal (not flag) (λ f. refl)
                (λ f.
                  find_track_other k track.identity _ (lead since track now d).tracks h
                  ∙ ap (find_track k) (lead-tracks track now d)))
            (λ td e.
              if_case (λ (x : GlobalDecoder2 T). find_track k x.tracks ≡ find_track k d.tracks)
                (is_leading track.identity d.leading_track && flag)
                (λ q. find_track_other k track.identity _ d.tracks h)
                (λ q. find_track_other k track.identity _ d.tracks h)))
    where
      Goal : Option ℕ × GlobalDecoder2 T → Type 0
      Goal o = find_track k o.1.tracks ≡ find_track k d.tracks

-- A packet as the decoder gets it, with its time without the wrap-around.
pub record Fed (T : Type 0) : Type 0 where
  pub track : Track
  pub now : T
  pub pts_equals_dts : Bool
  pub time : ℕ

unfoldable pub decode_all :
    {T : Type 0} → (T → T → ℕ) → List (Fed T) → GlobalDecoder2 T → List (Option ℕ)
decode_all since [] d = []
decode_all since (e ∷ es) d =
    let (r, d') = decode_time since e.track e.now e.pts_equals_dts (u32 e.time) d in
    r ∷ decode_all since es d'

-- The packets of the track `k` follow each other within 2^31 ticks, from the time `t` on.
abbrev pub IsContinuous : {T : Type 0} → ℕ → ℕ → List (Fed T) → Type 0
IsContinuous k t [] = Unit
IsContinuous k t (e ∷ es) =
    (e.track.identity ≡ k → ((e.track.rate == 0) ≡ false) × Near t e.time)
    × IsContinuous k (if e.track.identity == k then e.time else t) es

-- What the decoder gives for the packets of the track `k`: their times, moved by `start`.
abbrev pub IsUnwrapped : {T : Type 0} → ℕ → ℕ → List (Fed T) → List (Option ℕ) → Type 0
IsUnwrapped k start [] rs = rs ≡ []
IsUnwrapped k start (e ∷ es) [] = ⊥
IsUnwrapped k start (e ∷ es) (r ∷ rs) =
    (e.track.identity ≡ k → r ≡ some (u64 (start + e.time))) × IsUnwrapped k start es rs

-- A decoder that knows the track `k`, at the time `t`, gives for every packet of the track its time
-- moved by `start`, across any number of wrap-arounds and whatever other tracks do in between.
pub decode_all-IsUnwrapped :
    {T : Type 0} (since : T → T → ℕ) (k start t : ℕ) (es : List (Fed T)) (d : GlobalDecoder2 T)
    (td : TrackData)
    → find_track k d.tracks ≡ some td
    → IsAt start t td
    → IsContinuous k t es
    → IsUnwrapped k start es (decode_all since es d)
unfolding decode_all
decode_all-IsUnwrapped since k start t [] d td f a c = refl
decode_all-IsUnwrapped since k start t (e ∷ es) d td f a (c, cs) =
    elim (Bool-cases (e.track.identity == k)) [
      | inl h ↦
          let q : e.track.identity ≡ k = ground (arith, h) in
          let (rate, near) = c q in
          let (r, f') =
            decode_time_same since e.track e.now e.pts_equals_dts (u32 e.time) d td rate
              (subst (λ i. find_track i d.tracks ≡ some td) (sym q) f) in
          let a' = decode_track-IsAt start t e.time td a near in
          (
            λ p. r ∙ ap some a'.overall,
            decode_all-IsUnwrapped since k start e.time es _ (decode_track td (u32 e.time))
                (subst
                  (λ i.
                    find_track i
                      (decode_time since e.track e.now e.pts_equals_dts (u32 e.time) d).1.tracks
                    ≡ some (decode_track td (u32 e.time)))
                  q f')
                a' (subst (λ b. IsContinuous k (if b then e.time else t) es) h cs),
          )
      | inr h ↦ (
        λ q. absurd (true-ne-false (ground (arith, h, q))),
        decode_all-IsUnwrapped since k start t es _ td
            (decode_time_other since k e.track e.now e.pts_equals_dts (u32 e.time) d h ∙ f) a
            (subst (λ b. IsContinuous k (if b then e.time else t) es) h cs),
      )
    ]
