-- ===== src/Stream/WriteSafe.antt =====
-- A write on a media of the stream that has the format of the packet does not panic.
use gortsplib.Common.{
  ℕ, ◌+◌, ◌*◌, ◌≡◌, refl, sym, ap, ◌∙◌, subst, Bool, true, false, ◌==◌, ◌||◌, if◌then◌else◌, Option,
  none, some, List, [], ◌∷◌, true-ne-false, is_some, arith,
}
use gortsplib.Common.Cases.{if_case, some_case}
use gortsplib.Common.Int.{ℤ}
use gortsplib.Common.Words.{u64}
use gortsplib.Rtp.{Packet}
use gortsplib.Stream.{StreamFormat, StreamMedia}
use gortsplib.Stream.Writes.{
  Takers, copies, media_write_rtcp, media_write_rtp, format_write_rtp, on_media,
}
use gortsplib.Stream.Writers.{AllOpen}

module _ {T : Type 0} where
  abbrev pub has_format : ℕ → List (StreamFormat T) → Bool
  has_format p [] = false
  has_format p (f ∷ fs) = f.payload_type == p || has_format p fs

  -- The media `i` is there, and satisfies `q`.
  abbrev pub fits : (StreamMedia T → Bool) → ℕ → List (StreamMedia T) → Bool
  fits q i [] = false
  fits q i (m ∷ ms) = if m.media == i then q m else fits q i ms

  -- The result of a write on a media: it returns, and the multicast writer stays.
  abbrev pub Stays : StreamMedia T → Option (Bool × StreamMedia T) → Type 0
  Stays m o =
      (r : Bool × StreamMedia T) × (o ≡ some r) × (r.1.multicast_writer ≡ m.multicast_writer)

  abbrev pub Written : List (StreamMedia T) → Option (Bool × List (StreamMedia T)) → Type 0
  Written ms o = (r : Bool × List (StreamMedia T)) × (o ≡ some r) × (AllOpen ms → AllOpen r.1)

  pub on_media-Written :
      (q : StreamMedia T → Bool) (i : ℕ) (f : StreamMedia T → Option (Bool × StreamMedia T))
      (ms : List (StreamMedia T))
      → fits q i ms ≡ true
      → ((m : StreamMedia T) → q m ≡ true → Stays m (f m))
      → Written ms (on_media i f ms)
  unfolding on_media
  on_media-Written q i f [] h s = absurd (true-ne-false (sym h))
  on_media-Written q i f (m ∷ ms) h s =
      if_case (Written (m ∷ ms)) (m.media == i)
        (λ e.
          let (r, er, w) = s m (subst (λ b. (if b then q m else fits q i ms) ≡ true) e h) in
          some_case (Written (m ∷ ms)) (f m) none (λ r. some (r.0, r.1 ∷ ms)) er
            (_, refl, λ a. (ap is_some w ∙ a.0, a.1)))
        (λ e.
          let (r, er, w) =
            on_media-Written q i f ms (subst (λ b. (if b then q m else fits q i ms) ≡ true) e h)
              s in
          some_case (Written (m ∷ ms)) (on_media i f ms) none (λ r. some (r.0, m ∷ r.1)) er
            (_, refl, λ a. (a.0, w a.1)))

  pub format_write_rtp-is_some :
      (n : ℕ) (pkt : Packet) (ntp : ℤ) (same : Bool) (now : T) (fs : List (StreamFormat T))
      → has_format pkt.payload_type fs ≡ true
      → (fs' : List (StreamFormat T)) × (format_write_rtp n pkt ntp same now fs ≡ some fs')
  unfolding format_write_rtp
  format_write_rtp-is_some n pkt ntp same now [] h = absurd (true-ne-false (sym h))
  format_write_rtp-is_some n pkt ntp same now (f ∷ fs) h =
      if_case Goal (f.payload_type == pkt.payload_type) (λ e. (_, refl))
        (λ e.
          let (fs', r) = format_write_rtp-is_some n pkt ntp same now fs (ground (arith, h, e)) in
          some_case Goal (format_write_rtp n pkt ntp same now fs) none (λ fs'. some (f ∷ fs')) r
            (_, refl))
    where
      Goal : Option (List (StreamFormat T)) → Type 0
      Goal o = (fs' : List (StreamFormat T)) × (o ≡ some fs')

  pub media_write_rtp-Stays :
      (t : Takers) (active : List ℕ) (le : ℕ) (pkt : Packet) (ntp : ℤ) (same : Bool) (now : T)
      (m : StreamMedia T)
      → has_format pkt.payload_type m.formats ≡ true
      → Stays m (media_write_rtp t active le pkt ntp same now m)
  unfolding media_write_rtp
  media_write_rtp-Stays t active le pkt ntp same now m h =
      let n = (copies t active m).0 in
      let (fs, e) = format_write_rtp-is_some n pkt ntp same now m.formats h in
      some_case (Stays m) (format_write_rtp n pkt ntp same now m.formats) none
        (λ fs. some (
          (copies t active m).1,
          record m { formats = fs; bytes_sent = u64 (m.bytes_sent + n * le) },
        ))
        e (_, refl, refl)

  pub media_write_rtcp-Stays :
      (t : Takers) (active : List ℕ) (le : ℕ) (m : StreamMedia T)
      → Stays m (some (media_write_rtcp t active le m))
  unfolding media_write_rtcp
  media_write_rtcp-Stays t active le m = (_, refl, refl)
