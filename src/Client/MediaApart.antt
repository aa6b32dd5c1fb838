-- ===== src/Client/MediaApart.antt =====
-- The interleaved channels of the medias of a client.
use mathlib.Core.List.{map}
use gortsplib.Common.{ℕ, ◌+◌, ◌≡◌, refl, false, ◌==◌, ◌||◌, some, List, [], ◌∷◌, arith}
use gortsplib.Common.Cases.{if_case}
use gortsplib.Session.Channels
use gortsplib.Client.{ClientMedia}
use gortsplib.Client.Media.{
  as_session, is_channel_pair_in_use, find_free_channel_pair, insert_media,
}

-- No two medias share a channel.
abbrev pub ChannelsApart : List ClientMedia → Type 0
ChannelsApart [] = Unit
ChannelsApart (cm ∷ cms) = (is_channel_pair_in_use cms cm.tcp_channel ≡ false) × ChannelsApart cms

in_use-cons :
    (cm : ClientMedia) (cms : List ClientMedia) (ch : ℕ)
    → is_channel_pair_in_use (cm ∷ cms) ch ≡ (
        (cm.tcp_channel + 1 == ch || (cm.tcp_channel == ch || cm.tcp_channel == ch + 1))
        || is_channel_pair_in_use cms ch)
unfolding is_channel_pair_in_use Channels.is_channel_pair_in_use
in_use-cons cm cms ch = refl

in_use-nil : (ch : ℕ) → is_channel_pair_in_use [] ch ≡ false
unfolding is_channel_pair_in_use Channels.is_channel_pair_in_use
in_use-nil ch = refl

in_use-insert_media :
    (cms : List ClientMedia) (x y : ClientMedia)
    → is_channel_pair_in_use cms x.tcp_channel ≡ false
    → is_channel_pair_in_use (x ∷ []) y.tcp_channel ≡ false
    → is_channel_pair_in_use (insert_media y cms) x.tcp_channel ≡ false
unfolding insert_media
in_use-insert_media [] x y h k = ground (
  arith,
  in_use-cons y [] x.tcp_channel,
  in_use-nil x.tcp_channel,
  in_use-cons x [] y.tcp_channel,
  k,
)
in_use-insert_media (cm ∷ cms) x y h k =
    let rest =
      in_use-insert_media cms x y (ground (arith, in_use-cons cm cms x.tcp_channel, h)) k in
    if_case (λ ms. is_channel_pair_in_use ms x.tcp_channel ≡ false) (cm.media == y.media)
      (λ e. ground (
        arith,
        in_use-cons y cms x.tcp_channel,
        in_use-cons cm cms x.tcp_channel,
        in_use-cons x [] y.tcp_channel,
        h,
        k,
      ))
      (λ e. ground (
        arith,
        in_use-cons cm (insert_media y cms) x.tcp_channel,
        in_use-cons cm cms x.tcp_channel,
        rest,
        h,
      ))

-- A media on a pair that is not in use stays apart from the others, also where it takes the place
-- of an earlier one.
pub insert_media-ChannelsApart :
    (cms : List ClientMedia) (y : ClientMedia)
    → ChannelsApart cms
    → is_channel_pair_in_use cms y.tcp_channel ≡ false
    → ChannelsApart (insert_media y cms)
unfolding insert_media
insert_media-ChannelsApart [] y a h = (h, tt)
insert_media-ChannelsApart (cm ∷ cms) y (ac, acs) h =
    if_case ChannelsApart (cm.media == y.media)
      (λ e. (ground (arith, in_use-cons cm cms y.tcp_channel, h), acs))
      (λ e. (
        in_use-insert_media cms cm y ac (
            ground (
              arith,
              in_use-cons cm [] y.tcp_channel,
              in_use-nil y.tcp_channel,
              in_use-cons cm cms y.tcp_channel,
              h,
            )),
        insert_media-ChannelsApart cms y acs (ground (arith, in_use-cons cm cms y.tcp_channel, h)),
      ))

-- `findFreeChannelPair` ends.
pub find_free_channel_pair-is_some :
    (cms : List ClientMedia) → (ch : ℕ) × (find_free_channel_pair cms ≡ some ch)
unfolding find_free_channel_pair
find_free_channel_pair-is_some cms =
    let (ch, n, e, even, free) = Channels.find_free_channel_pair-is_free (map as_session cms) in
    (ch, e)
