-- ===== src/Client/Media.antt =====
-- The medias of a client: `isChannelPairInUse` and `findFreeChannelPair` of client.go, which are
-- those of the session, and the map `setuppedMedias`.
use mathlib.Core.List.{map}
use gortsplib.Common.{ℕ, ◌==◌, if◌then◌else◌, Option, List, [], ◌∷◌, Bool}
use gortsplib.Session.{SessionMedia}
use gortsplib.Session.Channels
use gortsplib.Client.{ClientMedia}

-- A media of a client with the fields of a media of a session.
abbrev pub as_session : ClientMedia → SessionMedia
as_session cm = record {
  media = cm.media;
  tcp_channel = cm.tcp_channel;
  udp_rtp_read_port = 0;
  udp_rtcp_read_port = 0;
}

unfoldable pub is_channel_pair_in_use : List ClientMedia → ℕ → Bool
is_channel_pair_in_use cms channel = Channels.is_channel_pair_in_use (map as_session cms) channel

unfoldable pub find_free_channel_pair : List ClientMedia → Option ℕ
find_free_channel_pair cms = Channels.find_free_channel_pair (map as_session cms)

-- `c.setuppedMedias[medi] = cm`: a media that is there already is replaced.
unfoldable pub insert_media : ClientMedia → List ClientMedia → List ClientMedia
insert_media cm [] = cm ∷ []
insert_media cm (x ∷ xs) = if x.media == cm.media then cm ∷ xs else x ∷ insert_media cm xs
