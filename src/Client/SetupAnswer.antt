-- ===== src/Client/SetupAnswer.antt =====
-- The answer to SETUP: a client that sets up a media stays valid.
use gortsplib.Common.{
  ℕ, ◌≡◌, refl, sym, ap, ◌∙◌, Bool, true, false, none, some, List, [], ◌∷◌, true-ne-false, is_some,
  ◌==◌, arith,
}
use gortsplib.Common.Cases.{if_case, option_case}
use gortsplib.Session.{Transport, transport_udp, transport_udp_multicast, transport_tcp}
use gortsplib.Session.Valid.{is_tcp}
use gortsplib.Client.{
  ClientState, client_initial, client_pre_play, client_pre_record, check_client_state, Url,
  TransportAnswer, Answer, Net, Config, ClientMedia, Client,
}
use gortsplib.Client.Media.{is_channel_pair_in_use, insert_media}
use gortsplib.Client.Setup.{
  SetupCall, is_rtsps, choose_transport, check_tcp, check_answer, set_up, finish_setup,
}
use gortsplib.Client.LinkValid.{IsOpen}
use gortsplib.Client.MediaApart.{ChannelsApart, insert_media-ChannelsApart}
use gortsplib.Client.Valid.{has_medias, IsValid, Keeps, keeps, refuses}

-- The states that `doSetup` goes on in.
abbrev pub is_idle : ClientState → Bool
is_idle client_initial = true
is_idle client_pre_play = true
is_idle client_pre_record = true
is_idle _ = false

pub idle_checked :
    (s : ClientState)
    → check_client_state (client_initial ∷ client_pre_play ∷ client_pre_record ∷ []) s ≡ is_idle s
unfolding check_client_state
idle_checked s = ground arith

apart_none : (cms : List ClientMedia) → has_medias cms ≡ false → ChannelsApart cms
apart_none [] h = tt
apart_none (cm ∷ cms) h = absurd (true-ne-false h)

insert_media-has_medias :
    (cm : ClientMedia) (cms : List ClientMedia) → has_medias (insert_media cm cms) ≡ true
unfolding insert_media
insert_media-has_medias cm [] = refl
insert_media-has_medias cm (x ∷ xs) =
    if_case (λ ms. has_medias ms ≡ true) (x.media == cm.media) (λ e. refl) (λ e. refl)

-- A transport, for a client with none, which has no medias.
pub with_transport-IsValid :
    {d : Bool} (c : Client) (t : Transport)
    → IsValid d c
    → is_some c.effective_transport ≡ false
    → IsValid d (record c { effective_transport = some t })
with_transport-IsValid c t v e = record {
  writer = v.writer;
  decoder = v.decoder;
  started = v.started;
  keepalive = v.keepalive;
  check = v.check;
  transport = λ h. refl;
  based = v.based;
  linked = v.linked;
  apart = λ h. apart_none c.setupped_medias (ground (arith, v.transport, e));
  described = v.described;
  whole = v.whole;
}

-- The base URL, for a client that is open.
pub with_base-IsValid :
    {d : Bool} (c : Client) (u : Url) → IsValid d c → IsValid d (record c { base_url = some u })
with_base-IsValid c u v = record {
  writer = v.writer;
  decoder = v.decoder;
  started = v.started;
  keepalive = v.keepalive;
  check = v.check;
  transport = v.transport;
  based = λ h. refl;
  linked = v.linked;
  apart = v.apart;
  described = v.described;
  whole = v.whole;
}

module _ (net : Net) (cfg : Config) where
  pub choose_transport-IsValid :
      {d : Bool} (c : Client) → IsValid d c → IsValid d (choose_transport net cfg c)
  unfolding choose_transport
  choose_transport-IsValid {d} c v =
      option_case (IsValid d) c.effective_transport
        (λ e.
          if_case (IsValid d) (is_rtsps c.conn_url.scheme)
            (λ s. with_transport-IsValid c transport_tcp v (ap is_some e))
            (λ s.
              option_case (IsValid d) cfg.transport (λ n. v)
                (λ t n. with_transport-IsValid c t v (ap is_some e))))
        (λ t e. v)

  set_up-IsValid :
      {d : Bool} (c : Client) (r : SetupCall) (t : Transport) (channel : ℕ)
      → IsValid d c
      → is_idle c.state ≡ true
      → c.link.nconn ≡ true
      → (is_tcp (some t) ≡ true → ChannelsApart c.setupped_medias)
      → (is_tcp (some t) ≡ true → is_channel_pair_in_use c.setupped_medias channel ≡ false)
      → IsValid d (set_up net cfg c r t channel)
  unfolding set_up
  set_up-IsValid c r t channel v idle n apart free = record {
    writer = ground (arith, v.writer, idle);
    decoder = ground (arith, v.decoder, idle);
    started = ground (arith, v.started, idle);
    keepalive = ground (arith, v.keepalive, idle);
    check = λ h. ground (arith, v.check, idle, h);
    transport = λ h. refl;
    based = λ h. refl;
    linked = λ h. n;
    apart = λ h.
        insert_media-ChannelsApart c.setupped_medias
          (record { media = r.media; tcp_channel = channel }) (apart h) (free h);
    described = v.described;
    whole = v.whole;
  }

  check_tcp-is_free :
      (cms : List ClientMedia) (th : TransportAnswer)
      → (check_tcp net cfg cms th).0 ≡ none
      → is_channel_pair_in_use cms (check_tcp net cfg cms th).1 ≡ false
  unfolding check_tcp
  check_tcp-is_free cms th e = ground (arith, e)

  check_answer-is_free :
      (c : Client) (th : TransportAnswer) (t : Transport)
      → (check_answer net cfg c th t).0 ≡ none
      → is_tcp (some t) ≡ true
      → is_channel_pair_in_use c.setupped_medias (check_answer net cfg c th t).1 ≡ false
  unfolding check_answer
  check_answer-is_free c th transport_udp e h = absurd (true-ne-false (sym h))
  check_answer-is_free c th transport_udp_multicast e h = absurd (true-ne-false (sym h))
  check_answer-is_free c th transport_tcp e h = check_tcp-is_free c.setupped_medias th e

  pub finish_setup-Keeps :
      {d : Bool} (r : SetupCall) (t : Transport) (th : TransportAnswer) (a : Answer) (c : Client)
      → IsValid d c
      → is_idle c.state ≡ true
      → IsOpen c.link
      → (is_tcp (some t) ≡ true → ChannelsApart c.setupped_medias)
      → Keeps d (finish_setup net cfg r t th a c)
  unfolding finish_setup
  finish_setup-Keeps {d} r t th a c v idle (n, w) apart =
      option_case (Keeps d) (check_answer net cfg c th t).0
        (λ e.
          keeps _ _ (set_up-IsValid c r t _ v idle n apart (check_answer-is_free c th t e))
            (unfold set_up in (w ∙ sym n)))
        (λ e q. refuses _ _ refl v)
