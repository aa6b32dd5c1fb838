-- ===== src/Session/SetupAdds.antt =====
-- The end of SETUP, where the media is made and added, keeps a session valid.
use gortsplib.Common.{
  ℕ, ap, inl, inr, Bool-cases, ◌*◌, ◌≡◌, refl, sym, ◌∙◌, not, subst, true, false, Option, none,
  some, some-inj, List, [], ◌∷◌, ◌++◌, true-ne-false, arith,
}
use gortsplib.Session.{
  state_initial, state_pre_play, Transport, transport_udp, transport_udp_multicast, transport_tcp,
  Response, SessionMedia, Stream, ServerSession, has_media,
}
use gortsplib.Session.Channels.{
  find_free_channel_pair, find_free_channel_pair-is_free, is_channel_pair_in_use, Apart,
  Apart-append,
}
use gortsplib.Session.Requests.{TransportHeader, Target}
use gortsplib.Session.Setup.{
  differs, check_transport, is_answerable, media_of, add_media, start_reading,
}
use gortsplib.Session.Methods.{is_live, has_all}
use gortsplib.Common.Cases.{if_case, option_case}
use gortsplib.Session.Valid.{
  is_tcp, has_medias, is_publishing, is_initial, is_multicast, Owns, IsValid, Keeps, keeps,
}

-- The media is made, over TCP with channels that no media has.
abbrev pub Made : List SessionMedia → Transport → ℕ → Option SessionMedia → Type 0
Made sms t m o =
    (sm : SessionMedia) × (o ≡ some sm)
    × (sm.media ≡ m)
    × (is_tcp (some t) ≡ true → is_channel_pair_in_use sms sm.tcp_channel ≡ false)

-- The checks on the header leave the ports of a UDP transport, and there is a free pair of channels.
pub media_of-Made :
    (s : ServerSession) (th : TransportHeader) (t : Transport) (m : ℕ)
    → check_transport s th t ≡ none
    → Made s.setupped_medias t m (media_of s.setupped_medias th t m)
unfolding media_of
media_of-Made s th transport_udp m h =
    option_case (Made s.setupped_medias transport_udp m) th.client_ports
      (λ e. absurd (true-ne-false (unfold check_transport in ground (arith, h, e))))
      (λ ps e. (_, refl, refl, λ q. absurd (true-ne-false (sym q))))
media_of-Made s th transport_udp_multicast m h =
    (_, refl, refl, λ q. absurd (true-ne-false (sym q)))
media_of-Made s th transport_tcp m h =
    option_case (Made s.setupped_medias transport_tcp m) th.interleaved_ids
      (λ e.
        option_case (Made s.setupped_medias transport_tcp m)
          (find_free_channel_pair s.setupped_medias)
          (λ n. absurd (true-ne-false (ground (arith, n, free.2))))
          (λ ch n. (
            _,
            refl,
            refl,
            λ q.
                subst (λ c. is_channel_pair_in_use s.setupped_medias c ≡ false)
                  (some-inj (sym free.2 ∙ n)) free.4,
          )))
      (λ ids e. (
        record { media = m; tcp_channel = ids.0; udp_rtp_read_port = 0; udp_rtcp_read_port = 0 },
        refl,
        refl,
        λ q. unfold check_transport in ground (arith, h, e),
      ))
  where
    free :
        (channel n : ℕ) × (find_free_channel_pair s.setupped_medias ≡ some channel)
        × (channel ≡ 2 * n)
        × (is_channel_pair_in_use s.setupped_medias channel ≡ false)
    free = find_free_channel_pair-is_free s.setupped_medias

has_medias-append :
    (sms : List SessionMedia) (sm : SessionMedia) → has_medias (sms ++ (sm ∷ [])) ≡ true
has_medias-append [] sm = refl
has_medias-append (x ∷ xs) sm = refl

-- The media is one of the stream, where the session reads one.
abbrev pub IsMediaOf : Option Stream → ℕ → Type 0
IsMediaOf none m = Unit
IsMediaOf (some st) m = has_media st.stream_medias m ≡ true

has_all-append :
    (ms : List ℕ) (sms : List SessionMedia) (sm : SessionMedia)
    → has_all ms sms ≡ true
    → has_media ms sm.media ≡ true
    → has_all ms (sms ++ (sm ∷ [])) ≡ true
has_all-append ms [] sm h k = ground arith
has_all-append ms (x ∷ sms) sm h k = ground (arith, has_all-append ms sms sm)

Owns-append :
    (o : Option Stream) (sms : List SessionMedia) (sm : SessionMedia)
    → Owns o sms
    → IsMediaOf o sm.media
    → Owns o (sms ++ (sm ∷ []))
Owns-append none sms sm h k = tt
Owns-append (some st) sms sm h k = has_all-append st.stream_medias sms sm h k

pub add_media-Keeps :
    (s : ServerSession) (th : TransportHeader) (t : Transport) (stream : Option Stream) (m : ℕ)
    (res : Response)
    → IsValid s
    → is_answerable s.state t stream m ≡ true
    → IsMediaOf s.setupped_stream m
    → is_initial s.state ≡ false
    → s.setupped_transport ≡ some t
    → (is_publishing s.state ≡ true → is_multicast (some t) ≡ false)
    → Made s.setupped_medias t m (media_of s.setupped_medias th t m)
    → Keeps (add_media s th t stream m res)
unfolding add_media
add_media-Keeps s th t stream m res v can mine ni e unicast (sm, made, named, free) =
    if_case Keeps (not (is_answerable s.state t stream m))
      (λ z. absurd (true-ne-false (ground (arith, z, can))))
      (λ z.
        option_case Keeps (media_of s.setupped_medias th t m)
          (λ n. absurd (true-ne-false (ground (arith, made, n))))
          (λ sm' q.
            let more = has_medias-append s.setupped_medias sm' in
            keeps _ _ (record {
              stream = v.stream;
              announced = v.announced;
              described = v.described;
              transport = λ h. ground (arith, e);
              unicast = λ h. ground (arith, e, unicast, h);
              fresh = λ h. absurd (true-ne-false (sym h ∙ ni));
              recorded = λ h. more;
              apart = λ h. Apart-append s.setupped_medias sm' (v.apart h) (
                  subst
                    (λ (x : SessionMedia).
                      is_channel_pair_in_use s.setupped_medias x.tcp_channel ≡ false)
                    (some-inj (sym made ∙ q)) (free (sym (ap is_tcp e) ∙ h)));
              writer = v.writer;
              linked = v.linked;
              timer = v.timer;
              active = v.active;
              started = v.started;
              own = Owns-append s.setupped_stream s.setupped_medias sm' v.own (
                  subst (IsMediaOf s.setupped_stream)
                    (sym (ap (λ (x : SessionMedia). x.media) (some-inj (sym q ∙ made)) ∙ named))
                    mine);
              decoder = v.decoder;
            })))

Apart-none : (sms : List SessionMedia) → has_medias sms ≡ false → Apart sms
Apart-none [] h = tt
Apart-none (sm ∷ sms) h = absurd (true-ne-false h)

-- The transport is that of the medias, or there are none.
pub same_transport-Apart :
    (s : ServerSession) (t : Transport)
    → IsValid s
    → differs s.setupped_transport t ≡ false
    → is_tcp (some t) ≡ true
    → Apart s.setupped_medias
same_transport-Apart s t v same tcp = elim (Bool-cases (is_tcp s.setupped_transport)) [
  | inl h ↦ v.apart h
  | inr h ↦ Apart-none s.setupped_medias (ground (arith, v.transport, same, tcp, h))
]

pub with_transport-IsValid :
    (s : ServerSession) (t : Transport)
    → IsValid s
    → is_live s.state ≡ false
    → (is_publishing s.state ≡ true → is_multicast (some t) ≡ false)
    → (is_tcp (some t) ≡ true → Apart s.setupped_medias)
    → IsValid (record s { setupped_transport = some t })
with_transport-IsValid s t v idle unicast apart = record {
  stream = v.stream;
  announced = v.announced;
  described = v.described;
  transport = λ h. refl;
  unicast = λ h. ground (arith, unicast, h);
  fresh = v.fresh;
  recorded = v.recorded;
  apart = apart;
  writer = ground (arith, v.writer, idle);
  linked = ground (arith, v.linked, idle);
  timer = ground (arith, v.timer, idle);
  active = v.active;
  started = v.started;
  own = v.own;
  decoder = v.decoder;
}

Owns-none : (o : Option Stream) (sms : List SessionMedia) → has_medias sms ≡ false → Owns o sms
Owns-none none sms h = tt
Owns-none (some st) [] h = refl
Owns-none (some st) (sm ∷ sms) h = absurd (true-ne-false h)

-- A stream that has the media, with a format, and its multicast writers.
abbrev pub CanRead : Option Stream → ℕ → Type 0
CanRead none m = ⊥
CanRead (some st) m =
    (has_media st.stream_medias m ≡ true)
    × (st.has_formats m ≡ true)
    × (st.has_multicast_writers ≡ true)

pub answerable :
    (t : Transport) (o : Option Stream) (m : ℕ)
    → CanRead o m
    → is_answerable state_pre_play t o m ≡ true
answerable t none m h = absurd h
answerable t (some st) m h = ground (arith, h)

pub start_reading-Keeps :
    (s : ServerSession) (th : TransportHeader) (t : Transport) (tg : Target)
    (stream : Option Stream) (m : ℕ) (res : Response)
    → IsValid s
    → s.state ≡ state_initial
    → CanRead stream m
    → Made s.setupped_medias t m (media_of s.setupped_medias th t m)
    → Keeps (start_reading s th t tg stream m res)
unfolding start_reading
start_reading-Keeps s th t tg stream m res v p hs made =
    option_case Keeps stream (λ n. absurd (subst (λ o. CanRead o m) n hs))
      (λ st e.
        if_case Keeps st.accepts_reader
          (λ ok.
            let can = subst (λ o. CanRead o m) e hs in
            add_media-Keeps _ th t (some st) m res (reading st) (answerable t (some st) m can) can.0
              refl refl (λ h. absurd (true-ne-false (sym h))) made)
          (λ no. keeps _ _ (
            with_transport-IsValid s t v (ground (arith, p))
              (λ h. absurd (true-ne-false (ground (arith, p, h)))) (λ h. none_yet))))
  where
    none_yet : Apart s.setupped_medias
    none_yet = Apart-none s.setupped_medias (ground (arith, v.fresh, p))

    reading :
        (st : Stream)
        → IsValid (record s {
          setupped_transport = some t;
          state = state_pre_play;
          setupped_path = tg.path;
          setupped_query = tg.query;
          setupped_stream = some st;
        })
    reading st = record {
      stream = refl;
      announced = ground (arith, v.announced, p);
      described = v.described;
      transport = λ h. refl;
      unicast = λ h. absurd (true-ne-false (sym h));
      fresh = λ h. absurd (true-ne-false (sym h));
      recorded = λ h. absurd (true-ne-false (sym h));
      apart = λ h. none_yet;
      writer = ground (arith, v.writer, p);
      linked = ground (arith, v.linked, p);
      timer = ground (arith, v.timer, p);
      active = ground (arith, v.active, p);
      started = ground (arith, v.started, p);
      own = Owns-none (some st) s.setupped_medias (ground (arith, v.fresh, p));
      decoder = ground (arith, v.decoder, p);
    }
