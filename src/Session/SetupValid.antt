-- ===== src/Session/SetupValid.antt =====
-- SETUP from the choice of the media on: it does not panic, and keeps a session valid.
use gortsplib.Common.{
  ℕ, ◌<◌, ◌≡◌, refl, sym, subst, true, false, ◌==◌, ◌&&◌, leb, Option, none, some, List, [], ◌∷◌,
  length, true-ne-false, none-ne-some, some-inj, get_elem?, zero, suc, arith,
}
use gortsplib.Session.{
  State, state_initial, state_pre_play, state_play, state_pre_record, state_record, Transport,
  Response, Stream, ServerSession, same_state, status_ok, has_media,
}
use gortsplib.Session.Requests.{
  TransportHeader, TrackId, track_empty, track_number, track_invalid, Target, SetupRequest,
}
use gortsplib.Session.Setup.{
  find_media_by_track_id, is_for_play, differs, is_setupped, is_answerable, media_of, find_media,
  setup_media,
}
use gortsplib.Session.Methods.{is_live}
use gortsplib.Common.Cases.{if_case, option_case}
use gortsplib.Session.Valid.{is_some, is_publishing, is_multicast, IsValid, Keeps, keeps}
use gortsplib.Session.SetupAdds.{
  Made, IsMediaOf, CanRead, answerable, same_transport-Apart, with_transport-IsValid,
  add_media-Keeps, start_reading-Keeps,
}

abbrev pub SameMedias : Option Stream → Stream → Type 0
SameMedias none st = Unit
SameMedias (some old) st = old.stream_medias ≡ st.stream_medias

-- A stream that is not nil, is the one that the session reads, if it reads one, has a media, and has a
-- format in each media; where the session reads it with multicast, its multicast writers are there.
abbrev pub HasStream : Option Stream → Option Stream → Type 0
HasStream old none = ⊥
HasStream old (some st) =
    (0 < length st.stream_medias)
    × ((m : ℕ) → has_media st.stream_medias m ≡ true → st.has_formats m ≡ true)
    × (st.has_multicast_writers ≡ true)
    × SameMedias old st

-- What the environment owes to a SETUP: a handler, which gives such a stream to a session that is to
-- play, for all its medias the same.
abbrev pub ServesSetup : ServerSession → SetupRequest → Type 0
ServesSetup s r =
    (res : Response) × (stream : Option Stream) × (r.on_setup ≡ some (res, stream))
    × ((res.status == status_ok && is_for_play s.state) ≡ true → HasStream s.setupped_stream stream)

-- The session is one that `checkState` lets pass, and its transport, if it has one, is `t`.
pub record Ready (s : ServerSession) (t : Transport) : Type 0 where
  pub idle : is_live s.state ≡ false
  pub same : differs s.setupped_transport t ≡ false
  pub unicast : is_publishing s.state ≡ true → is_multicast (some t) ≡ false

-- The media is one of the handler's stream.
abbrev pub InStream : Option Stream → ℕ → Type 0
InStream none m = ⊥
InStream (some st) m = has_media st.stream_medias m ≡ true

can_read : (old o : Option Stream) (m : ℕ) → HasStream old o → InStream o m → CanRead o m
can_read old none m h i = absurd h
can_read old (some st) m (_, formats, writers, _) i = (i, formats m i, writers)

is_media_of :
    (old o : Option Stream) (m : ℕ)
    → (is_some old ≡ true → HasStream old o × InStream o m)
    → IsMediaOf old m
is_media_of none o m h = tt
is_media_of (some st) none m h = absurd ((h refl).0)
is_media_of (some st) (some st') m h =
    let (has, inside) = h refl in subst (λ ms. has_media ms m ≡ true) (sym has.3) inside

pub setup_media-Keeps :
    (s : ServerSession) (th : TransportHeader) (t : Transport) (tg : Target)
    (stream : Option Stream) (m : ℕ) (res : Response)
    → IsValid s
    → Ready s t
    → (is_for_play s.state ≡ true → HasStream s.setupped_stream stream)
    → (is_for_play s.state ≡ true → InStream stream m)
    → Made s.setupped_medias t m (media_of s.setupped_medias th t m)
    → Keeps (setup_media s th t tg stream m res)
unfolding setup_media
setup_media-Keeps s th t tg stream m res v ready hs inside made =
    if_case Keeps (is_setupped s.setupped_medias m) (λ twice. keeps _ _ v)
      (λ new.
        if_case Keeps (same_state s.state state_initial)
          (λ first.
            start_reading-Keeps s th t tg stream m res v (ground (arith, first))
              (can_read s.setupped_stream stream m (hs (ground (arith, first)))
                (inside (ground (arith, first))))
              made)
          (λ later.
            add_media-Keeps (record s { setupped_transport = some t }) th t stream m res
              (with_transport-IsValid s t v ready.idle ready.unicast
                (same_transport-Apart s t v ready.same))
              (can_answer s.state (λ p. can_read s.setupped_stream stream m (hs p) (inside p)))
              (is_media_of s.setupped_stream stream m (λ r.
                let p : is_for_play s.state ≡ true = ground (arith, r, v.stream, ready.idle) in
                (hs p, inside p)))
              (ground (arith, later)) refl ready.unicast made))
  where
    can_answer :
        (x : State) → (is_for_play x ≡ true → CanRead stream m) → is_answerable x t stream m ≡ true
    can_answer state_pre_play h = answerable t stream m (h refl)
    can_answer state_initial h = refl
    can_answer state_play h = refl
    can_answer state_pre_record h = refl
    can_answer state_record h = refl

-- The media is looked up without a panic.
abbrev pub Found : Option (Option ℕ) → Type 0
Found o = (x : Option ℕ) × (o ≡ some x)

find_by_track-Found :
    (ms : List ℕ) (id : TrackId) → 0 < length ms → Found (find_media_by_track_id ms id)
unfolding find_media_by_track_id
find_by_track-Found [] track_empty h = absurd (omega arith)
find_by_track-Found (m ∷ ms) track_empty h = (_, refl)
find_by_track-Found ms (track_number id) h =
    if_case Found (leb (length ms) id) (λ e. (_, refl)) (λ e. (_, refl))
find_by_track-Found ms track_invalid h = (_, refl)

pub find_media-Found :
    (s : ServerSession) (r : SetupRequest) (tg : Target) (stream : Option Stream)
    → IsValid s
    → is_live s.state ≡ false
    → (is_for_play s.state ≡ true → HasStream s.setupped_stream stream)
    → Found (find_media s r tg stream)
unfolding find_media
find_media-Found s r tg stream v idle hs =
    if_case Found (is_for_play s.state)
      (λ playing.
        option_case Found stream (λ n. absurd (subst (HasStream s.setupped_stream) n (hs playing)))
          (λ st e.
            find_by_track-Found st.stream_medias tg.track_id
              (subst (HasStream s.setupped_stream) e (hs playing)).0))
      (λ publishing.
        option_case Found s.announced_desc
          (λ n. absurd (true-ne-false (ground (arith, v.announced, n, publishing, idle))))
          (λ ms e. (_, refl)))

get_elem?-has_media :
    (ms : List ℕ) (i : ℕ) {m : ℕ} → get_elem? ms i ≡ some m → has_media ms m ≡ true
get_elem?-has_media [] i h = absurd (none-ne-some h)
get_elem?-has_media (x ∷ ms) zero h = ground (arith, some-inj h)
get_elem?-has_media (x ∷ ms) (suc i) h = ground (arith, get_elem?-has_media ms i h)

find_by_track-has_media :
    (ms : List ℕ) (id : TrackId) {m : ℕ}
    → find_media_by_track_id ms id ≡ some (some m)
    → has_media ms m ≡ true
unfolding find_media_by_track_id
find_by_track-has_media [] track_empty h = absurd (none-ne-some h)
find_by_track-has_media (x ∷ ms) track_empty h = ground (arith, some-inj (some-inj h))
find_by_track-has_media ms (track_number id) {m} h =
    if_case (λ o. o ≡ some (some m) → has_media ms m ≡ true) (leb (length ms) id)
      (λ z e. absurd (none-ne-some (some-inj e))) (λ z e. get_elem?-has_media ms id (some-inj e)) h
find_by_track-has_media ms track_invalid h = absurd (none-ne-some (some-inj h))

pub find_media-InStream :
    (s : ServerSession) (r : SetupRequest) (tg : Target) (stream : Option Stream) (m : ℕ)
    → is_for_play s.state ≡ true
    → find_media s r tg stream ≡ some (some m)
    → InStream stream m
unfolding find_media
find_media-InStream s r tg stream m p h = from stream (rw p at h)
  where
    from :
        (o : Option Stream)
        → elim o as (λ _. Option (Option ℕ)) [
          | none ↦ none
          | some st ↦ find_media_by_track_id st.stream_medias tg.track_id
        ]
          ≡ some (some m)
        → InStream o m
    from none e = absurd (none-ne-some e)
    from (some st) e = find_by_track-has_media st.stream_medias tg.track_id e
