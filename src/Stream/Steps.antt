-- ===== src/Stream/Steps.antt =====
-- The calls of a stream, one behind the other.
use gortsplib.Common.{
  ℕ, ◌≡◌, refl, sym, subst, Bool, true, false, ◌&&◌, if◌then◌else◌, Option, none, some, List,
  true-ne-false, some-inj,
}
use gortsplib.Common.Cases.{if_case, some_case}
use gortsplib.Common.Int.{ℤ}
use gortsplib.Rtp.{Packet}
use gortsplib.Session.{Transport}
use gortsplib.Stream.{
  StreamMedia, ServerStream, StreamError, stream_closed, marshal_failed, is_in, write_queue_full,
}
use gortsplib.Stream.Readers.{
  Called, reader_add, reader_remove, reader_set_active, reader_set_inactive, close_stream,
  has_senders, new_stream,
}
use gortsplib.Stream.Writes.{
  Takers, media_write_rtcp, media_write_rtp, written, write_packet_rtp, write_packet_rtcp,
}
use gortsplib.Stream.Writers.{has_all}
use gortsplib.Stream.WriteSafe.{
  has_format, fits, Written, on_media-Written, media_write_rtp-Stays, media_write_rtcp-Stays,
}
use gortsplib.Stream.Safe.{
  IsValidStream, IsSafe, reader_add-IsValidStream, reader_remove-IsSafe, reader_set_active-IsSafe,
  reader_set_inactive-IsSafe,
}

-- The calls that sessions and the program make, with what the system answers to them.
pub data StreamCall (T : Type 0) : Type 0 where
  adds : (ℕ → List ℕ) → (ℕ → Bool) → ℕ → ℕ → StreamCall T
  removes : ℕ → StreamCall T
  activates : List ℕ → ℕ → StreamCall T
  deactivates : List ℕ → ℕ → StreamCall T
  writes_rtp : Takers → ℕ → Option ℕ → Packet → ℤ → Bool → T → StreamCall T
  writes_rtcp : Takers → ℕ → Option ℕ → StreamCall T
  closes : StreamCall T

module _ (transport_of : ℕ → Transport) (author_of : ℕ → ℕ) {T : Type 0} where
  abbrev pub no_error : Option (ServerStream T) → Called T
  no_error o = elim o [ none ↦ none | some st ↦ some (none, st) ]

  -- `Close` has no error.
  abbrev pub left : Option (List ℕ × ServerStream T) → Called T
  left o = elim o [ none ↦ none | some (ks, st) ↦ some (none, st) ]

  unfoldable pub call : ServerStream T → StreamCall T → Called T
  call st (adds ports_of opens k port) =
      some (reader_add transport_of author_of ports_of opens k port st)
  call st (removes k) = no_error (reader_remove transport_of author_of k st)
  call st (activates is k) = no_error (reader_set_active transport_of author_of is k st)
  call st (deactivates is k) = no_error (reader_set_inactive transport_of author_of is k st)
  call st (writes_rtp t i le pkt ntp same now) = write_packet_rtp t i le pkt ntp same now st
  call st (writes_rtcp t i le) = write_packet_rtcp t i le st
  call st closes = left (close_stream st)

  -- What a session does of itself: it is added once, and only a reader is active, inactive or removed,
  -- with medias of the stream; the program writes to medias and formats of the stream, and closes it
  -- once.
  abbrev pub IsReady : ServerStream T → StreamCall T → Type 0
  IsReady st (adds ports_of opens k port) = is_in k st.readers ≡ false
  IsReady st (removes k) = (is_in k st.readers ≡ true) × (is_in k st.active_unicast_readers ≡ false)
  IsReady st (activates is k) = (is_in k st.readers ≡ true) × (has_all is st.medias ≡ true)
  IsReady st (deactivates is k) = (is_in k st.readers ≡ true) × (has_all is st.medias ≡ true)
  IsReady st (writes_rtp t i le pkt ntp same now) =
      fits (λ m. has_format pkt.payload_type m.formats) i st.medias ≡ true
  IsReady st (writes_rtcp t i le) = fits (λ m. true) i st.medias ≡ true
  IsReady st closes = st.closed ≡ false

  -- The call returns and leaves a valid stream.
  pub data IsSafeCall : Called T → Type 0 where
    is_safe :
        (e : Option StreamError) (st : ServerStream T)
        → IsValidStream transport_of author_of st
        → IsSafeCall (some (e, st))

  no_error-IsSafeCall :
      (o : Option (ServerStream T)) → IsSafe transport_of author_of o → IsSafeCall (no_error o)
  no_error-IsSafeCall o (st, e, v) =
      some_case IsSafeCall o none (λ st. some (none, st)) e (is_safe none st v)

  written-IsSafeCall :
      (st : ServerStream T) (o : Option (Bool × List (StreamMedia T)))
      → IsValidStream transport_of author_of st
      → Written st.medias o
      → IsSafeCall (written st o)
  written-IsSafeCall st o v ((full, ms), e, w) =
      some_case IsSafeCall o none
        (λ r. some (if r.0 then some write_queue_full else none, record st { medias = r.1 })) e
        (is_safe _ _ (record {
          counted = v.counted;
          opened = λ q. w (v.opened q);
          unique = v.unique;
          active = v.active;
        }))

  -- A call that is ready, on a valid stream, does not panic and leaves a valid stream: where a session
  -- reads with multicast, every media has a writer, and the count is that of these sessions.
  pub call-IsSafeCall :
      (st : ServerStream T) (c : StreamCall T)
      → IsValidStream transport_of author_of st
      → IsReady st c
      → IsSafeCall (call st c)
  unfolding call write_packet_rtp write_packet_rtcp close_stream
  call-IsSafeCall st (adds ports_of opens k port) v h =
      is_safe _ _ (reader_add-IsValidStream transport_of author_of ports_of opens k port st v h)
  call-IsSafeCall st (removes k) v (h, a) =
      no_error-IsSafeCall _ (reader_remove-IsSafe transport_of author_of k st v h a)
  call-IsSafeCall st (activates is k) v (h, a) =
      no_error-IsSafeCall _ (reader_set_active-IsSafe transport_of author_of is k st v h a)
  call-IsSafeCall st (deactivates is k) v (h, a) =
      no_error-IsSafeCall _ (reader_set_inactive-IsSafe transport_of author_of is k st v h a)
  call-IsSafeCall st (writes_rtp t i none pkt ntp same now) v h = is_safe _ _ v
  call-IsSafeCall st (writes_rtp t i (some le) pkt ntp same now) v h =
      if_case IsSafeCall st.closed (λ c. is_safe _ _ v)
        (λ c. written-IsSafeCall st _ v (
          on_media-Written (λ m. has_format pkt.payload_type m.formats) i
            (media_write_rtp t st.active_unicast_readers le pkt ntp same now) st.medias h
            (λ m f. media_write_rtp-Stays t st.active_unicast_readers le pkt ntp same now m f)))
  call-IsSafeCall st (writes_rtcp t i none) v h = is_safe _ _ v
  call-IsSafeCall st (writes_rtcp t i (some le)) v h =
      if_case IsSafeCall st.closed (λ c. is_safe _ _ v)
        (λ c. written-IsSafeCall st _ v (
          on_media-Written (λ m. true) i
            (λ m. some (media_write_rtcp t st.active_unicast_readers le m)) st.medias h
            (λ m f. media_write_rtcp-Stays t st.active_unicast_readers le m)))
  call-IsSafeCall st closes v h =
      subst
        (λ b. IsSafeCall (
          left (
            if b && has_senders st.medias
            then none
            else some (st.readers, record st { closed = true }))))
        (sym h)
        (is_safe _ _
          (record { counted = v.counted; opened = v.opened; unique = v.unique; active = v.active }))

  -- The result of a call after `Close`; a packet without a length is one that `Marshal` refuses.
  abbrev pub refusal : ServerStream T → StreamCall T → Called T
  refusal st (adds ports_of opens k port) = some (some stream_closed, st)
  refusal st (writes_rtp t i none pkt ntp same now) = some (some marshal_failed, st)
  refusal st (writes_rtp t i (some le) pkt ntp same now) = some (some stream_closed, st)
  refusal st (writes_rtcp t i none) = some (some marshal_failed, st)
  refusal st (writes_rtcp t i (some le)) = some (some stream_closed, st)
  refusal st closes = if has_senders st.medias then none else some (none, st)
  refusal st _ = some (none, st)

  -- The streams that calls lead to, from a new one.
  pub data ReachableStream : ServerStream T → Type 0 where
    made :
        (zero_time : T) (medias : List (ℕ × List (ℕ × ℕ)))
        → ReachableStream (new_stream zero_time medias)
    called :
        (st st' : ServerStream T) (c : StreamCall T) (e : Option StreamError)
        → ReachableStream st
        → IsReady st c
        → call st c ≡ some (e, st')
        → ReachableStream st'

  new_stream-IsValidStream :
      (zero_time : T) (medias : List (ℕ × List (ℕ × ℕ)))
      → IsValidStream transport_of author_of (new_stream zero_time medias)
  unfolding new_stream
  new_stream-IsValidStream zero_time medias = record {
    counted = refl;
    opened = λ q. absurd (true-ne-false q);
    unique = tt;
    active = λ k h. h;
  }

  result-IsValidStream :
      {o : Called T} (e : Option StreamError) (st : ServerStream T)
      → IsSafeCall o
      → o ≡ some (e, st)
      → IsValidStream transport_of author_of st
  result-IsValidStream e st (is_safe e' st' v) q =
      subst (λ (r : Option StreamError × ServerStream T). IsValidStream transport_of author_of r.1)
        (some-inj q) v

  -- Every stream that calls lead to is valid: its count of multicast readers is right, each of them
  -- is there once, and where there is one every media has a multicast writer.
  pub ReachableStream-IsValidStream :
      (st : ServerStream T) → ReachableStream st → IsValidStream transport_of author_of st
  ReachableStream-IsValidStream st (made zero_time medias) =
      new_stream-IsValidStream zero_time medias
  ReachableStream-IsValidStream st' (called st st'' c e r h q) =
      result-IsValidStream e st' (call-IsSafeCall st c (ReachableStream-IsValidStream st r) h) q
