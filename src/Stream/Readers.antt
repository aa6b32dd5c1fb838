-- ===== src/Stream/Readers.antt =====
-- `readerAdd`, `readerRemove`, `readerSetActive`, `readerSetInactive` and `Close`.
use mathlib.Core.List.{map}
use gortsplib.Common.{
  ℕ, Bool, true, false, ◌==◌, ◌&&◌, ◌||◌, if◌then◌else◌, Option, none, some, List, [], ◌∷◌,
}
use gortsplib.Common.Int.{pos, ◌+ℤ◌, ◌-ℤ◌}
use gortsplib.Session.{
  Transport, transport_udp, transport_udp_multicast, transport_tcp, same_transport,
}
use gortsplib.Stream.{
  StreamFormat, StreamMedia, ServerStream, StreamError, stream_closed, udp_ports_already_in_use,
  multicast_failed, delete, insert, is_zero,
}

-- The result of a call: its error, if there is one, and the stream.
abbrev pub Called : Type 0 → Type 0
Called T = Option (Option StreamError × ServerStream T)

-- The UDP port of a reader that equals the new one.
abbrev pub port_in : ℕ → List ℕ → Bool
port_in p [] = false
port_in p (q ∷ qs) = q == p || port_in p qs

module _ (transport_of : ℕ → Transport) (author_of : ℕ → ℕ) where
  -- Whether another UDP reader of the author has the port; `ports_of` gives udpRTPReadPort of the
  -- medias of a session.
  unfoldable pub port_in_use : (ℕ → List ℕ) → ℕ → ℕ → List ℕ → Bool
  port_in_use ports_of k port [] = false
  port_in_use ports_of k port (r ∷ rs) =
      (same_transport (transport_of r) transport_udp
        && (author_of r == author_of k && port_in port (ports_of r)))
      || port_in_use ports_of k port rs

  module _ {T : Type 0} where
    -- The writers of the medias, in the order of a list of results of `initialize`: after a failure
    -- those before it stay.
    unfoldable pub open_writers : (ℕ → Bool) → List (StreamMedia T) → Bool × List (StreamMedia T)
    open_writers opens [] = (true, [])
    open_writers opens (m ∷ ms) =
        let (ok, ms') = open_writers opens ms in
        if opens m.media
        then (ok, record m { multicast_writer = some [] } ∷ ms')
        else (false, m ∷ ms)

    -- `readerAdd`; `client_port` is the first of clientPorts, which UDP has.
    unfoldable pub reader_add :
        (ℕ → List ℕ) → (ℕ → Bool) → ℕ → ℕ → ServerStream T → Option StreamError × ServerStream T
    unfolding port_in_use open_writers insert
    reader_add ports_of opens k client_port st =
        let added = record st { readers = insert k st.readers } in
        let counted = record added {
          multicast_reader_count = st.multicast_reader_count +ℤ pos 1;
        } in
        let (ok, ms) = open_writers opens st.medias in
        if st.closed then (some stream_closed, st) else elim (transport_of k) [
          | transport_udp ↦
              if port_in_use ports_of k client_port st.readers
              then (some (udp_ports_already_in_use client_port), st)
              else (none, added)
          | transport_udp_multicast ↦
              if is_zero st.multicast_reader_count
              then (if ok
                  then (none, record counted { medias = ms })
                  else (some multicast_failed, record st { medias = ms }))
              else (none, counted)
          | transport_tcp ↦ (none, added)
        ]

    -- The writers are closed; a media without one panics.
    unfoldable pub close_writers : List (StreamMedia T) → Option (List (StreamMedia T))
    close_writers [] = some []
    close_writers (m ∷ ms) =
        let rest = close_writers ms in
        elim m.multicast_writer [
          | none ↦ none
          | some w ↦ elim rest [
            | none ↦ none
            | some ms' ↦ some (record m { multicast_writer = none } ∷ ms')
          ]
        ]

    -- `readerRemove`
    unfoldable pub reader_remove : ℕ → ServerStream T → Option (ServerStream T)
    unfolding close_writers delete
    reader_remove k st =
        let removed = record st { readers = delete k st.readers } in
        let count = st.multicast_reader_count -ℤ pos 1 in
        if st.closed
        then some st
        else if same_transport (transport_of k) transport_udp_multicast
        then (if is_zero count
            then elim (close_writers st.medias) [
              | none ↦ none
              | some ms ↦ some (record removed { multicast_reader_count = count; medias = ms })
            ]
            else some (record removed { multicast_reader_count = count }))
        else some removed

    -- The change of the clients of the writer of one media; a media that the stream does not have, or
    -- one without a writer, panics.
    unfoldable pub change_clients :
        (List ℕ → List ℕ) → ℕ → List (StreamMedia T) → Option (List (StreamMedia T))
    change_clients f i [] = none
    change_clients f i (m ∷ ms) =
        let rest = change_clients f i ms in
        if m.media == i
        then elim m.multicast_writer [
          | none ↦ none
          | some w ↦ some (record m { multicast_writer = some (f w) } ∷ ms)
        ]
        else elim rest [ none ↦ none | some ms' ↦ some (m ∷ ms') ]

    unfoldable pub change_all :
        (List ℕ → List ℕ) → List ℕ → List (StreamMedia T) → Option (List (StreamMedia T))
    unfolding change_clients
    change_all f [] ms = some ms
    change_all f (i ∷ is) ms = elim (change_clients f i ms) [
      | none ↦ none
      | some ms' ↦ change_all f is ms'
    ]

    -- `readerSetActive`, of a session with the medias `is`.
    unfoldable pub reader_set_active : List ℕ → ℕ → ServerStream T → Option (ServerStream T)
    unfolding change_all insert
    reader_set_active is k st =
        if st.closed
        then some st
        else if same_transport (transport_of k) transport_udp_multicast
        then elim (change_all (insert (author_of k)) is st.medias) [
          | none ↦ none
          | some ms ↦ some (record st { medias = ms })
        ]
        else some (record st { active_unicast_readers = insert k st.active_unicast_readers })

    -- `readerSetInactive`
    unfoldable pub reader_set_inactive : List ℕ → ℕ → ServerStream T → Option (ServerStream T)
    unfolding change_all delete
    reader_set_inactive is k st =
        if st.closed
        then some st
        else if same_transport (transport_of k) transport_udp_multicast
        then elim (change_all (delete (author_of k)) is st.medias) [
          | none ↦ none
          | some ms ↦ some (record st { medias = ms })
        ]
        else some (record st { active_unicast_readers = delete k st.active_unicast_readers })

module _ {T : Type 0} where
  -- Whether a media has a format; every format has an RTCP sender.
  unfoldable pub has_senders : List (StreamMedia T) → Bool
  has_senders [] = false
  has_senders (m ∷ ms) = elim m.formats [ [] ↦ has_senders ms | f ∷ fs ↦ true ]

  -- `Close`, with the sessions that it closes. It closes the channel of every RTCP sender, and a
  -- second time this panics; to close a multicast writer a second time does nothing.
  unfoldable pub close_stream : ServerStream T → Option (List ℕ × ServerStream T)
  unfolding has_senders
  close_stream st =
      if st.closed && has_senders st.medias
      then none
      else some (st.readers, record st { closed = true })

-- `serverStreamFormat.initialize` and `serverStreamMedia.initialize`; a format has its payload type
-- and its clock rate, and `zero_time` is the zero of the clock.
unfoldable pub new_format : {T : Type 0} → T → ℕ × ℕ → StreamFormat T
new_format zero_time (payload_type, rate) = record {
  payload_type = payload_type;
  rtcp_sender = record {
    clock_rate = rate;
    first_rtp_packet_sent = false;
    last_time_rtp = 0;
    last_time_ntp = pos 0;
    last_time_system = zero_time;
    local_ssrc = 0;
    last_sequence_number = 0;
    packet_count = 0;
    octet_count = 0;
  };
  rtp_packets_sent = 0;
}

-- The map of the formats by their payload types keeps the last of those with the same.
abbrev pub has_type : ℕ → List (ℕ × ℕ) → Bool
has_type t [] = false
has_type t ((payload_type, rate) ∷ fs) = payload_type == t || has_type t fs

abbrev pub by_type : List (ℕ × ℕ) → List (ℕ × ℕ)
by_type [] = []
by_type ((payload_type, rate) ∷ fs) =
    let rest = by_type fs in if has_type payload_type fs then rest else (payload_type, rate) ∷ rest

unfoldable pub new_media : {T : Type 0} → T → ℕ × List (ℕ × ℕ) → StreamMedia T
unfolding new_format
new_media zero_time (media, formats) = record {
  media = media;
  formats = map (new_format zero_time) (by_type formats);
  multicast_writer = none;
  bytes_sent = 0;
  rtcp_packets_sent = 0;
}

-- `NewServerStream`
unfoldable pub new_stream : {T : Type 0} → T → List (ℕ × List (ℕ × ℕ)) → ServerStream T
unfolding new_media
new_stream zero_time medias = record {
  readers = [];
  multicast_reader_count = pos 0;
  active_unicast_readers = [];
  medias = map (new_media zero_time) medias;
  closed = false;
}
