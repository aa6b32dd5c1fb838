-- ===== src/H264/Decoder.antt =====
-- pkg/format/rtph264/decoder.go.
use gortsplib.Common.{
  ℕ, zero, suc, ◌+◌, ◌-◌, ◌*◌, ◌/◌, ◌%◌, Bool, true, false, ◌&&◌, ◌||◌, not, ◌==◌, ltb,
  if◌then◌else◌, Option, none, some, List, [], ◌∷◌, ◌++◌, length, take, drop, replicate,
}
use gortsplib.Common.Bytes.{be16}
use gortsplib.Common.Words.{add16}
use gortsplib.Rtp.{Packet}
use gortsplib.H264.Types.{
  Nalu, total_size, type_stapa, type_stapb, type_mtap16, type_mtap24, type_fua, type_fub,
}

-- The errors of the decoder; `annexb` is one of the library that reads Annex-B.
pub data Error : Type 0 where
  more_packets_needed : Error
  non_starting_packet_and_no_previous : Error
  payload_too_short : Error
  invalid_fua : Error
  non_starting : Error
  packet_missing : Error
  nalu_too_big : ℕ → Error
  invalid_stapa : Error
  no_nalu : Error
  not_supported : ℕ → Error
  nalu_count : Error
  access_unit_too_big : ℕ → Error
  annexb : Error

pub data Result (A : Type 0) : Type 0 where
  ok : A → Result A
  err : Error → Result A

-- What the decoder takes from mediacommon: two limits, and the reader of Annex-B.
pub record Codec : Type 0 where
  pub max_access_unit_size : ℕ
  pub max_nalus_per_access_unit : ℕ
  pub annexb_unmarshal : List ℕ → Result (List Nalu)

pub record Decoder : Type 0 where
  pub packetization_mode : ℕ
  pub first_packet_received : Bool
  pub fragments : List (List ℕ)
  pub fragments_size : ℕ
  pub fragment_next_seq_num : ℕ  -- uint16
  pub annexb_mode : Bool
  pub frame_buffer : List Nalu
  pub frame_buffer_len : ℕ
  pub frame_buffer_size : ℕ

-- `Init`; false is the error.
unfoldable pub init : Decoder → Bool
init d = ltb d.packetization_mode 2

abbrev pub concat : List (List ℕ) → List ℕ
concat [] = []
concat (p ∷ ps) = p ++ concat ps

-- `joinFragments`: the copies fill a slice of `size` zeros, as far as it reaches.
unfoldable pub join_fragments : List (List ℕ) → ℕ → List ℕ
join_fragments ps size = take size (concat ps) ++ replicate (size - length (concat ps)) 0

abbrev pub is_all_zero : List ℕ → Bool
is_all_zero [] = true
is_all_zero (b ∷ bs) = b == 0 && is_all_zero bs

unfoldable pub reset_fragments : Decoder → Decoder
reset_fragments d = record d { fragments = []; fragments_size = 0 }

-- `bytes.HasPrefix(nalu, {0, 0, 0, 1})` and `bytes.Contains(nalu, {0, 0, 0, 1})`
abbrev pub has_start_code : List ℕ → Bool
has_start_code (a ∷ b ∷ c ∷ d ∷ r) = a == 0 && (b == 0 && (c == 0 && d == 1))
has_start_code _ = false

abbrev pub contains_start_code : List ℕ → Bool
contains_start_code [] = false
contains_start_code (b ∷ bs) = has_start_code (b ∷ bs) || contains_start_code bs

-- The loop over a STAP-A payload; `none` says that it did not end in the given rounds.
unfoldable pub stapa_loop : ℕ → List ℕ → List Nalu → Option (Result (List Nalu))
stapa_loop zero payload nalus = none
stapa_loop (suc k) (hi ∷ lo ∷ payload) nalus =
    let size = be16 hi lo in
    elim (size == 0 && is_all_zero payload) [
      | true ↦ some (ok nalus)
      | false ↦ elim (ltb (length payload) size) [
        | true ↦ some (err invalid_stapa)
        | false ↦
            let found = nalus ++ (take size payload ∷ []) in
            elim (drop size payload) [ [] ↦ some (ok found) | b ∷ bs ↦ stapa_loop k (b ∷ bs) found ]
      ]
    ]
stapa_loop (suc k) _ nalus = some (err invalid_stapa)

-- The case FU-A of the switch: the payload is `b0 :: b1 :: body`.
unfoldable pub decode_start : Decoder → Packet → ℕ → ℕ → List ℕ → Result (List Nalu) × Decoder
unfolding reset_fragments join_fragments
decode_start d pkt b0 b1 body =
    let size = suc (length body) in
    let parts = ((b0 / 32 % 4 * 32 + b1 % 32) ∷ []) ∷ body ∷ [] in
    let d' = record d {
      fragments = parts;
      fragments_size = size;
      fragment_next_seq_num = add16 pkt.sequence_number 1;
      first_packet_received = true;
    } in
    if b1 / 64 % 2 == 0
    then (err more_packets_needed, d')
    else (ok (join_fragments parts size ∷ []), reset_fragments d')

module _ (c : Codec) where
  -- A fragment that does not start a NALU. The message of the size error shows the field after
  -- `resetFragments`, so 0.
  unfoldable pub decode_continue : Decoder → Packet → ℕ → List ℕ → Result (List Nalu) × Decoder
  unfolding reset_fragments join_fragments
  decode_continue d pkt b1 body =
      let size = d.fragments_size + length body in
      let grown = record d { fragments_size = size } in
      let d' = record d {
        fragments = d.fragments ++ (body ∷ []);
        fragments_size = size;
        fragment_next_seq_num = add16 d.fragment_next_seq_num 1;
      } in
      if d.fragments_size == 0
      then (
        err (if d.first_packet_received then non_starting else non_starting_packet_and_no_previous),
        d,
      )
      else if not (pkt.sequence_number == d.fragment_next_seq_num)
      then (err packet_missing, reset_fragments d)
      else if ltb c.max_access_unit_size size
      then (err (nalu_too_big 0), reset_fragments grown)
      else if b1 / 64 % 2 == 0
      then (err more_packets_needed, d')
      else (ok (join_fragments (d.fragments ++ (body ∷ [])) size ∷ []), reset_fragments d')

  unfoldable pub decode_fua : Decoder → Packet → ℕ → List ℕ → Result (List Nalu) × Decoder
  unfolding decode_start decode_continue
  decode_fua d pkt b0 [] = (err invalid_fua, d)
  decode_fua d pkt b0 (b1 ∷ body) =
      if b1 / 128 == 1 then decode_start d pkt b0 b1 body else decode_continue d pkt b1 body

  -- The case STAP-A: every round of the loop takes two bytes at least, so `length payload + 1`
  -- rounds are enough; `none` does not occur.
  unfoldable pub decode_stapa : Decoder → List ℕ → Option (Result (List Nalu) × Decoder)
  unfolding reset_fragments
  decode_stapa d payload = elim (stapa_loop (suc (length payload)) payload []) [
    | none ↦ none
    | some (err e) ↦ some (err e, reset_fragments d)
    | some (ok []) ↦ some (err no_nalu, reset_fragments d)
    | some (ok (n ∷ ns)) ↦
        some (ok (n ∷ ns), record (reset_fragments d) { first_packet_received = true })
  ]

  -- The start code that `removeAnnexB` puts in front, where it is not there.
  abbrev pub with_start_code : List ℕ → List ℕ
  with_start_code nalu = if has_start_code nalu then nalu else 0 ∷ 0 ∷ 0 ∷ 1 ∷ nalu

  unfoldable pub remove_annexb : Decoder → List Nalu → Result (List Nalu) × Decoder
  remove_annexb d (nalu ∷ []) =
      let mode = d.annexb_mode || contains_start_code nalu in
      let d' = record d { annexb_mode = mode } in
      if mode then (c.annexb_unmarshal (with_start_code nalu), d') else (ok (nalu ∷ []), d')
  remove_annexb d ns = (ok ns, d)

  unfoldable pub after_switch : Result (List Nalu) × Decoder → Result (List Nalu) × Decoder
  unfolding remove_annexb
  after_switch (err e, d) = (err e, d)
  after_switch (ok ns, d) = remove_annexb d ns

  -- The switch of `decodeNALUs` on the type of the packet.
  unfoldable pub decode_switch :
      Decoder → Packet → ℕ → List ℕ → Option (Result (List Nalu) × Decoder)
  unfolding decode_fua decode_stapa reset_fragments
  decode_switch d pkt b0 body =
      let typ = b0 % 32 in
      let known = record (reset_fragments d) { first_packet_received = true } in
      if typ == type_fua
      then some (decode_fua d pkt b0 body)
      else if typ == type_stapa
      then decode_stapa d body
      else if typ == type_stapb || (typ == type_mtap16 || (typ == type_mtap24 || typ == type_fub))
      then some (err (not_supported typ), known)
      else some (ok ((b0 ∷ body) ∷ []), known)

  -- `decodeNALUs`
  unfoldable pub decode_nalus : Decoder → Packet → Option (Result (List Nalu) × Decoder)
  unfolding decode_switch after_switch reset_fragments
  decode_nalus d pkt = elim pkt.payload [
    | [] ↦ some (err payload_too_short, reset_fragments d)
    | b0 ∷ body ↦ elim (decode_switch d pkt b0 body) [
      | none ↦ none
      | some r ↦ some (after_switch r)
    ]
  ]

  clear_frame : Decoder → Decoder
  clear_frame d = record d { frame_buffer = []; frame_buffer_len = 0; frame_buffer_size = 0 }

  -- `Decode` behind the call of `decodeNALUs`. The message of the second size error shows the size
  -- after the reset.
  unfoldable pub collect : Decoder → Bool → List Nalu → Result (List Nalu) × Decoder
  unfolding clear_frame
  collect d marker nalus =
      let l = length nalus in
      let add_size = total_size nalus in
      if ltb c.max_nalus_per_access_unit (d.frame_buffer_len + l)
      then (err nalu_count, clear_frame d)
      else if ltb c.max_access_unit_size (d.frame_buffer_size + add_size)
      then (err (access_unit_too_big add_size), clear_frame d)
      else if marker
      then (ok (d.frame_buffer ++ nalus), clear_frame d)
      else (
        err more_packets_needed,
        record d {
          frame_buffer = d.frame_buffer ++ nalus;
          frame_buffer_len = d.frame_buffer_len + l;
          frame_buffer_size = d.frame_buffer_size + add_size;
        },
      )

  -- `Decode`
  unfoldable pub decode : Decoder → Packet → Option (Result (List Nalu) × Decoder)
  decode d pkt = elim (decode_nalus d pkt) [
    | none ↦ none
    | some (err e, d') ↦ some (err e, d')
    | some (ok ns, d') ↦ some (collect d' pkt.marker ns)
  ]

  -- What a reader of a stream makes of a packet: an access unit, nothing yet, or a failure.
  unfoldable pub absorb :
      Option (Result (List Nalu) × Decoder) → Option (List (List Nalu) × Decoder)
  absorb none = none
  absorb (some (ok au, d)) = some (au ∷ [], d)
  absorb (some (err more_packets_needed, d)) = some ([], d)
  absorb (some (err _, d)) = none

  -- A reader of a stream: it decodes every packet, keeps the access units, and goes on after
  -- `ErrMorePacketsNeeded`. Any other error ends the run with `none`.
  unfoldable pub deliver : Decoder → List Packet → Option (List (List Nalu) × Decoder)
  unfolding absorb
  deliver d [] = some ([], d)
  deliver d (pkt ∷ pkts) = elim (absorb (decode d pkt)) [
    | none ↦ none
    | some (units, d') ↦ elim (deliver d' pkts) [
      | none ↦ none
      | some (more, d'') ↦ some (units ++ more, d'')
    ]
  ]
