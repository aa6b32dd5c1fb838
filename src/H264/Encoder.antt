-- ===== src/H264/Encoder.antt =====
-- pkg/format/rtph264/encoder.go. `none` is a panic.
use gortsplib.Common.{
  ℕ, zero, suc, ◌+◌, ◌-◌, ◌*◌, ◌/◌, ◌%◌, Bool, true, false, ◌&&◌, ◌||◌, ◌==◌, ltb, leb,
  if◌then◌else◌, Option, none, some, List, [], ◌∷◌, ◌++◌, length, take, drop,
}
use gortsplib.Common.Bytes.{high_byte, low_byte}
use gortsplib.Common.Words.{u16, add16}
use gortsplib.Rtp.{Packet}
use gortsplib.H264.Types.{Nalu, type_stapa, type_fua}

abbrev rtp_version : ℕ
rtp_version = 2

abbrev default_payload_max_size : ℕ
default_payload_max_size = 1460

-- `randUint32`: the argument is what `rand.Read` put in the four bytes, or its error (`none`). The
-- bytes do not overlap, so `|` is `+`.
unfoldable pub rand_uint32 : Option (ℕ × ℕ × ℕ × ℕ) → Option ℕ
rand_uint32 none = none
rand_uint32 (some (b0, b1, b2, b3)) = some (b0 * 16777216 + b1 * 65536 + b2 * 256 + b3)

pub record Encoder : Type 0 where
  pub payload_type : ℕ  -- uint8
  pub ssrc : Option ℕ  -- uint32
  pub initial_sequence_number : Option ℕ  -- uint16
  pub payload_max_size : ℕ
  pub packetization_mode : ℕ
  pub sequence_number : ℕ  -- uint16

-- A field that is nil is drawn: the source gives the random number, or fails.
unfoldable pub or_random : Option ℕ → Option ℕ → Option ℕ
or_random none random = random
or_random (some v) random = some v

-- `Init`, over the results of the two calls of `rand.Read`; `none` is the error.
unfoldable pub init : Option (ℕ × ℕ × ℕ × ℕ) → Option (ℕ × ℕ × ℕ × ℕ) → Encoder → Option Encoder
unfolding or_random rand_uint32
init r1 r2 e =
    if leb 2 e.packetization_mode then none else elim (or_random e.ssrc (rand_uint32 r1)) [
      | none ↦ none
      | some ssrc ↦ elim (or_random e.initial_sequence_number (rand_uint32 r2)) [
        | none ↦ none
        | some v ↦ some (record e {
          ssrc = some ssrc;
          initial_sequence_number = some (u16 v);
          payload_max_size =
              if e.payload_max_size == 0 then default_payload_max_size else e.payload_max_size;
          sequence_number = u16 v;
        })
      ]
    ]

abbrev pub aggregated_sizes : List Nalu → ℕ
aggregated_sizes [] = 0
aggregated_sizes (n ∷ ns) = 2 + length n + aggregated_sizes ns

-- `lenAggregated`; the second argument is nil or a NALU to add.
unfoldable pub len_aggregated : List Nalu → Option Nalu → ℕ
len_aggregated ns none = 1 + aggregated_sizes ns
len_aggregated ns (some n) = 1 + aggregated_sizes ns + (2 + length n)

unfoldable pub packet_count : ℕ → ℕ → ℕ
packet_count avail le = let n = le / avail in if le % avail == 0 then n else n + 1

-- The packet that each writer makes, and the encoder after it.
abbrev pub packet_of : Encoder → Bool → List ℕ → Packet
packet_of e marker payload = record {
  version = rtp_version;
  payload_type = e.payload_type;
  sequence_number = e.sequence_number;
  timestamp = 0;
  ssrc = elim e.ssrc [ none ↦ 0 | some v ↦ v ];
  marker = marker;
  payload = payload;
}

abbrev pub next : Encoder → Encoder
next e = record e { sequence_number = add16 e.sequence_number 1 }

unfoldable pub write_single : Encoder → Nalu → Bool → List Packet × Encoder
write_single e nalu marker = (packet_of e marker nalu ∷ [], next e)

-- `data[0]` and `data[1]` of a fragment: the fields do not overlap, so `|` is `+`.
abbrev pub fu_indicator : ℕ → ℕ
fu_indicator nri = nri * 32 + type_fua

abbrev pub fu_header : ℕ → ℕ → ℕ → ℕ
fu_header start end' typ = start * 128 + end' * 64 + typ

-- The loop over `ret`; the first argument is the packets left. `nalu` has at least `avail` bytes
-- before the last packet, so `copy` fills the packet.
unfoldable pub fragment_loop : ℕ → Encoder → ℕ → ℕ → ℕ → Bool → ℕ → List ℕ → List Packet × Encoder
fragment_loop zero e nri typ start marker avail nalu = ([], e)
fragment_loop (suc k) e nri typ start marker avail nalu =
    let last = k == 0 in
    let le = if last then length nalu else avail in
    let body = fu_indicator nri ∷ fu_header start (if last then 1 else 0) typ ∷ take le nalu in
    let (rest, e') = fragment_loop k (next e) nri typ 0 marker avail (drop le nalu) in
    (packet_of e (last && marker) body ∷ rest, e')

-- `nalu[0]` of an empty NALU panics; so does the division if `PayloadMaxSize` is 2. If it is 1,
-- `avail` is -1: no packet for a NALU of one byte, a slice of negative length for any other.
-- If it is 0, `avail` is -2, and dividing by that gives one packet for a NALU of two bytes, and none
-- for one of one byte or of four.
unfoldable pub write_fragmented : Encoder → Nalu → Bool → Option (List Packet × Encoder)
write_fragmented e [] marker = none
write_fragmented e (h ∷ nalu) marker =
    let avail = e.payload_max_size - 2 in
    if leb 3 e.payload_max_size
    then some (
        fragment_loop (packet_count avail (length nalu)) e (h / 32 % 4) (h % 32) 1 marker avail
          nalu)
    else if e.payload_max_size == 1 && length nalu == 0
    then some ([], e)
    else if e.payload_max_size == 0
    then (if length nalu == 1
        then some (fragment_loop 1 e (h / 32 % 4) (h % 32) 1 marker 0 nalu)
        else if length nalu == 0 || length nalu == 3
        then some ([], e)
        else none)
    else none

-- The loop of `writeAggregated`: the size of each NALU, then its bytes.
unfoldable pub aggregate_loop : List Nalu → List ℕ
aggregate_loop [] = []
aggregate_loop (n ∷ ns) = high_byte (length n) ∷ low_byte (length n) ∷ (n ++ aggregate_loop ns)

unfoldable pub write_aggregated : Encoder → List Nalu → Bool → List Packet × Encoder
write_aggregated e ns marker = (packet_of e marker (type_stapa ∷ aggregate_loop ns) ∷ [], next e)

unfoldable pub write_batch : Encoder → List Nalu → Bool → Option (List Packet × Encoder)
write_batch e (nalu ∷ []) marker =
    if ltb (length nalu) e.payload_max_size
    then some (write_single e nalu marker)
    else write_fragmented e nalu marker
write_batch e ns marker = some (write_aggregated e ns marker)

-- The loop of `Encode` over the access unit, and the final batch. `batch` is nil where it is empty.
unfoldable pub encode_loop :
    Encoder → List Nalu → List Packet → List Nalu → Option (List Packet × Encoder)
encode_loop e batch rets [] = elim (write_batch e batch true) [
  | none ↦ none
  | some (pkts, e') ↦ some (rets ++ pkts, e')
]
encode_loop e batch rets (nalu ∷ au) =
    elim (leb (len_aggregated batch (some nalu)) e.payload_max_size) [
      | true ↦ encode_loop e (batch ++ (nalu ∷ [])) rets au
      | false ↦ elim batch [
        | [] ↦ encode_loop e (nalu ∷ []) rets au
        | b ∷ bs ↦ elim (write_batch e (b ∷ bs) false) [
          | none ↦ none
          | some (pkts, e') ↦ encode_loop e' (nalu ∷ []) (rets ++ pkts) au
        ]
      ]
    ]

-- `Encode`
unfoldable pub encode : Encoder → List Nalu → Option (List Packet × Encoder)
unfolding encode_loop
encode e au = encode_loop e [] [] au
