-- ===== src/Lpcm.antt =====
-- pkg/format/rtplpcm: uncompressed audio over RTP. `none` is a panic, by a division by 0.
pub mod RoundTrip
mod Runs
use gortsplib.Common.{
  ℕ, zero, suc, ◌+◌, ◌-◌, ◌*◌, ◌/◌, ◌%◌, Bool, true, false, not, ◌==◌, ltb, if◌then◌else◌, Option,
  none, some, List, [], ◌∷◌, length, take, drop,
}
use gortsplib.Common.Words.{u16, u32, add16, add32}
use gortsplib.Rtp.{Packet}

pub record LpcmEncoder : Type 0 where
  pub payload_type : ℕ  -- uint8
  pub bit_depth : ℕ
  pub channel_count : ℕ
  pub ssrc : Option ℕ  -- uint32
  pub initial_sequence_number : Option ℕ  -- uint16
  pub payload_max_size : ℕ
  pub sequence_number : ℕ  -- uint16
  pub sample_size : ℕ
  pub max_payload_size : ℕ

-- A field that is nil is drawn at random, which may fail.
abbrev pub or_drawn : Option ℕ → Option ℕ → Option ℕ
or_drawn none drawn = drawn
or_drawn (some v) drawn = some v

-- `Encoder.Init`; the outer none is the panic, the inner one the error of `crypto/rand`.
unfoldable pub init_encoder : Option ℕ → Option ℕ → LpcmEncoder → Option (Option LpcmEncoder)
init_encoder r1 r2 e =
    let most = if e.payload_max_size == 0 then 1460 else e.payload_max_size in
    let size = e.bit_depth * e.channel_count / 8 in
    elim (or_drawn e.ssrc r1) [
      | none ↦ some none
      | some ssrc ↦ elim (or_drawn e.initial_sequence_number r2) [
        | none ↦ some none
        | some v ↦
            if size == 0
            then none
            else some (
                some (record e {
                  ssrc = some ssrc;
                  initial_sequence_number = some (u16 v);
                  payload_max_size = most;
                  sequence_number = u16 v;
                  sample_size = size;
                  max_payload_size = most / size * size;
                }))
      ]
    ]

-- `packetCount`
unfoldable pub count_packets : ℕ → ℕ → ℕ
count_packets most len = if len % most == 0 then len / most else len / most + 1

-- The loop of `Encode` over the packets, on what is left of the samples.
unfoldable pub split_samples : ℕ → LpcmEncoder → ℕ → ℕ → ℕ → List ℕ → List Packet × LpcmEncoder
split_samples zero e ssrc size ts rest = ([], e)
split_samples (suc k) e ssrc size ts rest =
    let now = if ltb (length rest) size then length rest else size in
    let (more, e') =
      split_samples k (record e { sequence_number = add16 e.sequence_number 1 }) ssrc now
        (add32 ts (now / e.sample_size)) (drop now rest) in
    (
      record {
        version = 2;
        payload_type = e.payload_type;
        sequence_number = e.sequence_number;
        timestamp = ts;
        ssrc = ssrc;
        marker = false;
        payload = take now rest;
      }
          ∷ more,
      e',
    )

-- `Encode`; the inner none is the error on samples that are cut. Before `Init` the SSRC is nil, which
-- panics where a packet is made.
unfoldable pub encode_samples : LpcmEncoder → List ℕ → Option (Option (List Packet) × LpcmEncoder)
unfolding count_packets split_samples
encode_samples e samples =
    if e.sample_size == 0
    then none
    else if not (length samples % e.sample_size == 0)
    then some (none, e)
    else if e.max_payload_size == 0
    then none
    else let k = count_packets e.max_payload_size (length samples) in
      elim e.ssrc [
        | none ↦ if k == 0 then some (some [], e) else none
        | some ssrc ↦
            let (ps, e') = split_samples k e ssrc e.max_payload_size 0 samples in some (some ps, e')
      ]

pub record LpcmDecoder : Type 0 where
  pub depth : ℕ
  pub channels : ℕ
  pub size_of_sample : ℕ

-- `Decoder.Init`
unfoldable pub init_decoder : LpcmDecoder → LpcmDecoder
init_decoder d = record d { size_of_sample = d.depth * d.channels / 8 }

-- `Decoder.Decode`; the inner none is the error on a payload of the wrong size.
unfoldable pub decode_samples : LpcmDecoder → Packet → Option (Option (List ℕ))
decode_samples d pkt =
    if d.size_of_sample == 0
    then none
    else if not (length pkt.payload % d.size_of_sample == 0)
    then some none
    else some (some pkt.payload)
