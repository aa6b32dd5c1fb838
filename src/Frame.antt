-- ===== src/Frame.antt =====
-- pkg/base/interleaved_frame.go: the frames that carry RTP and RTCP packets inside an RTSP
-- connection. The reader is the bytes that are still to come.
pub mod RoundTrip
mod Runs
use gortsplib.Common.{
  ℕ, zero, suc, ◌+◌, ◌%◌, not, ◌==◌, leb, if◌then◌else◌, Option, none, some, List, [], ◌∷◌, ◌++◌,
  length, take, drop, replicate, min,
}
use gortsplib.Common.Bytes.{be16, high_byte, low_byte}

abbrev pub interleaved_frame_magic_byte : ℕ
interleaved_frame_magic_byte = 36

pub record InterleavedFrame : Type 0 where
  pub channel : ℕ
  pub payload : List ℕ

-- What `Unmarshal` comes to: the frame and the bytes behind it, or an error of its own or the reader.
pub data Read : Type 0 where
  frame : InterleavedFrame → List ℕ → Read
  invalid_magic_byte : Read
  end_of_stream : Read

-- `io.ReadFull` of `n` bytes; none is its error.
abbrev pub read_full : ℕ → List ℕ → Option (List ℕ × List ℕ)
read_full n stream = if leb n (length stream) then some (take n stream, drop n stream) else none

unfoldable pub read_payload : ℕ → ℕ → List ℕ → Read
read_payload channel payload_len stream = elim (read_full payload_len stream) [
  | none ↦ end_of_stream
  | some (payload, rest) ↦ frame (record { channel = channel; payload = payload }) rest
]

-- `Unmarshal`; the first four bytes are the header.
unfoldable pub unmarshal : List ℕ → Read
unfolding read_payload
unmarshal (magic ∷ channel ∷ hi ∷ lo ∷ stream) =
    if not (magic == interleaved_frame_magic_byte)
    then invalid_magic_byte
    else read_payload channel (be16 hi lo) stream
unmarshal _ = end_of_stream

unfoldable pub marshal_size : InterleavedFrame → ℕ
marshal_size f = 4 + length f.payload

-- `MarshalTo`: the bytes written and the buffer after it; in a buffer of less than four bytes the
-- header panics, and `copy` stops at the end of the buffer or of the payload.
unfoldable pub marshal_to : InterleavedFrame → List ℕ → Option (ℕ × List ℕ)
marshal_to f (a ∷ b ∷ c ∷ d ∷ buf) =
    let le = length f.payload in
    some (
      4 + min le (length buf),
      36
          ∷ f.channel % 256
          ∷ high_byte le
          ∷ low_byte le
          ∷ (take (length buf) f.payload ++ drop le buf),
    )
marshal_to f _ = none

unfoldable pub marshal : InterleavedFrame → Option (List ℕ)
unfolding marshal_size marshal_to
marshal f = elim (marshal_to f (replicate (marshal_size f) 0)) [
  | none ↦ none
  | some (n, buf) ↦ some buf
]
