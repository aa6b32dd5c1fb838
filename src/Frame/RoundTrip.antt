-- ===== src/Frame/RoundTrip.antt =====
-- A frame that was written is read again.
use gortsplib.Common.{
  ℕ, suc, ◌+◌, ◌%◌, ◌<◌, ◌≡◌, refl, sym, ap, ◌∙◌, true, leb, Option, none, some, List, [], ◌∷◌,
  ◌++◌, append-nil, length, length-append, length-replicate, take, drop, take-length_append,
  drop-length_append, replicate, arith,
}
use gortsplib.Common.Bytes.{be16, be16-bytes, high_byte, low_byte}
use gortsplib.Frame.{
  InterleavedFrame, frame, read_payload, unmarshal, marshal_size, marshal_to, marshal,
}

-- The channel is a byte, and the length of the payload fits in two.
pub record Fits (f : InterleavedFrame) : Type 0 where
  pub channel : f.channel < 256
  pub payload : length f.payload < 65536

-- The bytes of a frame.
abbrev pub wire : InterleavedFrame → List ℕ
wire f =
    36 ∷ f.channel % 256 ∷ high_byte (length f.payload) ∷ low_byte (length f.payload) ∷ f.payload

take_all : (xs : List ℕ) → take (length xs) xs ≡ xs
take_all [] = refl
take_all (x ∷ xs) = ap (λ l. x ∷ l) (take_all xs)

drop_all : (xs : List ℕ) → drop (length xs) xs ≡ []
drop_all [] = refl
drop_all (x ∷ xs) = drop_all xs

copied :
    (payload buf : List ℕ)
    → length buf ≡ length payload
    → take (length buf) payload ++ drop (length payload) buf ≡ payload
copied payload buf e =
    ap (λ n. take n payload ++ drop (length payload) buf) e
    ∙ ap (λ l. l ++ drop (length payload) buf) (take_all payload)
    ∙ ap (λ l. payload ++ l) (ap (λ n. drop n buf) (sym e) ∙ drop_all buf)
    ∙ append-nil payload

replicate_header : (n : ℕ) → replicate {A = ℕ} (4 + n) 0 ≡ 0 ∷ 0 ∷ 0 ∷ 0 ∷ replicate n 0
replicate_header n = ap (λ m. replicate {A = ℕ} m 0) same
  where
    same : 4 + n ≡ suc (suc (suc (suc n)))
    same = omega arith

buffer_of : Option (ℕ × List ℕ) → Option (List ℕ)
buffer_of o = elim o [ none ↦ none | some (n, buf) ↦ some buf ]

marshal_to-wire :
    (f : InterleavedFrame) (buf : List ℕ)
    → length buf ≡ length f.payload
    → buffer_of (marshal_to f (0 ∷ 0 ∷ 0 ∷ 0 ∷ buf)) ≡ some (wire f)
unfolding marshal_to buffer_of
marshal_to-wire f buf e =
    ap
      (λ l.
        some
          (36 ∷ f.channel % 256 ∷ high_byte (length f.payload) ∷ low_byte (length f.payload) ∷ l))
      (copied f.payload buf e)

marshal-wire : (f : InterleavedFrame) → marshal f ≡ some (wire f)
unfolding marshal buffer_of
marshal-wire f =
    ap (λ l. buffer_of (marshal_to f l)) (replicate_header (length f.payload))
    ∙ marshal_to-wire f (replicate (length f.payload) 0) (length-replicate (length f.payload) 0)

read_payload_wire :
    (channel : ℕ) (payload rest : List ℕ)
    → read_payload channel (length payload) (payload ++ rest)
      ≡ frame (record { channel = channel; payload = payload }) rest
unfolding read_payload
read_payload_wire channel payload rest =
    let enough : leb (length payload) (length (payload ++ rest)) ≡ true =
      ground (arith, length-append payload rest) in
    rw (enough, read_payload)
      (rw (take-length_append payload rest, drop-length_append payload rest) refl)

unmarshal_start :
    (channel hi lo : ℕ) (stream : List ℕ)
    → unmarshal (36 ∷ channel ∷ hi ∷ lo ∷ stream) ≡ read_payload channel (be16 hi lo) stream
unfolding unmarshal
unmarshal_start channel hi lo stream = refl

pub unmarshal-wire :
    (f : InterleavedFrame) (rest : List ℕ) → Fits f → unmarshal (wire f ++ rest) ≡ frame f rest
unmarshal-wire f rest h =
    unmarshal_start (f.channel % 256) (high_byte (length f.payload)) (low_byte (length f.payload))
      (f.payload ++ rest)
    ∙ ap (λ n. read_payload (f.channel % 256) n (f.payload ++ rest))
        (be16-bytes (length f.payload) h.payload)
    ∙ read_payload_wire (f.channel % 256) f.payload rest
    ∙ ap (λ c. frame (record { channel = c; payload = f.payload }) rest) (omega (arith, h.channel))

-- A frame whose channel is a byte, with at most 65535 bytes of payload, is written without a panic
-- in as many bytes as `MarshalSize` says, and reading these bytes, whatever comes behind them, gives
-- the frame again and leaves what comes behind.
pub unmarshal-marshal :
    (f : InterleavedFrame) (rest : List ℕ)
    → Fits f
    → (bytes : List ℕ) × (marshal f ≡ some bytes)
      × (length bytes ≡ marshal_size f)
      × (unmarshal (bytes ++ rest) ≡ frame f rest)
unmarshal-marshal f rest h =
    (wire f, marshal-wire f, unfold marshal_size in omega arith, unmarshal-wire f rest h)
