-- ===== src/Message/Conn/RoundTrip.antt =====
-- What is written to a connection is read from it.
use mathlib.Core.List.{map}
use gortsplib.Common.{
  ℕ, suc, ◌+◌, ◌≤◌, ◌%◌, ◌≡◌, refl, sym, ap, ap₂, ◌∙◌, false, true, ◌&&◌, ◌==◌, some, List, [], ◌∷◌,
  ◌++◌, length, take, take-ge, take-length_append, drop, All, min, arith,
}
use gortsplib.Common.Bytes.{high_byte, low_byte}
use gortsplib.Frame
use gortsplib.Frame.{InterleavedFrame, marshal_to, unmarshal}
use gortsplib.Frame.RoundTrip.{Fits, wire, unmarshal-wire}
use gortsplib.Message.Reader.{got, fail}
use gortsplib.Message.Header.{Header}
use gortsplib.Message.Body.{sent_header}
use gortsplib.Message.Request.{UrlText, Request, unmarshal_request}
use gortsplib.Message.Request.RoundTrip.{
  FitsRequest, request_wire, marshal_request-wire, unmarshal_request-wire, request_wire-append,
}
use gortsplib.Message.Response.{Response, sent_message}
use gortsplib.Message.Response.RoundTrip.{
  FitsResponse, response_wire, marshal_response-wire, unmarshal_response-wire, response_wire-append,
}
use gortsplib.Message.Conn.{
  Message, interleaved, request, response, read_interleaved_frame, starts_request, read_message,
  write_message, write_messages, read_messages,
}

-- The method starts with the letters that a connection knows.
abbrev pub IsKnown : List ℕ → Type 0
IsKnown [] = ⊥
IsKnown (a ∷ []) = ⊥
IsKnown (a ∷ b ∷ s) = starts_request a b ≡ true

starts_request-ne :
    (a b : ℕ) → starts_request a b ≡ true → ((a == 36) ≡ false) × ((a == b'R' && b == b'T') ≡ false)
starts_request-ne a b h = ground arith

written_frame :
    (f : InterleavedFrame) (buf : List ℕ)
    → 4 + length f.payload ≤ length buf
    → (n : ℕ) × (written : List ℕ) × (marshal_to f buf ≡ some (n, written))
      × (take n written ≡ wire f)
unfolding marshal_to
written_frame f [] l = absurd (omega (arith, l))
written_frame f (a ∷ []) l = absurd (omega (arith, l))
written_frame f (a ∷ b ∷ []) l = absurd (omega (arith, l))
written_frame f (a ∷ b ∷ c ∷ []) l = absurd (omega (arith, l))
written_frame f (a ∷ b ∷ c ∷ d ∷ buf) l =
    let le = length f.payload in
    let behind = drop le buf in
    let count : 4 + min le (length buf) ≡ suc (suc (suc (suc le))) = omega (arith, l) in
    let head = λ (t : List ℕ). 36 ∷ f.channel % 256 ∷ high_byte le ∷ low_byte le ∷ t in
    (
      4 + min le (length buf),
      head (take (length buf) f.payload ++ behind),
      refl,
      ap₂ (λ n t. take n (head (t ++ behind))) count
            (take-ge (length buf) f.payload (omega (arith, l)))
          ∙ ap head (take-length_append f.payload behind),
    )

module _ {Url : Type 0} (urls : UrlText Url) where
  -- A message that can be sent, with frames of at most `size` bytes, and read.
  abbrev pub FitsMessage : ℕ → Message Url → Type 0
  FitsMessage size (interleaved f) = Fits f × (4 + length f.payload ≤ size)
  FitsMessage size (request req) = ((h : Header) × FitsRequest urls req h) × IsKnown req.method
  FitsMessage size (response res) = (h : Header) × FitsResponse res h

  -- A message as the other side has it: with the Content-Length and the status message that it was
  -- sent with.
  abbrev pub received : Message Url → Message Url
  received (interleaved f) = interleaved f
  received (request req) = request (record req { header = sent_header req.header req.body })
  received (response res) =
      response
        (record res { status_message = sent_message res; header = sent_header res.header res.body })

  -- The bytes are written for the message, and read as what the other side has.
  record Carries (buf : List ℕ) (m : Message Url) : Type 0 where
    bytes : List ℕ
    written : write_message urls buf m ≡ some bytes
    read : (rest : List ℕ) → read_message urls (bytes ++ rest) ≡ got (received m) rest

  read_interleaved_frame_lem :
      (s rest : List ℕ) (f : InterleavedFrame)
      → unmarshal s ≡ Frame.frame f rest
      → read_interleaved_frame {Url = Url} s ≡ got (interleaved f) rest
  unfolding read_interleaved_frame
  read_interleaved_frame_lem s rest f e = rw (e, read_interleaved_frame) refl

  read_message_frame :
      (b : ℕ) (s : List ℕ) → read_message urls (36 ∷ b ∷ s) ≡ read_interleaved_frame (36 ∷ b ∷ s)
  unfolding read_message
  read_message_frame b s = refl

  frame-Carries :
      (buf : List ℕ) (f : InterleavedFrame)
      → FitsMessage (length buf) (interleaved f)
      → Carries buf (interleaved f)
  unfolding write_message
  frame-Carries buf f (fits, room) =
      let (n, written, e, cut) = written_frame f buf room in
      record {
        bytes = wire f;
        written = rw (e, write_message) (ap some cut);
        read = λ rest.
            read_message_frame (f.channel % 256) _
            ∙ read_interleaved_frame_lem (wire f ++ rest) rest f (unmarshal-wire f rest fits);
      }

  known_request :
      (method rest : List ℕ)
      → IsKnown method
      → read_message urls (method ++ rest) ≡ elim (unmarshal_request urls (method ++ rest)) [
        | fail e ↦ fail e
        | got r t ↦ got (request r) t
      ]
  unfolding read_message
  known_request [] rest k = absurd k
  known_request (a ∷ []) rest k = absurd k
  known_request (a ∷ b ∷ s) rest k =
      let (no_frame, no_response) = starts_request-ne a b k in
      rw (no_frame, read_message) (rw (no_response, read_message) (rw k refl))

  request-Carries :
      (buf : List ℕ) (req : Request Url)
      → FitsMessage (length buf) (request req)
      → Carries buf (request req)
  unfolding write_message
  request-Carries buf req ((h, f), k) = record {
    bytes = request_wire urls req h [];
    written = marshal_request-wire urls req h f;
    read = λ rest.
        ap (read_message urls) (request_wire-append urls req h rest)
        ∙ known_request req.method _ k
        ∙ rw (unmarshal_request-wire urls req h rest f)
            (ap (λ o. got (request (record req { header = o })) rest) (sym f.content.sent));
  }

  response-Carries :
      (buf : List ℕ) (res : Response)
      → FitsMessage (length buf) (response res)
      → Carries buf (response res)
  unfolding write_message read_message
  response-Carries buf res (h, f) = record {
    bytes = response_wire res h [];
    written = marshal_response-wire res h f;
    read = λ rest.
        ap (read_message urls) (response_wire-append res h rest)
        ∙ rw (unmarshal_response-wire res h rest f) (
            ap
              (λ o.
                got (response (record res { status_message = sent_message res; header = o })) rest)
              (sym f.content.sent));
  }

  message-Carries : (buf : List ℕ) (m : Message Url) → FitsMessage (length buf) m → Carries buf m
  message-Carries buf (interleaved f) h = frame-Carries buf f h
  message-Carries buf (request req) h = request-Carries buf req h
  message-Carries buf (response res) h = response-Carries buf res h

  -- Interleaved frames, requests and responses that fit, the requests with a method that a connection
  -- knows, are written one behind the other without a panic, and the other side, which reads so many
  -- messages from these bytes, gets the same messages in the same order, each with the Content-Length
  -- and the status message that it was sent with.
  pub read_messages-write_messages :
      (buf : List ℕ) (ms : List (Message Url))
      → All (FitsMessage (length buf)) ms
      → (bytes : List ℕ) × (write_messages urls buf ms ≡ some bytes)
        × (read_messages urls (length ms) bytes ≡ map received ms)
  unfolding write_messages read_messages
  read_messages-write_messages buf [] f = ([], refl, refl)
  read_messages-write_messages buf (m ∷ ms) f =
      let c = message-Carries buf m f.0 in
      let (more, sent, got_more) = read_messages-write_messages buf ms f.1 in
      (
        c.bytes ++ more,
        rw (c.written, write_messages) (rw (sent, write_messages) refl),
        rw (c.read more, read_messages) (ap (λ l. received m ∷ l) got_more),
      )
