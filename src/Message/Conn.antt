-- ===== src/Message/Conn.antt =====
-- pkg/conn/conn.go. Behind each frame, request or response the loop of `Read` starts again at the next
-- byte; bytes that start none of them are skipped. The frame that a connection gives is its own and
-- is written again by the next read; here a read gives its value.
pub mod RoundTrip
use gortsplib.Common.{
  ℕ, zero, suc, Bool, true, false, ◌&&◌, ◌||◌, ◌==◌, if◌then◌else◌, Option, none, some, List, [],
  ◌∷◌, ◌++◌, take,
}
use gortsplib.Frame
use gortsplib.Frame.{InterleavedFrame, interleaved_frame_magic_byte, unmarshal, marshal_to}
use gortsplib.Message.Reader.{Outcome, got, fail, end_of_stream, invalid_frame, Reader}
use gortsplib.Message.Request.{UrlText, Request, unmarshal_request, marshal_request}
use gortsplib.Message.Response.{Response, unmarshal_response, marshal_response}

pub data Message (Url : Type 0) : Type 0 where
  interleaved : InterleavedFrame → Message Url
  request : Request Url → Message Url
  response : Response → Message Url

-- `ReadInterleavedFrame`
unfoldable pub read_interleaved_frame : {Url : Type 0} → Reader (Message Url)
read_interleaved_frame s = elim (unmarshal s) [
  | Frame.frame f rest ↦ got (interleaved f) rest
  | Frame.invalid_magic_byte ↦ fail invalid_frame
  | Frame.end_of_stream ↦ fail end_of_stream
]

-- The first two letters of the methods.
abbrev pub starts_request : ℕ → ℕ → Bool
starts_request a b =
    (a == b'A' && b == b'N')
    || (a == b'D' && b == b'E')
    || (a == b'G' && b == b'E')
    || (a == b'O' && b == b'P')
    || (a == b'P' && b == b'A')
    || (a == b'P' && b == b'L')
    || (a == b'R' && b == b'E')
    || (a == b'S' && b == b'E')
    || (a == b'T' && b == b'E')

abbrev as_message : {A Url : Type 0} → (A → Message Url) → Outcome A → Outcome (Message Url)
as_message f o = elim o [ fail e ↦ fail e | got a rest ↦ got (f a) rest ]

module _ {Url : Type 0} (urls : UrlText Url) where
  -- `Read`
  unfoldable pub read_message : Reader (Message Url)
  unfolding read_interleaved_frame
  read_message [] = fail end_of_stream
  read_message (a ∷ []) = fail end_of_stream
  read_message (a ∷ b ∷ s) =
      if a == interleaved_frame_magic_byte
      then read_interleaved_frame (a ∷ b ∷ s)
      else if a == b'R' && b == b'T'
      then as_message response (unmarshal_response (a ∷ b ∷ s))
      else if starts_request a b
      then as_message request (unmarshal_request urls (a ∷ b ∷ s))
      else read_message (b ∷ s)

  -- `WriteInterleavedFrame`, `WriteRequest` and `WriteResponse`: the bytes that go to the writer; none is
  -- a panic. The first argument is the buffer for frames.
  unfoldable pub write_message : List ℕ → Message Url → Option (List ℕ)
  write_message buf (interleaved f) = elim (marshal_to f buf) [
    | none ↦ none
    | some (n, written) ↦ some (take n written)
  ]
  write_message buf (request req) = marshal_request urls req
  write_message buf (response res) = marshal_response res

  unfoldable pub write_messages : List ℕ → List (Message Url) → Option (List ℕ)
  unfolding write_message
  write_messages buf [] = some []
  write_messages buf (m ∷ ms) = elim (write_message buf m) [
    | none ↦ none
    | some bytes ↦ elim (write_messages buf ms) [ none ↦ none | some more ↦ some (bytes ++ more) ]
  ]

  -- So many reads of a connection, up to an error.
  unfoldable pub read_messages : ℕ → List ℕ → List (Message Url)
  unfolding read_message
  read_messages zero s = []
  read_messages (suc k) s = elim (read_message s) [
    | fail e ↦ []
    | got m rest ↦ m ∷ read_messages k rest
  ]
