-- ===== src/Message/Response.antt =====
-- pkg/base/response.go.
pub mod RoundTrip
use gortsplib.Common.{
  ℕ, ◌+◌, Bool, true, false, not, ◌==◌, if◌then◌else◌, Option, none, some, List, [], ◌∷◌, length,
}
use gortsplib.Message.Reader.{
  Outcome, got, fail, empty_status_message, invalid_status_code, invalid_protocol, Reader, ◌>>=◌,
  ◌>>◌, return, refuse, read_byte_equal, read_text, require, text_eq,
}
use gortsplib.Message.Writer.{Writer, put_text, put_byte, ◌then_write◌, fill}
use gortsplib.Message.Decimal.{format_int, parse_uint}
use gortsplib.Message.Header.{Header, unmarshal_header, header_marshal_size, header_marshal_to}
use gortsplib.Message.Status.{status_messages, message_of}
use gortsplib.Message.Body.{unmarshal_body, sent_header}
use gortsplib.Message.Request.{rtsp_protocol_10, is_empty}

pub record Response : Type 0 where
  pub status_code : ℕ
  pub status_message : List ℕ
  pub header : Option Header
  pub body : List ℕ

unfoldable pub read_status : List ℕ → Reader ℕ
read_status text s = elim (parse_uint 31 text) [
  | none ↦ fail invalid_status_code
  | some n ↦ got n s
]

-- `Unmarshal`
unfoldable pub unmarshal_response : Reader Response
unfolding read_status
unmarshal_response = do
  proto ← read_text b' ' 255
  require (text_eq proto rtsp_protocol_10) invalid_protocol
  status_code_text ← read_text b' ' 4
  status_code ← read_status status_code_text
  status_message ← read_text 13 255
  require (not (is_empty status_message)) empty_status_message
  read_byte_equal 10
  header ← unmarshal_header
  body ← unmarshal_body header
  return (record {
    status_code = status_code;
    status_message = status_message;
    header = some header;
    body = body;
  })

-- The message of the status code, if there is none.
unfoldable pub sent_message : Response → List ℕ
unfolding status_messages message_of
sent_message res =
    if is_empty res.status_message
    then message_of res.status_code status_messages
    else res.status_message

-- `MarshalSize`, with the header that is sent
unfoldable pub response_marshal_size : Response → Header → ℕ
response_marshal_size res h =
    length rtsp_protocol_10
    + 1
    + length (format_int res.status_code)
    + 1
    + length (sent_message res)
    + 2
    + header_marshal_size h
    + length res.body

-- `MarshalTo`, with the header that is sent
unfoldable pub response_marshal_to : Response → Header → Writer
response_marshal_to res h =
    put_text rtsp_protocol_10
    then_write put_byte b' '
    then_write put_text (format_int res.status_code)
    then_write put_byte b' '
    then_write put_text (sent_message res)
    then_write put_byte 13
    then_write put_byte 10
    then_write header_marshal_to h
    then_write put_text res.body

-- `Marshal`
unfoldable pub marshal_response : Response → Option (List ℕ)
unfolding response_marshal_size response_marshal_to
marshal_response res = elim (sent_header res.header res.body) [
  | none ↦ none
  | some h ↦ fill (response_marshal_size res h) (response_marshal_to res h)
]
