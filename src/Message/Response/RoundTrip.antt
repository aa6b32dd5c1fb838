-- ===== src/Message/Response/RoundTrip.antt =====
-- A response that was written is read again.
use gortsplib.Common.{ℕ, ◌<◌, ◌≡◌, refl, sym, ap, ◌∙◌, some, List, [], ◌∷◌, ◌++◌, length, arith}
use gortsplib.Message.Reader.{got, ◌>>=◌, read_text_lem, Lacks, has_none-Lacks}
use gortsplib.Message.Writer.{fill, fill-Writes}
use gortsplib.Message.Decimal.{
  format_int, parse_uint-format_int, format_int-Lacks_space, length-format_int,
}
use gortsplib.Message.Header.{Header}
use gortsplib.Message.Header.Wire.{header_wire}
use gortsplib.Message.Body.RoundTrip.{
  FitsContent, message_wire, message_wire-append, read_content_wire, message_marshal_to-Writes,
  length-message_wire,
}
use gortsplib.Message.Request.{rtsp_protocol_10, not_empty}
use gortsplib.Message.Response.{
  Response, read_status, unmarshal_response, sent_message, response_marshal_size,
  response_marshal_to, marshal_response,
}

-- A response, and the header that it is sent with.
pub record FitsResponse (res : Response) (h : Header) : Type 0 where
  pub code : res.status_code < 1000
  pub message : Lacks 13 (sent_message res)
  pub message_some : 0 < length (sent_message res)
  pub message_limit : length (sent_message res) < 255
  pub content : FitsContent res.header res.body h

-- The bytes of a response, and of what comes behind it.
abbrev pub response_wire : Response → Header → List ℕ → List ℕ
response_wire res h rest =
    message_wire rtsp_protocol_10 (format_int res.status_code) (sent_message res) h res.body rest

read_status_code :
    (code : ℕ) (rest : List ℕ) → code < 1000 → read_status (format_int code) rest ≡ got code rest
unfolding read_status
read_status_code code rest h =
    rw (parse_uint-format_int 31 code (omega (arith, h)), read_status) refl

pub unmarshal_response-wire :
    (res : Response) (h : Header) (rest : List ℕ)
    → FitsResponse res h
    → unmarshal_response (response_wire res h rest)
      ≡ got (record res { status_message = sent_message res; header = some h }) rest
unfolding unmarshal_response
unmarshal_response-wire res h rest f =
    let lacks = has_none-Lacks b' ' rtsp_protocol_10 refl in
    rw (read_text_lem b' ' 255 rtsp_protocol_10 _ lacks (omega arith), unmarshal_response, ◌>>=◌)
      (rw
        (
          read_text_lem b' ' 4 (format_int res.status_code) _
              (format_int-Lacks_space res.status_code) (length-format_int res.status_code f.code),
          ◌>>=◌,
        )
        (rw
          (
            read_status_code res.status_code
                (sent_message res ++ (13 ∷ 10 ∷ (header_wire h ++ (res.body ++ rest)))) f.code,
            ◌>>=◌,
          )
          (rw (read_text_lem 13 255 (sent_message res) _ f.message f.message_limit, ◌>>=◌)
            (rw (not_empty (sent_message res) f.message_some, ◌>>=◌)
              (read_content_wire f.content
                (λ h' body. record res {
                  status_message = sent_message res;
                  header = some h';
                  body = body;
                })
                rest)))))

response_marshal_size-length :
    (res : Response) (h : Header)
    → FitsResponse res h
    → response_marshal_size res h ≡ length (response_wire res h [])
unfolding response_marshal_size
response_marshal_size-length res h f = omega (
  arith,
  length-message_wire f.content rtsp_protocol_10 (format_int res.status_code) (sent_message res),
)

pub response_wire-append :
    (res : Response) (h : Header) (rest : List ℕ)
    → response_wire res h [] ++ rest ≡ response_wire res h rest
response_wire-append res h rest =
    message_wire-append rtsp_protocol_10 (format_int res.status_code) (sent_message res) h res.body
      rest

pub marshal_response-wire :
    (res : Response) (h : Header)
    → FitsResponse res h
    → marshal_response res ≡ some (response_wire res h [])
unfolding marshal_response response_marshal_to
marshal_response-wire res h f =
    rw (f.content.sent, marshal_response)
      (ap (λ n. fill n (response_marshal_to res h)) (response_marshal_size-length res h f)
        ∙ fill-Writes (response_marshal_to res h) (response_wire res h []) (
            message_marshal_to-Writes f.content rtsp_protocol_10 (format_int res.status_code)
              (sent_message res)))

-- A response that fits, its header included, with a status code below 1000, is written without a panic
-- in as many bytes as `MarshalSize` says, and reading these bytes, whatever comes behind them, gives
-- the response again, with the message and the Content-Length that it was sent with, and leaves what
-- comes behind.
pub unmarshal-marshal_response :
    (res : Response) (h : Header) (rest : List ℕ)
    → FitsResponse res h
    → (bytes : List ℕ) × (marshal_response res ≡ some bytes)
      × (length bytes ≡ response_marshal_size res h)
      × (unmarshal_response (bytes ++ rest)
          ≡ got (record res { status_message = sent_message res; header = some h }) rest)
unmarshal-marshal_response res h rest f = (
  response_wire res h [],
  marshal_response-wire res h f,
  sym (response_marshal_size-length res h f),
  ap unmarshal_response (response_wire-append res h rest) ∙ unmarshal_response-wire res h rest f,
)
