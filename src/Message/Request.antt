-- ===== src/Message/Request.antt =====
-- pkg/base/request.go. Reading and printing of URLs are arguments.
pub mod RoundTrip
use gortsplib.Common.{
  ℕ, ◌+◌, ◌<◌, ◌≡◌, refl, arith, Bool, true, false, not, ◌==◌, if◌then◌else◌, Option, none, some,
  List, [], ◌∷◌, length,
}
use gortsplib.Common.Bytes.{codes}
use gortsplib.Message.Reader.{
  Outcome, got, fail, empty_method, invalid_url, invalid_protocol, Reader, ◌>>=◌, ◌>>◌, return,
  refuse, read_byte_equal, read_text, require, text_eq,
}
use gortsplib.Message.Writer.{Writer, put_text, put_byte, ◌then_write◌, fill}
use gortsplib.Message.Header.{Header, unmarshal_header, header_marshal_size, header_marshal_to}
use gortsplib.Message.Body.{unmarshal_body, sent_header}

abbrev pub rtsp_protocol_10 : List ℕ
rtsp_protocol_10 = codes "RTSP/1.0"

abbrev pub request_max_method_length : ℕ
request_max_method_length = 64

abbrev pub request_max_url_length : ℕ
request_max_url_length = 2048

abbrev pub request_max_protocol_length : ℕ
request_max_protocol_length = 64

-- `ParseURL`, and `String` of `CloneWithoutCredentials`.
pub record UrlText (Url : Type 0) : Type 0 where
  pub parse_url : List ℕ → Option Url
  pub print_url : Url → List ℕ

-- A URL that is nil is none, as is a header that is nil.
pub record Request (Url : Type 0) : Type 0 where
  pub method : List ℕ
  pub url : Option Url
  pub header : Option Header
  pub body : List ℕ

abbrev pub is_empty : List ℕ → Bool
is_empty [] = true
is_empty (b ∷ s) = false

pub not_empty : (s : List ℕ) → 0 < length s → not (is_empty s) ≡ true
not_empty [] l = absurd (omega (arith, l))
not_empty (b ∷ s) l = refl

module _ {Url : Type 0} (urls : UrlText Url) where
  unfoldable pub read_url : List ℕ → Reader (Option Url)
  read_url raw s =
      if not (text_eq raw (codes "*"))
      then elim (urls.parse_url raw) [ none ↦ fail invalid_url | some u ↦ got (some u) s ]
      else got none s

  -- `Unmarshal`
  unfoldable pub unmarshal_request : Reader (Request Url)
  unfolding read_url
  unmarshal_request = do
    method ← read_text b' ' request_max_method_length
    require (not (is_empty method)) empty_method
    raw_url ← read_text b' ' request_max_url_length
    url ← read_url raw_url
    proto ← read_text 13 request_max_protocol_length
    require (text_eq proto rtsp_protocol_10) invalid_protocol
    read_byte_equal 10
    header ← unmarshal_header
    body ← unmarshal_body header
    return (record { method = method; url = url; header = some header; body = body })

  abbrev pub url_text : Option Url → List ℕ
  url_text none = codes "*"
  url_text (some u) = urls.print_url u

  -- `MarshalSize`, with the header that is sent
  unfoldable pub request_marshal_size : Request Url → Header → ℕ
  request_marshal_size req h =
      length req.method
      + 1
      + length (url_text req.url)
      + (1 + length rtsp_protocol_10 + 2)
      + header_marshal_size h
      + length req.body

  -- `MarshalTo`, with the header that is sent
  unfoldable pub request_marshal_to : Request Url → Header → Writer
  request_marshal_to req h =
      put_text req.method
      then_write put_byte b' '
      then_write put_text (url_text req.url)
      then_write put_byte b' '
      then_write put_text rtsp_protocol_10
      then_write put_byte 13
      then_write put_byte 10
      then_write header_marshal_to h
      then_write put_text req.body

  -- `Marshal`; the header keeps the Content-Length that it is sent with.
  unfoldable pub marshal_request : Request Url → Option (List ℕ)
  unfolding request_marshal_size request_marshal_to
  marshal_request req = elim (sent_header req.header req.body) [
    | none ↦ none
    | some h ↦ fill (request_marshal_size req h) (request_marshal_to req h)
  ]
