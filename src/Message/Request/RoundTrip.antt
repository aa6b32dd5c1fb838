-- ===== src/Message/Request/RoundTrip.antt =====
-- A request that was written is read again.
use gortsplib.Common.{
  ℕ, ◌<◌, ◌≡◌, refl, sym, ap, ◌∙◌, false, Option, none, some, List, [], ◌++◌, length, arith,
}
use gortsplib.Common.Bytes.{codes}
use gortsplib.Message.Reader.{got, ◌>>=◌, read_text_lem, text_eq, Lacks, has_none-Lacks}
use gortsplib.Message.Writer.{fill, fill-Writes}
use gortsplib.Message.Header.{Header}
use gortsplib.Message.Body.RoundTrip.{
  FitsContent, message_wire, message_wire-append, read_content_wire, message_marshal_to-Writes,
  length-message_wire,
}
use gortsplib.Message.Request.{
  UrlText, Request, rtsp_protocol_10, not_empty, read_url, unmarshal_request, url_text,
  request_marshal_size, request_marshal_to, marshal_request,
}

module _ {Url : Type 0} (urls : UrlText Url) where
  -- A URL that can be sent and read: its text is in the limits, is not that of no URL, and gives the
  -- URL again.
  abbrev pub FitsUrl : Option Url → Type 0
  FitsUrl none = Unit
  FitsUrl (some u) =
      Lacks b' ' (urls.print_url u)
      × (length (urls.print_url u) < 2048)
      × (text_eq (urls.print_url u) (codes "*") ≡ false)
      × (urls.parse_url (urls.print_url u) ≡ some u)

  -- A request, and the header that it is sent with.
  pub record FitsRequest (req : Request Url) (h : Header) : Type 0 where
    pub method : Lacks b' ' req.method
    pub method_some : 0 < length req.method
    pub method_limit : length req.method < 64
    pub url : FitsUrl req.url
    pub content : FitsContent req.header req.body h

  -- The bytes of a request, and of what comes behind it.
  abbrev pub request_wire : Request Url → Header → List ℕ → List ℕ
  request_wire req h rest =
      message_wire req.method (url_text urls req.url) rtsp_protocol_10 h req.body rest

  read_url_text :
      (url : Option Url) (rest : List ℕ)
      → FitsUrl url
      → read_url urls (url_text urls url) rest ≡ got url rest
  unfolding read_url
  read_url_text none rest f = refl
  read_url_text (some u) rest (_, _, star, read) = rw star (rw read refl)

  url_text-Lacks :
      (url : Option Url)
      → FitsUrl url
      → Lacks b' ' (url_text urls url) × (length (url_text urls url) < 2048)
  url_text-Lacks none f = ((refl, tt), omega arith)
  url_text-Lacks (some u) (l, n, _, _) = (l, n)

  pub unmarshal_request-wire :
      (req : Request Url) (h : Header) (rest : List ℕ)
      → FitsRequest req h
      → unmarshal_request urls (request_wire req h rest) ≡ got (record req { header = some h }) rest
  unfolding unmarshal_request
  unmarshal_request-wire req h rest f =
      let (lu, nu) = url_text-Lacks req.url f.url in
      let lacks = has_none-Lacks 13 rtsp_protocol_10 refl in
      rw (read_text_lem b' ' 64 req.method _ f.method f.method_limit, unmarshal_request, ◌>>=◌)
        (rw (not_empty req.method f.method_some, ◌>>=◌)
          (rw (read_text_lem b' ' 2048 (url_text urls req.url) _ lu nu, ◌>>=◌)
            (rw (read_url_text req.url _ f.url, ◌>>=◌)
              (rw (read_text_lem 13 64 rtsp_protocol_10 _ lacks (omega arith), ◌>>=◌)
                (read_content_wire f.content
                  (λ h' body. record req { header = some h'; body = body }) rest)))))

  request_marshal_size-length :
      (req : Request Url) (h : Header)
      → FitsRequest req h
      → request_marshal_size urls req h ≡ length (request_wire req h [])
  unfolding request_marshal_size
  request_marshal_size-length req h f =
      omega
        (arith, length-message_wire f.content req.method (url_text urls req.url) rtsp_protocol_10)

  pub request_wire-append :
      (req : Request Url) (h : Header) (rest : List ℕ)
      → request_wire req h [] ++ rest ≡ request_wire req h rest
  request_wire-append req h rest =
      message_wire-append req.method (url_text urls req.url) rtsp_protocol_10 h req.body rest

  pub marshal_request-wire :
      (req : Request Url) (h : Header)
      → FitsRequest req h
      → marshal_request urls req ≡ some (request_wire req h [])
  unfolding marshal_request request_marshal_to
  marshal_request-wire req h f =
      rw (f.content.sent, marshal_request)
        (ap (λ n. fill n (request_marshal_to urls req h)) (request_marshal_size-length req h f)
          ∙ fill-Writes (request_marshal_to urls req h) (request_wire req h []) (
              message_marshal_to-Writes f.content req.method (url_text urls req.url)
                rtsp_protocol_10))

  -- A request that fits, the text of its URL and its header included, is written without a panic in as
  -- many bytes as `MarshalSize` says, and reading these bytes, whatever comes behind them, gives the
  -- request again, with the Content-Length that it was sent with, and leaves what comes behind.
  pub unmarshal-marshal_request :
      (req : Request Url) (h : Header) (rest : List ℕ)
      → FitsRequest req h
      → (bytes : List ℕ) × (marshal_request urls req ≡ some bytes)
        × (length bytes ≡ request_marshal_size urls req h)
        × (unmarshal_request urls (bytes ++ rest) ≡ got (record req { header = some h }) rest)
  unmarshal-marshal_request req h rest f = (
    request_wire req h [],
    marshal_request-wire req h f,
    sym (request_marshal_size-length req h f),
    ap (unmarshal_request urls) (request_wire-append req h rest)
        ∙ unmarshal_request-wire req h rest f,
  )
