-- ===== src/Message/Runs.antt =====
-- A frame, a request with a body and a response on one connection.
use mathlib.Core.List.{map}
use gortsplib.Common.{
  ℕ, ◌≤◌, true, ◌≡◌, refl, none, some, List, [], ◌∷◌, ◌++◌, length, replicate, arith,
}
use gortsplib.Common.Bytes.{codes}
use gortsplib.Message.Reader.{got, read_byte, read_byte_equal, read_text, has_none, has_none-Lacks}
use gortsplib.Message.Decimal.{format_int}
use gortsplib.Message.Header.{Header, header_key_normalize, set_values, values_of, unmarshal_header}
use gortsplib.Message.Header.RoundTrip.{FitsHeader, count_values}
use gortsplib.Message.Header.Bounds.{IsBounded, unmarshal_header-IsBounded}
use gortsplib.Message.Body.{sent_header}
use gortsplib.Message.Request.{
  UrlText, Request, unmarshal_request, marshal_request, request_marshal_size,
}
use gortsplib.Message.Request.RoundTrip.{FitsRequest, unmarshal-marshal_request}
use gortsplib.Message.Response.{
  Response, unmarshal_response, sent_message, marshal_response, response_marshal_size,
}
use gortsplib.Message.Response.RoundTrip.{FitsResponse, unmarshal-marshal_response}
use gortsplib.Message.Conn.{Message, interleaved, request, response, read_messages, write_messages}
use gortsplib.Message.Conn.RoundTrip.{received, read_messages-write_messages}

-- URLs that are their own text.
abbrev urls : UrlText (List ℕ)
urls = record { parse_url = some; print_url = λ u. u }

abbrev announce : Request (List ℕ)
announce = record {
  method = codes "ANNOUNCE";
  url = some (codes "rtsp://a/b");
  header =
      some
        ((codes "CSeq", codes "1" ∷ []) ∷ (codes "User-Agent", codes "x" ∷ codes "y z" ∷ []) ∷ []);
  body = codes "v=0";
}

abbrev announce_header : Header
announce_header =
    (codes "CSeq", codes "1" ∷ [])
    ∷ (codes "Content-Length", codes "3" ∷ [])
    ∷ (codes "User-Agent", codes "x" ∷ codes "y z" ∷ [])
    ∷ []

announce_header-FitsHeader : FitsHeader announce_header
unfolding header_key_normalize
announce_header-FitsHeader =
    let lacks = λ (s : List ℕ) (e : has_none b':' s ≡ true). has_none-Lacks b':' s e in
    let on_line = λ (s : List ℕ) (e : has_none 13 s ≡ true). has_none-Lacks 13 s e in
    record {
      entries = (
        (
          (refl, lacks (codes "Seq") refl, omega arith, refl),
          (on_line (codes "1") refl, omega arith, refl),
          tt,
        ),
        (
          (
            (refl, lacks (codes "ontent-Length") refl, omega arith, refl),
            (on_line (codes "3") refl, omega arith, refl),
            tt,
          ),
          (
            (
              (refl, lacks (codes "ser-Agent") refl, omega arith, refl),
              (on_line (codes "x") refl, omega arith, refl),
              ((on_line (codes "y z") refl, omega arith, refl), tt),
            ),
            tt,
          ),
        ),
      );
      order = ((refl, (refl, tt)), ((refl, tt), (tt, tt)));
      count = omega arith;
    }

announce-FitsRequest : FitsRequest urls announce announce_header
unfolding sent_header format_int set_values
announce-FitsRequest = record {
  method = has_none-Lacks b' ' (codes "ANNOUNCE") refl;
  method_some = omega arith;
  method_limit = omega arith;
  url = (has_none-Lacks b' ' (codes "rtsp://a/b") refl, omega arith, refl, refl);
  content = record {
    header = announce_header-FitsHeader;
    sent = refl;
    limit = omega arith;
    no_length = λ e. absurd (omega (arith, e));
  };
}

unmarshal-marshal_request_example :
    (bytes : List ℕ) × (marshal_request urls announce ≡ some bytes)
    × (length bytes ≡ request_marshal_size urls announce announce_header)
    × (unmarshal_request urls (bytes ++ codes "$")
        ≡ got (record announce { header = some announce_header }) (codes "$"))
unmarshal-marshal_request_example =
    unmarshal-marshal_request urls announce announce_header (codes "$") announce-FitsRequest

abbrev not_found : Response
not_found = record { status_code = 404; status_message = []; header = none; body = [] }

not_found-FitsResponse : FitsResponse not_found []
unfolding sent_message sent_header values_of
not_found-FitsResponse = record {
  code = omega arith;
  message = has_none-Lacks 13 (codes "Not Found") refl;
  message_some = omega arith;
  message_limit = omega arith;
  content = record {
    header = record { entries = tt; order = tt; count = omega arith };
    sent = refl;
    limit = omega arith;
    no_length = λ e. refl;
  };
}

unmarshal-marshal_response_example :
    (bytes : List ℕ) × (marshal_response not_found ≡ some bytes)
    × (length bytes ≡ response_marshal_size not_found [])
    × (unmarshal_response (bytes ++ [])
        ≡ got (record not_found { status_message = sent_message not_found; header = some [] }) [])
unmarshal-marshal_response_example =
    unmarshal-marshal_response not_found [] [] not_found-FitsResponse

abbrev messages : List (Message (List ℕ))
messages =
    request announce
    ∷ interleaved (record { channel = 1; payload = 2 ∷ 3 ∷ [] })
    ∷ response not_found
    ∷ []

abbrev buffer : List ℕ
buffer = replicate 10 0

read_messages-write_messages_example :
    (bytes : List ℕ) × (write_messages urls buffer messages ≡ some bytes)
    × (read_messages urls (length messages) bytes ≡ map (received urls) messages)
read_messages-write_messages_example = read_messages-write_messages urls buffer messages (
  ((announce_header, announce-FitsRequest), refl),
  (
    (record { channel = omega arith; payload = omega arith }, omega arith),
    (([], not_found-FitsResponse), tt),
  ),
)

-- A value is read without the spaces in front of it, and a key in its normal form.
read_header :
    unmarshal_header (codes "cseq:   12" ++ (13 ∷ 10 ∷ 13 ∷ 10 ∷ []))
    ≡ got ((codes "CSeq", codes "12" ∷ []) ∷ []) []
unfolding unmarshal_header read_byte read_byte_equal read_text header_key_normalize
read_header = refl

unmarshal_header-IsBounded_example :
    IsBounded ((codes "CSeq", codes "12" ∷ []) ∷ [])
    × (count_values ((codes "CSeq", codes "12" ∷ []) ∷ []) ≤ 255)
unmarshal_header-IsBounded_example =
    unmarshal_header-IsBounded (codes "cseq:   12" ++ (13 ∷ 10 ∷ 13 ∷ 10 ∷ [])) [] _ read_header
