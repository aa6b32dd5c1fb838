-- ===== src/Message/Body.antt =====
-- pkg/base/body.go, and the header of a message with its Content-Length.
pub mod RoundTrip
use gortsplib.Common.{
  ℕ, ◌≤◌, ◌≡◌, refl, sym, ap, ◌∙◌, ltb, if◌then◌else◌, Option, none, some, some-inj, List, [], ◌∷◌,
  ◌++◌, length, arith,
}
use gortsplib.Common.Cases.{if_case}
use gortsplib.Common.Bytes.{codes}
use gortsplib.Message.Reader.{
  got, fail, invalid_content_length, content_too_long, Reader, read_full, Reads, read_full-Reads,
}
use gortsplib.Message.Decimal.{format_int, parse_uint, parse_uint-format_int}
use gortsplib.Message.Header.{Header, values_of, set_values}
use gortsplib.Message.Header.Order.{values_of-set_values}

abbrev pub rtsp_max_content_length : ℕ
rtsp_max_content_length = 131072

abbrev pub content_length : List ℕ
content_length = codes "Content-Length"

abbrev read_limited : ℕ → Reader (List ℕ)
read_limited n s = if ltb rtsp_max_content_length n then fail content_too_long else read_full n s

read_content : List (List ℕ) → Reader (List ℕ)
read_content [] s = got [] s
read_content (cl ∷ []) s = elim (parse_uint 64 cl) [
  | none ↦ fail invalid_content_length
  | some n ↦ read_limited n s
]
read_content (cl ∷ cl' ∷ cls) s = got [] s

-- `unmarshal`; a header with more than one Content-Length is as one with none.
unfoldable pub unmarshal_body : Header → Reader (List ℕ)
unfolding read_content
unmarshal_body h = read_content (values_of content_length h)

-- The header that is written; a header that is nil is none, and so is the panic of an assignment to it.
unfoldable pub sent_header : Option Header → List ℕ → Option Header
sent_header none [] = some []
sent_header none (b ∷ body) = none
sent_header (some h) [] = some h
sent_header (some h) (b ∷ body) =
    some (set_values content_length (format_int (length (b ∷ body)) ∷ []) h)
