-- ===== src/Message/Header.antt =====
-- pkg/base/header.go. A header is the list of the entries of its map, in the order of their keys.
pub mod Order
pub mod Wire
pub mod RoundTrip
pub mod Bounds
use gortsplib.Common.{
  ℕ, zero, suc, ◌+◌, ◌-◌, Bool, true, false, ◌&&◌, ◌||◌, ◌==◌, ltb, leb, if◌then◌else◌, List, [],
  ◌∷◌, ◌++◌, length, replicate, some,
}
use gortsplib.Common.Bytes.{codes}
use gortsplib.Message.Reader.{
  Outcome, got, fail, value_missing, too_many_headers, end_of_stream, Reader, ◌>>=◌, ◌>>◌, return,
  refuse, read_byte, read_byte_equal, read_bytes_limited, read_text, without_last, text_eq,
}
use gortsplib.Message.Writer.{Writer, put_text, ◌then_write◌}

abbrev pub header_max_entry_count : ℕ
header_max_entry_count = 255

abbrev pub header_max_key_length : ℕ
header_max_key_length = 512

abbrev pub header_max_value_length : ℕ
header_max_value_length = 2048

abbrev pub Header : Type 0
Header = List (List ℕ × List (List ℕ))

is_upper : ℕ → Bool
is_upper c = leb b'A' c && leb c b'Z'

is_lower : ℕ → Bool
is_lower c = leb b'a' c && leb c b'z'

-- `strings.ToLower` of an ASCII text
to_lower : List ℕ → List ℕ
unfolding is_upper
to_lower [] = []
to_lower (c ∷ s) = (if is_upper c then c + 32 else c) ∷ to_lower s

is_mark : List ℕ → ℕ → Bool
is_mark [] c = false
is_mark (m ∷ ms) c = c == m || is_mark ms c

is_token : List ℕ → Bool
unfolding is_upper is_lower is_mark
is_token [] = true
is_token (c ∷ s) =
    (is_upper c || is_lower c || (leb b'0' c && leb c b'9') || is_mark (codes "!#$%&'*+-.^_`|~") c)
    && is_token s

capitals : Bool → List ℕ → List ℕ
unfolding is_upper is_lower
capitals upper [] = []
capitals upper (c ∷ s) =
    (if upper && is_lower c
      then c - 32
      else if is_upper c && (if upper then false else true)
      then c + 32
      else c)
    ∷ capitals (c == b'-') s

-- `http.CanonicalHeaderKey`: capitals at the start and behind a dash; what is no token is left as it is.
canonical_header_key : List ℕ → List ℕ
unfolding is_token capitals
canonical_header_key s = if is_token s then capitals true s else s

-- `headerKeyNormalize`
unfoldable pub header_key_normalize : List ℕ → List ℕ
unfolding to_lower canonical_header_key
header_key_normalize s =
    if text_eq (to_lower s) (codes "rtp-info")
    then codes "RTP-Info"
    else if text_eq (to_lower s) (codes "www-authenticate")
    then codes "WWW-Authenticate"
    else if text_eq (to_lower s) (codes "cseq")
    then codes "CSeq"
    else canonical_header_key s

-- The order of Go on strings.
abbrev pub text_lt : List ℕ → List ℕ → Bool
text_lt r [] = false
text_lt [] (c ∷ s) = true
text_lt (b ∷ r) (c ∷ s) = if b == c then text_lt r s else ltb b c

-- `h[key]`
unfoldable pub values_of : List ℕ → Header → List (List ℕ)
values_of key [] = []
values_of key ((k, vals) ∷ h) = if text_eq k key then vals else values_of key h

-- `h[key] = vals`
unfoldable pub set_values : List ℕ → List (List ℕ) → Header → Header
set_values key vals [] = (key, vals) ∷ []
set_values key vals ((k, old) ∷ h) =
    if text_eq k key
    then (key, vals) ∷ h
    else if text_lt key k
    then (key, vals) ∷ (k, old) ∷ h
    else (k, old) ∷ set_values key vals h

-- `h[key] = append(h[key], val)`
unfoldable pub add_value : List ℕ → List ℕ → Header → Header
add_value key val [] = (key, val ∷ []) ∷ []
add_value key val ((k, vals) ∷ h) =
    if text_eq k key
    then (k, vals ++ (val ∷ [])) ∷ h
    else if text_lt key k
    then (key, val ∷ []) ∷ (k, vals) ∷ h
    else (k, vals) ∷ add_value key val h

-- Reads up to the first byte that is no space, and unreads it.
unfoldable pub skip_spaces : Reader (Unit {0})
skip_spaces [] = fail end_of_stream
skip_spaces (byt ∷ s) = if byt == b' ' then skip_spaces s else got tt (byt ∷ s)

unfoldable pub read_key : ℕ → Reader (List ℕ)
read_key byt s = elim (read_bytes_limited b':' (header_max_key_length - 1) s) [
  | fail e ↦ fail value_missing
  | got byts rest ↦ got (header_key_normalize (byt ∷ without_last byts)) rest
]

unfoldable pub read_value : Reader (List ℕ)
unfolding skip_spaces
read_value = do
  skip_spaces
  val ← read_text 13 header_max_value_length
  read_byte_equal 10
  return val

abbrev pub read_end : Header → Reader Header
read_end h = do read_byte_equal 10; return h

-- The loop of `unmarshal`, with the entries left up to the limit.
unfoldable pub read_entries : ℕ → Header → Reader Header
unfolding read_key read_value add_value
read_entries zero h = do byt ← read_byte; if byt == 13 then read_end h else refuse too_many_headers
read_entries (suc left) h = do
  byt ← read_byte
  if byt == 13
      then read_end h
      else (do key ← read_key byt; val ← read_value; read_entries left (add_value key val h))

-- `unmarshal`
unfoldable pub unmarshal_header : Reader Header
unfolding read_entries
unmarshal_header = read_entries header_max_entry_count []

-- The keys that the writing goes through: `make` fills the list with as many empty strings as there
-- are keys, `append` puts the keys behind them, and sorting leaves the empty strings in front.
abbrev pub keys_of : Header → List (List ℕ)
keys_of [] = []
keys_of ((k, vals) ∷ h) = k ∷ keys_of h

unfoldable pub sorted_keys : Header → List (List ℕ)
sorted_keys h = replicate (length h) [] ++ keys_of h

abbrev pub line : List ℕ → List ℕ → List ℕ
line key val = key ++ (b':' ∷ b' ' ∷ (val ++ (13 ∷ 10 ∷ [])))

unfoldable pub values_size : List ℕ → List (List ℕ) → ℕ
values_size key [] = 0
values_size key (val ∷ vals) = length (line key val) + values_size key vals

unfoldable pub keys_size : List (List ℕ) → Header → ℕ
unfolding values_size
keys_size [] h = 0
keys_size (key ∷ keys) h = values_size key (values_of key h) + keys_size keys h

-- `marshalSize`
unfoldable pub header_marshal_size : Header → ℕ
unfolding sorted_keys keys_size
header_marshal_size h = keys_size (sorted_keys h) h + 2

unfoldable pub put_values : List ℕ → List (List ℕ) → Writer
put_values key [] b = some b
put_values key (val ∷ vals) b = (put_text (line key val) then_write put_values key vals) b

unfoldable pub put_keys : List (List ℕ) → Header → Writer
unfolding put_values
put_keys [] h b = some b
put_keys (key ∷ keys) h b = (put_values key (values_of key h) then_write put_keys keys h) b

-- `marshalTo`
unfoldable pub header_marshal_to : Header → Writer
unfolding sorted_keys put_keys
header_marshal_to h = put_keys (sorted_keys h) h then_write put_text (13 ∷ 10 ∷ [])
