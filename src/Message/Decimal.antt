-- ===== src/Message/Decimal.antt =====
-- `strconv.FormatInt` of a number that is not negative, and `strconv.ParseUint`, both in base 10.
use gortsplib.Common.{
  ℕ, zero, suc, ◌+◌, ◌-◌, ◌*◌, ◌/◌, ◌%◌, ◌^◌, ◌≤◌, ◌<◌, ◌≡◌, refl, ◌∙◌, ◌||◌, ltb, if◌then◌else◌,
  Option, none, some, List, [], ◌∷◌, length, arith,
}
use gortsplib.Common.Cases.{if_case}
use gortsplib.Message.Reader.{Lacks}

-- The digits of `n` before the text; a number takes no more rounds than itself.
digits : ℕ → ℕ → List ℕ → List ℕ
digits zero n text = (b'0' + n) ∷ text
digits (suc k) n text =
    let more = digits k (n / 10) ((b'0' + n % 10) ∷ text) in
    if ltb n 10 then (b'0' + n) ∷ text else more

unfoldable pub format_int : ℕ → List ℕ
unfolding digits
format_int n = digits n n []

scan : ℕ → List ℕ → Option ℕ
scan n [] = some n
scan n (c ∷ text) = if ltb c b'0' || ltb b'9' c then none else scan (n * 10 + (c - b'0')) text

below : ℕ → Option ℕ → Option ℕ
below limit none = none
below limit (some n) = if ltb n limit then some n else none

-- A number that does not fit in `bits` bits is an error, as is a text with no digit.
unfoldable pub parse_uint : ℕ → List ℕ → Option ℕ
unfolding scan below
parse_uint bits [] = none
parse_uint bits (c ∷ text) = below (2 ^ bits) (scan 0 (c ∷ text))

scan-digits : (k n : ℕ) (text : List ℕ) → n ≤ k → scan 0 (digits k n text) ≡ scan n text
unfolding scan digits
scan-digits zero n text h = ground arith
scan-digits (suc k) n text h =
    ground (arith, scan-digits k (n / 10) ((b'0' + n % 10) ∷ text) (omega (arith, h)))

parse_uint-digits :
    (bits k n : ℕ) (text : List ℕ)
    → parse_uint bits (digits k n text) ≡ below (2 ^ bits) (scan 0 (digits k n text))
unfolding parse_uint digits
parse_uint-digits bits zero n text = refl
parse_uint-digits bits (suc k) n text =
    ground (arith, parse_uint-digits bits k (n / 10) ((b'0' + n % 10) ∷ text))

-- A number that fits is read back.
pub parse_uint-format_int : (bits n : ℕ) → n < 2 ^ bits → parse_uint bits (format_int n) ≡ some n
unfolding format_int below scan
parse_uint-format_int bits n h =
    parse_uint-digits bits n n [] ∙ rw (scan-digits n n [] (omega arith)) (ground arith)

digits-Lacks :
    (delim k n : ℕ) (text : List ℕ)
    → delim < b'0'
    → n ≤ k
    → Lacks delim text
    → Lacks delim (digits k n text)
unfolding digits
digits-Lacks delim zero n text d h l = (ground arith, l)
digits-Lacks delim (suc k) n text d h l =
    if_case (λ t. Lacks delim t) (ltb n 10) (λ z. (ground arith, l))
      (λ z.
        digits-Lacks delim k (n / 10) ((b'0' + n % 10) ∷ text) d (omega (arith, h))
          (ground arith, l))

length-digits_one : (k n : ℕ) (text : List ℕ) → n < 10 → length (digits k n text) ≤ 1 + length text
unfolding digits
length-digits_one zero n text h = ground arith
length-digits_one (suc k) n text h = ground arith

length-digits_two : (k n : ℕ) (text : List ℕ) → n < 100 → length (digits k n text) ≤ 2 + length text
unfolding digits
length-digits_two zero n text h = ground arith
length-digits_two (suc k) n text h =
    ground (arith, length-digits_one k (n / 10) ((b'0' + n % 10) ∷ text) (omega (arith, h)))

length-digits_three :
    (k n : ℕ) (text : List ℕ) → n < 1000 → length (digits k n text) ≤ 3 + length text
unfolding digits
length-digits_three zero n text h = ground arith
length-digits_three (suc k) n text h =
    ground (arith, length-digits_two k (n / 10) ((b'0' + n % 10) ∷ text) (omega (arith, h)))

pub format_int-Lacks_space : (n : ℕ) → Lacks b' ' (format_int n)
unfolding format_int
format_int-Lacks_space n = digits-Lacks b' ' n n [] (omega arith) (omega arith) tt

pub length-format_int : (n : ℕ) → n < 1000 → length (format_int n) < 4
unfolding format_int
length-format_int n h = omega (arith, length-digits_three n n [] h)
