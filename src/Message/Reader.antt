-- ===== src/Message/Reader.antt =====
-- pkg/base/utils.go, and the buffered reader that messages are read from: the bytes still to come.
use gortsplib.Common.{
  ℕ, zero, suc, ◌++◌, ◌<◌, ◌≡◌, refl, sym, ap, subst, ◌∙◌, Bool, true, false, ◌==◌, leb,
  if◌then◌else◌, List, [], ◌∷◌, append_assoc, length, take, drop, take-length_append,
  drop-length_append, length-append, All, arith,
}
use gortsplib.Common.Cases.{if_case}

pub data ReadError : Type 0 where
  end_of_stream : ReadError
  unexpected_byte : ReadError
  buffer_too_long : ReadError
  too_many_headers : ReadError
  value_missing : ReadError
  invalid_content_length : ReadError
  content_too_long : ReadError
  empty_method : ReadError
  invalid_url : ReadError
  invalid_protocol : ReadError
  invalid_status_code : ReadError
  empty_status_message : ReadError
  invalid_frame : ReadError

-- What a read gives, and the bytes behind it.
pub data Outcome (A : Type 0) : Type 0 where
  got : A → List ℕ → Outcome A
  fail : ReadError → Outcome A

abbrev pub Reader : Type 0 → Type 0
Reader A = List ℕ → Outcome A

infixl 5 ◌>>=◌ ◌>>◌
abbrev pub ◌>>=◌ : {A B : Type 0} → Reader A → (A → Reader B) → Reader B
◌>>=◌ m f s = elim (m s) [ fail e ↦ fail e | got a rest ↦ f a rest ]

abbrev pub ◌>>◌ : {B : Type 0} → Reader (Unit {0}) → Reader B → Reader B
m >> k = m >>= λ _. k

abbrev pub return : {A : Type 0} → A → Reader A
return a s = got a s

abbrev pub refuse : {A : Type 0} → ReadError → Reader A
refuse e s = fail e

-- `bufio.Reader.ReadByte`
unfoldable pub read_byte : Reader ℕ
read_byte [] = fail end_of_stream
read_byte (b ∷ s) = got b s

-- `io.ReadFull`
unfoldable pub read_full : ℕ → Reader (List ℕ)
read_full n s = if leb n (length s) then got (take n s) (drop n s) else fail end_of_stream

-- `readByteEqual`
unfoldable pub read_byte_equal : ℕ → Reader (Unit {0})
unfolding read_byte
read_byte_equal cmp = do byt ← read_byte; if byt == cmp then return tt else refuse unexpected_byte

-- `readBytesLimited`: the rounds left of its loop are the bytes that it still looks at.
unfoldable pub read_bytes_limited : ℕ → ℕ → Reader (List ℕ)
read_bytes_limited delim zero s = fail buffer_too_long
read_bytes_limited delim (suc n) [] = fail end_of_stream
read_bytes_limited delim (suc n) (b ∷ s) =
    let more = read_bytes_limited delim n s in
    if b == delim
    then got (b ∷ []) s
    else elim more [ fail e ↦ fail e | got byts rest ↦ got (b ∷ byts) rest ]

-- `byts[:len(byts)-1]`
abbrev pub without_last : List ℕ → List ℕ
without_last [] = []
without_last (b ∷ []) = []
without_last (b ∷ c ∷ s) = b ∷ without_last (c ∷ s)

-- The text before the delimiter, which is taken too.
unfoldable pub read_text : ℕ → ℕ → Reader (List ℕ)
unfolding read_bytes_limited
read_text delim n = do byts ← read_bytes_limited delim n; return (without_last byts)

-- `if !test { return err }`
abbrev pub require : Bool → ReadError → Reader (Unit {0})
require test e = if test then return tt else refuse e

abbrev pub text_eq : List ℕ → List ℕ → Bool
text_eq [] [] = true
text_eq [] (c ∷ s) = false
text_eq (b ∷ r) [] = false
text_eq (b ∷ r) (c ∷ s) = if b == c then text_eq r s else false

pub text_eq_refl : (r : List ℕ) → text_eq r r ≡ true
text_eq_refl [] = refl
text_eq_refl (b ∷ r) = ground (arith, text_eq_refl r)

-- The reader takes exactly these bytes, and gives `a` for them.
abbrev pub Reads : {A : Type 0} → Reader A → List ℕ → A → Type 0
Reads m bytes a = (rest : List ℕ) → m (bytes ++ rest) ≡ got a rest

pub bind_got :
    {A B : Type 0} (m : Reader A) (f : A → Reader B) (s t : List ℕ) (a : A) {r : Outcome B}
    → m s ≡ got a t
    → f a t ≡ r
    → (m >>= f) s ≡ r
bind_got m f s t a e g = rw (e, ◌>>=◌) g

pub Reads-bind :
    {A B : Type 0} (m : Reader A) (f : A → Reader B) (xs ys : List ℕ) (a : A) (b : B)
    → Reads m xs a
    → Reads (f a) ys b
    → Reads (m >>= f) (xs ++ ys) b
Reads-bind m f xs ys a b h k rest =
    bind_got m f ((xs ++ ys) ++ rest) (ys ++ rest) a
      (ap m (append_assoc xs ys rest) ∙ h (ys ++ rest)) (k rest)

-- No byte of the text is the delimiter.
abbrev pub Lacks : ℕ → List ℕ → Type 0
Lacks delim s = All (λ b. (b == delim) ≡ false) s

abbrev pub has_none : ℕ → List ℕ → Bool
has_none delim [] = true
has_none delim (b ∷ s) = if b == delim then false else has_none delim s

pub has_none-Lacks : (delim : ℕ) (s : List ℕ) → has_none delim s ≡ true → Lacks delim s
has_none-Lacks delim [] h = tt
has_none-Lacks delim (b ∷ s) h = (ground arith, has_none-Lacks delim s (ground arith))

pub read_bytes_limited-Reads :
    (delim n : ℕ) (text : List ℕ)
    → Lacks delim text
    → length text < n
    → Reads (read_bytes_limited delim n) (text ++ (delim ∷ [])) (text ++ (delim ∷ []))
unfolding read_bytes_limited
read_bytes_limited-Reads delim zero text l h rest = absurd (omega (arith, h))
read_bytes_limited-Reads delim (suc n) [] l h rest = ground arith
read_bytes_limited-Reads delim (suc n) (b ∷ text) l h rest =
    ground (arith, read_bytes_limited-Reads delim n text l.1 (omega (arith, h)) rest)

pub without_last_snoc : (text : List ℕ) (b : ℕ) → without_last (text ++ (b ∷ [])) ≡ text
without_last_snoc [] b = refl
without_last_snoc (c ∷ []) b = refl
without_last_snoc (c ∷ d ∷ text) b = ap (λ s. c ∷ s) (without_last_snoc (d ∷ text) b)

pub read_byte_equal-Reads : (cmp : ℕ) → Reads (read_byte_equal cmp) (cmp ∷ []) tt
unfolding read_byte_equal
read_byte_equal-Reads cmp rest = ground arith

pub read_full-Reads : (bytes : List ℕ) → Reads (read_full (length bytes)) bytes bytes
unfolding read_full
read_full-Reads bytes rest =
    if_case (λ o. o ≡ got bytes rest) (leb (length bytes) (length (bytes ++ rest)))
      (λ z.
        ap (λ b. got b (drop (length bytes) (bytes ++ rest))) (take-length_append bytes rest)
        ∙ ap (got bytes) (drop-length_append bytes rest))
      (λ z. absurd (ground (arith, length-append bytes rest)))

pub read_text_lem :
    (delim n : ℕ) (text rest : List ℕ)
    → Lacks delim text
    → length text < n
    → read_text delim n (text ++ (delim ∷ rest)) ≡ got text rest
unfolding read_text
read_text_lem delim n text rest l h =
    bind_got (read_bytes_limited delim n) (λ byts. return (without_last byts))
      (text ++ (delim ∷ rest)) rest (text ++ (delim ∷ []))
      (ap (read_bytes_limited delim n) (sym (append_assoc text (delim ∷ []) rest))
        ∙ read_bytes_limited-Reads delim n text l h rest)
      (ap (λ t. got t rest) (without_last_snoc text delim))

got_case :
    {A B : Type 0} (o : Outcome A) (f : A → Reader B) {b : B} {t : List ℕ}
    → elim o as (λ _. Outcome B) [ fail e ↦ fail e | got a rest ↦ f a rest ] ≡ got b t
    → (a : A) × (rest : List ℕ) × (o ≡ got a rest) × (f a rest ≡ got b t)
got_case (fail e) f h = absurd (cc)
got_case (got a rest) f h = (a, rest, refl, h)

-- A bind that gives a value has read its first part.
pub got_bind :
    {A B : Type 0} (m : Reader A) (f : A → Reader B) (s : List ℕ) {b : B} {t : List ℕ}
    → (m >>= f) s ≡ got b t
    → (a : A) × (rest : List ℕ) × (m s ≡ got a rest) × (f a rest ≡ got b t)
got_bind m f s h = got_case (m s) f h

pub got-inj : {A : Type 0} {a b : A} {s t : List ℕ} → got a s ≡ got b t → a ≡ b
got-inj e = cc

got_or_prefix :
    (b : ℕ) (o : Outcome (List ℕ)) {byts t : List ℕ}
    → elim o as (λ _. Outcome (List ℕ)) [ fail e ↦ fail e | got byts' rest ↦ got (b ∷ byts') rest ]
      ≡ got byts t
    → (byts' : List ℕ) × (o ≡ got byts' t) × (b ∷ byts' ≡ byts)
got_or_prefix b (fail e) h = absurd (cc)
got_or_prefix b (got byts' rest) h = (byts', cc, cc)

pub length-read_bytes_limited :
    (delim n : ℕ) (s : List ℕ) {byts t : List ℕ}
    → read_bytes_limited delim n s ≡ got byts t
    → length (without_last byts) < n
unfolding read_bytes_limited
length-read_bytes_limited delim zero s h = absurd (cc)
length-read_bytes_limited delim (suc n) [] h = absurd (cc)
length-read_bytes_limited delim (suc n) (b ∷ s) {byts} {t} h =
    if_case (λ o. o ≡ got byts t → length (without_last byts) < suc n) (b == delim)
      (λ z e. subst (λ bs. length (without_last bs) < suc n) (got-inj e) (omega arith))
      (λ z e.
        let (byts', eq, same) = got_or_prefix b (read_bytes_limited delim n s) e in
        subst (λ bs. length (without_last bs) < suc n) same
          (shorter byts' n (length-read_bytes_limited delim n s eq)))
      h
  where
    shorter :
        (byts' : List ℕ) (m : ℕ)
        → length (without_last byts') < m
        → length (without_last (b ∷ byts')) < suc m
    shorter [] m l = omega arith
    shorter (c ∷ bs) m l = omega (arith, l)

pub length-read_text :
    (delim n : ℕ) (s : List ℕ) {text t : List ℕ}
    → read_text delim n s ≡ got text t
    → length text < n
unfolding read_text
length-read_text delim n s h =
    let (byts, rest, e, same) =
      got_bind (read_bytes_limited delim n) (λ byts. return (without_last byts)) s h in
    subst (λ text. length text < n) (got-inj same) (length-read_bytes_limited delim n s e)
