-- ===== src/Message/Header/RoundTrip.antt =====
-- A header that was written is read again.
use gortsplib.Common.{
  ℕ, zero, suc, ◌+◌, ◌≤◌, ◌<◌, ◌≡◌, refl, sym, ap, ap₂, ◌∙◌, ◌-◌, true, false, ◌==◌, List, [], ◌∷◌,
  ◌++◌, append-nil, append_assoc, length, All, All-append, arith,
}
use gortsplib.Message.Reader.{
  got, ◌>>=◌, ◌>>◌, return, read_byte, read_byte_equal, read_byte_equal-Reads,
  read_bytes_limited-Reads, read_text, read_text_lem, without_last_snoc, Reads, bind_got, Lacks,
}
use gortsplib.Message.Header.{
  Header, header_key_normalize, text_lt, add_value, skip_spaces, read_key, read_value, read_entries,
  unmarshal_header, line,
}
use gortsplib.Message.Header.Order.{IsOrdered, Before, Behind, add_value-Behind, add_value_last}
use gortsplib.Message.Header.Wire.{values_wire, entries_wire, header_wire, HasKeys}

-- A key as it can be read: not a line's end, within the limit, and in its normal form.
abbrev pub FitsKey : List ℕ → Type 0
FitsKey [] = ⊥
FitsKey (c ∷ s) =
    ((c == 13) ≡ false) × Lacks b':' s × (length s < 511) × (header_key_normalize (c ∷ s) ≡ c ∷ s)

abbrev StartsDark : List ℕ → Type 0
StartsDark [] = Unit
StartsDark (c ∷ s) = (c == b' ') ≡ false

-- A value as it can be read: within the limit, on one line, with no space in front.
abbrev pub FitsValue : List ℕ → Type 0
FitsValue val = Lacks 13 val × (length val < 2048) × StartsDark val

-- An entry has a value, and its key and its values can be read.
abbrev pub FitsEntry : List ℕ × List (List ℕ) → Type 0
FitsEntry (key, []) = ⊥
FitsEntry (key, val ∷ vals) = FitsKey key × FitsValue val × All FitsValue vals

abbrev pub count_values : Header → ℕ
count_values [] = 0
count_values ((key, vals) ∷ h) = length vals + count_values h

skip_one_space :
    (val rest : List ℕ)
    → StartsDark val
    → skip_spaces (b' ' ∷ (val ++ (13 ∷ rest))) ≡ got tt (val ++ (13 ∷ rest))
unfolding skip_spaces
skip_one_space [] rest d = refl
skip_one_space (c ∷ val) rest d = ground arith

read_value-Reads :
    (val : List ℕ) → FitsValue val → Reads read_value (b' ' ∷ (val ++ (13 ∷ 10 ∷ []))) val
unfolding read_value
read_value-Reads val (l, n, d) rest =
    bind_got skip_spaces (λ _. do v ← read_text 13 2048; read_byte_equal 10; return v)
      (b' ' ∷ ((val ++ (13 ∷ 10 ∷ [])) ++ rest)) (val ++ (13 ∷ 10 ∷ rest)) tt
      (ap (λ s. skip_spaces (b' ' ∷ s)) (append_assoc val (13 ∷ 10 ∷ []) rest)
        ∙ skip_one_space val (10 ∷ rest) d)
      (bind_got (read_text 13 2048) (λ v. do read_byte_equal 10; return v) (val ++ (13 ∷ 10 ∷ rest))
        (10 ∷ rest) val (read_text_lem 13 2048 val (10 ∷ rest) l n)
        (bind_got (read_byte_equal 10) (λ _. return val) (10 ∷ rest) rest tt
          (read_byte_equal-Reads 10 rest) refl))

read_key-Reads :
    (c : ℕ) (s : List ℕ) → FitsKey (c ∷ s) → Reads (read_key c) (s ++ (b':' ∷ [])) (c ∷ s)
unfolding read_key
read_key-Reads c s (_, l, n, norm) rest =
    rw (read_bytes_limited-Reads b':' 511 s l n rest, read_key)
      (ap (λ t. got (header_key_normalize (c ∷ t)) rest) (without_last_snoc s b':')
        ∙ ap (λ k. got k rest) norm)

-- One line is taken, and its value added.
read_entries-line :
    (left : ℕ) (h : Header) (key val rest : List ℕ)
    → FitsKey key
    → FitsValue val
    → read_entries (suc left) h (line key val ++ rest)
      ≡ read_entries left (add_value key val h) rest
unfolding read_entries read_byte
read_entries-line left h [] val rest k v = absurd k
read_entries-line left h (c ∷ s) val rest k v =
    let after = b' ' ∷ (val ++ (13 ∷ 10 ∷ [])) in
    rw (k.0) (
      ap (λ t. (do key ← read_key c; v ← read_value; read_entries left (add_value key v h)) t)
        (append_assoc s (b':' ∷ after) rest ∙ sym (append_assoc s (b':' ∷ []) (after ++ rest)))
      ∙ bind_got (read_key c) (λ key. do v ← read_value; read_entries left (add_value key v h))
          ((s ++ (b':' ∷ [])) ++ (after ++ rest)) (after ++ rest) (c ∷ s)
          (read_key-Reads c s k (after ++ rest))
          (bind_got read_value (λ v. read_entries left (add_value (c ∷ s) v h)) (after ++ rest) rest
            val (read_value-Reads val v rest) refl))

read_entries-values :
    (left : ℕ) (h : Header) (key : List ℕ) (old vals : List (List ℕ)) (rest : List ℕ)
    → FitsKey key
    → Behind key h
    → All FitsValue vals
    → read_entries (length vals + left) (h ++ ((key, old) ∷ [])) (values_wire key vals ++ rest)
      ≡ read_entries left (h ++ ((key, old ++ vals) ∷ [])) rest
read_entries-values left h key old [] rest k b v =
    ap₂ (λ n vs. read_entries n (h ++ ((key, vs) ∷ [])) rest) (omega arith) (sym (append-nil old))
read_entries-values left h key old (val ∷ vals) rest k b v =
    ap₂ (λ n t. read_entries n (h ++ ((key, old) ∷ [])) t) (omega arith)
      (append_assoc (line key val) (values_wire key vals) rest)
    ∙ read_entries-line (length vals + left) (h ++ ((key, old) ∷ [])) key val
        (values_wire key vals ++ rest) k v.0
    ∙ ap (λ m. read_entries (length vals + left) m (values_wire key vals ++ rest))
        (add_value_last key val old h b)
    ∙ read_entries-values left h key (old ++ (val ∷ [])) vals rest k b v.1
    ∙ ap (λ vs. read_entries left (h ++ ((key, vs) ∷ [])) rest) (append_assoc old (val ∷ []) vals)

read_entries-entry :
    (left : ℕ) (h : Header) (key : List ℕ) (vals : List (List ℕ)) (rest : List ℕ)
    → FitsEntry (key, vals)
    → Behind key h
    → read_entries (length vals + left) h (values_wire key vals ++ rest)
      ≡ read_entries left (h ++ ((key, vals) ∷ [])) rest
read_entries-entry left h key [] rest f b = absurd f
read_entries-entry left h key (val ∷ vals) rest (k, v, vs) b =
    ap₂ (λ n t. read_entries n h t) (omega arith)
      (append_assoc (line key val) (values_wire key vals) rest)
    ∙ read_entries-line (length vals + left) h key val (values_wire key vals ++ rest) k v
    ∙ ap (λ m. read_entries (length vals + left) m (values_wire key vals ++ rest))
        (add_value-Behind key val h b)
    ∙ read_entries-values left h key (val ∷ []) vals rest k b vs

-- All entries of the first header stand behind those of the second.
abbrev Precedes : Header → Header → Type 0
Precedes m h = All (λ e. Behind e.0 m) h

Precedes-snoc :
    (m : Header) (key : List ℕ) (vals : List (List ℕ)) (h : Header)
    → Precedes m h
    → Before key h
    → Precedes (m ++ ((key, vals) ∷ [])) h
Precedes-snoc m key vals [] p b = tt
Precedes-snoc m key vals (e ∷ h) p b = (
  All-append (λ d. text_lt d.0 e.0 ≡ true) m ((key, vals) ∷ []) p.0 (b.0, tt),
  Precedes-snoc m key vals h p.1 b.1,
)

read_entries-end :
    (left : ℕ) (h : Header) (rest : List ℕ) → read_entries left h (13 ∷ 10 ∷ rest) ≡ got h rest
unfolding read_entries read_byte read_byte_equal
read_entries-end zero h rest = refl
read_entries-end (suc left) h rest = refl

read_entries-Reads :
    (left : ℕ) (m h : Header) (rest : List ℕ)
    → All FitsEntry h
    → IsOrdered h
    → Precedes m h
    → read_entries (count_values h + left) m (header_wire h ++ rest) ≡ got (m ++ h) rest
read_entries-Reads left m [] rest f o p =
    read_entries-end (0 + left) m rest ∙ ap (λ l. got l rest) (sym (append-nil m))
read_entries-Reads left m ((key, vals) ∷ h) rest f o p =
    ap₂ (λ n t. read_entries n m t) (omega arith)
      (ap (λ t. t ++ rest) (append_assoc (values_wire key vals) (entries_wire h) (13 ∷ 10 ∷ []))
        ∙ append_assoc (values_wire key vals) (header_wire h) rest)
    ∙ read_entries-entry (count_values h + left) m key vals (header_wire h ++ rest) f.0 p.0
    ∙ read_entries-Reads left (m ++ ((key, vals) ∷ [])) h rest f.1 o.1
        (Precedes-snoc m key vals h p.1 o.0)
    ∙ ap (λ l. got l rest) (append_assoc m ((key, vals) ∷ []) h)

-- A header that can be sent and read: in order, each entry within the limits, and not too many.
pub record FitsHeader (h : Header) : Type 0 where
  pub entries : All FitsEntry h
  pub order : IsOrdered h
  pub count : count_values h ≤ 255

pub FitsHeader-HasKeys : (h : Header) → All FitsEntry h → HasKeys h
FitsHeader-HasKeys [] f = tt
FitsHeader-HasKeys (([], []) ∷ h) f = absurd f.0
FitsHeader-HasKeys (([], v ∷ vs) ∷ h) f = absurd f.0.0
FitsHeader-HasKeys ((c ∷ s, vals) ∷ h) f = (refl, FitsHeader-HasKeys h f.1)

none_before : (h : Header) → Precedes [] h
none_before [] = tt
none_before (e ∷ h) = (tt, none_before h)

pub unmarshal_header-Reads : (h : Header) → FitsHeader h → Reads unmarshal_header (header_wire h) h
unfolding unmarshal_header
unmarshal_header-Reads h f rest =
    let split : 255 ≡ count_values h + (255 - count_values h) = omega (arith, f.count) in
    ap (λ n. read_entries n [] (header_wire h ++ rest)) split
    ∙ read_entries-Reads (255 - count_values h) [] h rest f.entries f.order (none_before h)
