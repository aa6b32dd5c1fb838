-- ===== src/Message/Writer.antt =====
-- A buffer that a message is written to, from its start; `copy` stops at its end, and a byte that is
-- set behind its end panics: none.
use gortsplib.Common.{
  ℕ, ◌-◌, ◌≤◌, ◌≡◌, refl, ap, ap₂, ◌∙◌, ◌==◌, if◌then◌else◌, Option, none, some, List, [], ◌∷◌,
  ◌++◌, append_assoc, append-nil, length, take, take-ge, replicate, length-append, arith,
}

pub record Buffer : Type 0 where
  pub written : List ℕ
  pub room : ℕ

abbrev pub Writer : Type 0
Writer = Buffer → Option Buffer

-- `copy(buf[pos:], bytes)`, and `pos` moves by what it copied
unfoldable pub put_text : List ℕ → Writer
put_text bytes b =
    some (record { written = b.written ++ take b.room bytes; room = b.room - length bytes })

-- `buf[pos] = byt; pos++`
unfoldable pub put_byte : ℕ → Writer
put_byte byt b =
    if b.room == 0
    then none
    else some (record { written = b.written ++ (byt ∷ []); room = b.room - 1 })

infixr 20 ◌then_write◌
abbrev pub ◌then_write◌ : Writer → Writer → Writer
◌then_write◌ f g b = elim (f b) [ none ↦ none | some b' ↦ g b' ]

-- The whole of a new buffer of `size` bytes after the writer.
unfoldable pub fill : ℕ → Writer → Option (List ℕ)
fill size f = elim (f (record { written = []; room = size })) [
  | none ↦ none
  | some b ↦ some (b.written ++ replicate b.room 0)
]

-- With room for them, the writer writes exactly these bytes.
abbrev pub Writes : Writer → List ℕ → Type 0
Writes f bytes =
    (b : Buffer)
    → length bytes ≤ b.room
    → f b ≡ some (record { written = b.written ++ bytes; room = b.room - length bytes })

pub put_text-Writes : (bytes : List ℕ) → Writes (put_text bytes) bytes
unfolding put_text
put_text-Writes bytes b h = rw (take-ge b.room bytes h) refl

pub put_byte-Writes : (byt : ℕ) → Writes (put_byte byt) (byt ∷ [])
unfolding put_byte
put_byte-Writes byt b h = ground arith

pub Writes-then :
    (f g : Writer) (xs ys : List ℕ) → Writes f xs → Writes g ys → Writes (f then_write g) (xs ++ ys)
Writes-then f g xs ys h k b room =
    let both = length-append xs ys in
    let middle : Buffer = record { written = b.written ++ xs; room = b.room - length xs } in
    rw (h b (omega (arith, both, room)), ◌then_write◌)
      (k middle (omega (arith, both, room))
        ∙ ap₂ (λ w r. some (record { written = w; room = r })) (append_assoc b.written xs ys)
            (omega (arith, both, room)))

pub fill-Writes :
    (f : Writer) (bytes : List ℕ) → Writes f bytes → fill (length bytes) f ≡ some bytes
unfolding fill
fill-Writes f bytes h =
    let none_left : length bytes - length bytes ≡ 0 = omega arith in
    rw (h (record { written = []; room = length bytes }) (omega arith), fill)
      (rw none_left (ap some (append-nil bytes)))
