-- ===== src/Reorderer/Order.antt =====
-- The invariant of the reorderer, and the sequence numbers of the packets in its window.
use gortsplib.Common.{
  ℕ, zero, suc, ◌+◌, ◌≤◌, ◌<◌, ◌≡◌, refl, ap, subst, inl, inr, false, some, Option-cases, List, [],
  ◌∷◌, ◌++◌, length, arith,
}
use gortsplib.Common.Words.{add16, sub16, IsU16}
use gortsplib.Rtp.{Packet}
use gortsplib.Reorderer.{Buffer, Reorderer}
use gortsplib.Reorderer.Window.{cell, pending, pending-none, pending-some, Cleared}

-- The packets of the window carry the sequence numbers of their slots, and the slot of the expected
-- packet is free.
abbrev pub Numbered : ℕ → ℕ → Buffer → Type 0
Numbered e pos buf =
    (i : ℕ) (p : Packet)
    → i < 64
    → cell buf pos i ≡ some p
    → (p.sequence_number ≡ add16 e i) × (0 < i)

pub record IsValid (r : Reorderer) : Type 0 where
  pub size : length r.buffer ≡ 64
  pub position : r.abs_pos < 64
  pub expected : IsU16 r.expected_seq_num
  pub negatives : r.negative_count ≤ 64
  pub numbered : Numbered r.expected_seq_num r.abs_pos r.buffer
  pub fresh : r.initialized ≡ false → Cleared r.abs_pos 64 r.buffer

-- The distance of a packet above the expected sequence number, modulo 2 ^ 16.
abbrev pub offset : ℕ → Packet → ℕ
offset e p = sub16 p.sequence_number e

-- The packets' distances above `e` rise strictly, from `lo` on and below `hi`.
abbrev pub Ascends : ℕ → ℕ → ℕ → List Packet → Type 0
Ascends e lo hi [] = lo ≤ hi
Ascends e lo hi (p ∷ ps) = (lo ≤ offset e p) × Ascends e (offset e p + 1) hi ps

pub Ascends-lower :
    (e lo lo' hi : ℕ) (ps : List Packet) → lo' ≤ lo → Ascends e lo hi ps → Ascends e lo' hi ps
Ascends-lower e lo lo' hi [] h a = omega arith
Ascends-lower e lo lo' hi (p ∷ ps) h a = (omega arith, a.1)

pub Ascends-snoc :
    (e lo hi top : ℕ) (ps : List Packet) (p : Packet)
    → Ascends e lo hi ps
    → hi ≤ offset e p
    → offset e p < top
    → Ascends e lo top (ps ++ (p ∷ []))
Ascends-snoc e lo hi top [] p a h t = omega arith
Ascends-snoc e lo hi top (q ∷ ps) p a h t =
    (a.0, Ascends-snoc e (offset e q + 1) hi top ps p a.1 h t)

-- Distinct values fit in the range that they ascend through.
pub Ascends-length : (e lo hi : ℕ) (ps : List Packet) → Ascends e lo hi ps → lo + length ps ≤ hi
Ascends-length e lo hi [] a = omega arith
Ascends-length e lo hi (p ∷ ps) a = omega (arith, Ascends-length e (offset e p + 1) hi ps a.1)

pub pending-Ascends :
    (k pos i : ℕ) (buf : Buffer) {e : ℕ}
    → IsU16 e
    → i + k ≤ 64
    → Numbered e pos buf
    → Ascends e i (i + k) (pending k pos i buf)
pending-Ascends zero pos i buf he hk h = unfold pending in omega arith
pending-Ascends (suc k) pos i buf {e} he hk h = elim (Option-cases (cell buf pos i)) [
  | inl q ↦ rw (pending-none k pos i buf q) (
      Ascends-lower e (i + 1) i (i + suc k) (pending k pos (i + 1) buf) (omega arith)
        (widen (pending-Ascends k pos (i + 1) buf he (omega arith) h)))
  | inr (p, q) ↦
      let number = h i p (omega arith) q in
      let at : offset e p ≡ i = omega arith in
      rw (pending-some k pos i buf q)
        (omega arith, rw at (widen (pending-Ascends k pos (i + 1) buf he (omega arith) h)))
]
  where
    widen :
        Ascends e (i + 1) (i + 1 + k) (pending k pos (i + 1) buf)
        → Ascends e (i + 1) (i + suc k) (pending k pos (i + 1) buf)
    widen a = subst (λ n. Ascends e (i + 1) n (pending k pos (i + 1) buf)) (omega arith) a

-- Slots that are all in use hold as many packets.
pub length-pending_used :
    (k pos i : ℕ) (buf : Buffer)
    → ((j : ℕ) → i ≤ j → j < i + k → (p : Packet) × (cell buf pos j ≡ some p))
    → length (pending k pos i buf) ≡ k
length-pending_used zero pos i buf u = unfold pending in refl
length-pending_used (suc k) pos i buf u =
    let (p, e) = u i (omega arith) (omega arith) in
    rw (pending-some k pos i buf e)
      (ap suc (length-pending_used k pos (i + 1) buf (λ j hj hm. u j (omega arith) (omega arith))))
