-- ===== src/Reorderer/Window.antt =====
-- The buffer of the reorderer read from the current position: slot `i` of the window stands for the
-- sequence number that lies `i` above the expected one.
use mathlib.Core.List.{map}
use gortsplib.Common.{
  ℕ, zero, suc, ◌+◌, ◌≤◌, ◌<◌, ◌≡◌, refl, sym, ◌∙◌, ◌≢◌, inl, inr, Option, none, some, Option-cases,
  List, [], ◌∷◌, ◌++◌, append_assoc, append-nil, length, get_or, set, length-set, get_or-set_self,
  get_or-set_ne, arith,
}
use native.Mathlib.Decide.{ℕ_discrete}
use gortsplib.Rtp.{Packet}
use gortsplib.Reorderer.{Buffer, slot, clear_loop, count_loop, drain_loop}

-- Slot `i` of the window.
abbrev pub cell : Buffer → ℕ → ℕ → Option Packet
cell buf pos i = get_or buf (slot pos i) none

pub slot-ne : (pos i j : ℕ) → pos < 64 → i < 64 → j < 64 → i ≢ j → slot pos i ≢ slot pos j
slot-ne pos i j hp hi hj h = omega arith

-- The packets of `k` slots of the window from slot `i` on, in order.
unfoldable pub pending : ℕ → ℕ → ℕ → Buffer → List Packet
pending zero pos i buf = []
pending (suc k) pos i buf =
    let rest = pending k pos (i + 1) buf in
    elim (get_or buf (slot pos i) none) [ none ↦ rest | some p ↦ p ∷ rest ]

pub pending-none :
    (k pos i : ℕ) (buf : Buffer)
    → cell buf pos i ≡ none
    → pending (suc k) pos i buf ≡ pending k pos (i + 1) buf
unfolding pending
pending-none k pos i buf e = rw (e, pending)

pub pending-some :
    (k pos i : ℕ) (buf : Buffer) {p : Packet}
    → cell buf pos i ≡ some p
    → pending (suc k) pos i buf ≡ p ∷ pending k pos (i + 1) buf
unfolding pending
pending-some k pos i buf e = rw (e, pending)

-- A write before slot `i` does not show from slot `i` on.
pub pending-set :
    (k pos i j : ℕ) (buf : Buffer) (v : Option Packet)
    → pos < 64
    → j < i
    → i + k ≤ 64
    → pending k pos i (set buf (slot pos j) v) ≡ pending k pos i buf
unfolding pending
pending-set zero pos i j buf v hp hj hk = refl
pending-set (suc k) pos i j buf v hp hj hk = ground (
  arith,
  get_or-set_ne buf (slot pos j) (slot pos i) v none
      (slot-ne pos j i hp (omega arith) (omega arith) (omega arith)),
  pending-set k pos (i + 1) j buf v hp (omega arith) (omega arith),
)

-- The slots of the window before `n` are nil.
abbrev pub Cleared : ℕ → ℕ → Buffer → Type 0
Cleared pos n buf = (j : ℕ) → j < n → cell buf pos j ≡ none

pub Cleared-set :
    (pos i : ℕ) (buf : Buffer)
    → length buf ≡ 64
    → pos < 64
    → i < 64
    → Cleared pos i buf
    → Cleared pos (i + 1) (set buf (slot pos i) none)
Cleared-set pos i buf hl hp hi h j hj = elim (ℕ_discrete i j) [
  | yes e ↦ rw (← e) (get_or-set_self buf (slot pos i) none none (omega arith))
  | no ne ↦
      get_or-set_ne buf (slot pos i) (slot pos j) none none (slot-ne pos i j hp hi (omega arith) ne)
      ∙ h j (omega arith)
]

Cleared-suc :
    (pos i : ℕ) (buf : Buffer) → Cleared pos i buf → cell buf pos i ≡ none → Cleared pos (i + 1) buf
Cleared-suc pos i buf h e j hj = elim (ℕ_discrete i j) [
  | yes q ↦ rw (← q) e
  | no ne ↦ h j (omega arith)
]

pub length-clear_loop : (k pos i : ℕ) (buf : Buffer) → length (clear_loop k pos i buf) ≡ length buf
unfolding clear_loop
length-clear_loop zero pos i buf = refl
length-clear_loop (suc k) pos i buf =
    length-clear_loop k pos (i + 1) (set buf (slot pos i) none) ∙ length-set buf (slot pos i) none

pub clear_loop-Cleared :
    (k pos i : ℕ) (buf : Buffer)
    → length buf ≡ 64
    → pos < 64
    → i + k ≤ 64
    → Cleared pos i buf
    → Cleared pos (i + k) (clear_loop k pos i buf)
unfolding clear_loop
clear_loop-Cleared zero pos i buf hl hp hk h j hj = h j (omega arith)
clear_loop-Cleared (suc k) pos i buf hl hp hk h j hj =
    clear_loop-Cleared k pos (i + 1) (set buf (slot pos i) none)
      (length-set buf (slot pos i) none ∙ hl) hp (omega arith)
      (Cleared-set pos i buf hl hp (omega arith) h) j (omega arith)

-- The counting loop counts the packets of the window.
pub count_loop-pending :
    (k pos i : ℕ) (buf : Buffer) (n : ℕ)
    → count_loop k pos i buf n ≡ n + length (pending k pos i buf)
unfolding count_loop pending
count_loop-pending zero pos i buf n = omega arith
count_loop-pending (suc k) pos i buf n =
    ground
      (arith, count_loop-pending k pos (i + 1) buf n, count_loop-pending k pos (i + 1) buf (n + 1))

-- What the draining loop returns and leaves.
pub record Drained (k pos i : ℕ) (buf : Buffer) (ret : List (Option Packet)) : Type 0 where
  pub out : (drain_loop k pos i buf ret).0 ≡ ret ++ map some (pending k pos i buf)
  pub size : length (drain_loop k pos i buf ret).1 ≡ 64
  pub cleared : Cleared pos (i + k) (drain_loop k pos i buf ret).1

drain_none :
    (k pos i : ℕ) (buf : Buffer) (ret : List (Option Packet))
    → cell buf pos i ≡ none
    → drain_loop (suc k) pos i buf ret ≡ drain_loop k pos (i + 1) buf ret
unfolding drain_loop
drain_none k pos i buf ret e = rw (e, drain_loop)

drain_some :
    (k pos i : ℕ) (buf : Buffer) (ret : List (Option Packet)) {p : Packet}
    → cell buf pos i ≡ some p
    → drain_loop (suc k) pos i buf ret
      ≡ drain_loop k pos (i + 1) (set buf (slot pos i) none) (ret ++ (some p ∷ []))
unfolding drain_loop
drain_some k pos i buf ret e = rw (e, drain_loop)

pub drain_loop-Drained :
    (k pos i : ℕ) (buf : Buffer) (ret : List (Option Packet))
    → length buf ≡ 64
    → pos < 64
    → i + k ≤ 64
    → Cleared pos i buf
    → Drained k pos i buf ret
drain_loop-Drained zero pos i buf ret hl hp hk h = record {
  out = unfold drain_loop pending in sym (append-nil ret);
  size = unfold drain_loop in hl;
  cleared = λ j hj. unfold drain_loop in h j (omega arith);
}
drain_loop-Drained (suc k) pos i buf ret hl hp hk h = elim (Option-cases (cell buf pos i)) [
  | inl e ↦
      let ih =
        drain_loop-Drained k pos (i + 1) buf ret hl hp (omega arith) (Cleared-suc pos i buf h e) in
      record {
        out = rw (drain_none k pos i buf ret e, pending-none k pos i buf e) ih.out;
        size = rw (drain_none k pos i buf ret e) ih.size;
        cleared = λ j hj. rw (drain_none k pos i buf ret e) (ih.cleared j (omega arith));
      }
  | inr (p, e) ↦
      let ih =
        drain_loop-Drained k pos (i + 1) (set buf (slot pos i) none) (ret ++ (some p ∷ []))
          (length-set buf (slot pos i) none ∙ hl) hp (omega arith)
          (Cleared-set pos i buf hl hp (omega arith) h) in
      record {
        out =
            rw (drain_some k pos i buf ret e, pending-some k pos i buf e)
              (ih.out
                ∙ rw (pending-set k pos (i + 1) i buf none hp (omega arith) (omega arith))
                    (append_assoc ret (some p ∷ []) (map some (pending k pos (i + 1) buf))));
        size = rw (drain_some k pos i buf ret e) ih.size;
        cleared = λ j hj. rw (drain_some k pos i buf ret e) (ih.cleared j (omega arith));
      }
]
