-- ===== src/Reorderer/Release.antt =====
-- The two loops of the branch that releases packets: the search for the first free slot, and the
-- move of the slots before it.
use mathlib.Core.List.{map}
use gortsplib.Common.{
  ℕ, zero, suc, ◌+◌, ◌≤◌, ◌<◌, ◌≡◌, refl, sym, ap, ◌∙◌, inl, inr, Option, none, some, Option-cases,
  List, [], ◌∷◌, ◌++◌, append_assoc, append-nil, length, set, length-set, get_or-set_ne, arith,
  ℕ_discrete, none-ne-some,
}
use gortsplib.Rtp.{Packet}
use gortsplib.Reorderer.{Buffer, slot, free_loop, release_loop}
use gortsplib.Reorderer.Window.{
  cell, slot-ne, pending, pending-some, pending-set, Cleared, Cleared-set,
}

-- The window's slots from `n` on are in use up to `m`, which is free.
pub record IsFree (pos n : ℕ) (buf : Buffer) (m : ℕ) : Type 0 where
  pub lo : n ≤ m
  pub hi : m ≤ 64
  pub free : cell buf pos m ≡ none
  pub used : (i : ℕ) → n ≤ i → i < m → (p : Packet) × (cell buf pos i ≡ some p)

free_none :
    (k pos n : ℕ) (buf : Buffer) → cell buf pos n ≡ none → free_loop (suc k) pos n buf ≡ some n
unfolding free_loop
free_none k pos n buf e = rw (e, free_loop)

free_some :
    (k pos n : ℕ) (buf : Buffer) {p : Packet}
    → n ≤ 64
    → cell buf pos n ≡ some p
    → free_loop (suc k) pos n buf ≡ free_loop k pos (n + 1) buf
unfolding free_loop
free_some k pos n buf h e = rw (e, free_loop) (ap (λ m. free_loop k pos m buf) (omega arith))

IsFree-step :
    (pos n m : ℕ) (buf : Buffer) (p : Packet)
    → cell buf pos n ≡ some p
    → IsFree pos (n + 1) buf m
    → IsFree pos n buf m
IsFree-step pos n m buf p e f = record {
  lo = omega arith;
  hi = f.hi;
  free = f.free;
  used =
      λ i hi hm. elim (ℕ_discrete i n) [ yes q ↦ (p, rw q e) | no ne ↦ f.used i (omega arith) hm ];
}

-- The slot before the window's first comes last, so if it is free the search ends within its rounds.
pub free_loop-IsFree :
    (k pos n : ℕ) (buf : Buffer)
    → pos < 64
    → n ≤ 64
    → n + k ≡ 65
    → cell buf pos 64 ≡ none
    → (m : ℕ) × (free_loop k pos n buf ≡ some m) × IsFree pos n buf m
free_loop-IsFree zero pos n buf hp hn hk h = absurd (omega arith)
free_loop-IsFree (suc k) pos n buf hp hn hk h = elim (Option-cases (cell buf pos n)) [
  | inl e ↦ (
    n,
    free_none k pos n buf e,
    record { lo = omega arith; hi = hn; free = e; used = λ i hi hm. absurd (omega arith) },
  )
  | inr (p, e) ↦ elim (ℕ_discrete n 64) [
    | yes q ↦ absurd (none-ne-some (sym h ∙ sym (ap (cell buf pos) q) ∙ e))
    | no ne ↦
        let (m, eq, f) = free_loop-IsFree k pos (n + 1) buf hp (omega arith) (omega arith) h in
        (m, free_some k pos n buf hn e ∙ eq, IsFree-step pos n m buf p e f)
  ]
]

-- What the loop that releases `k` slots from slot `i` on returns and leaves.
pub record Released (k pos i : ℕ) (buf : Buffer) (ret : List (Option Packet)) : Type 0 where
  pub out : (release_loop k (slot pos i) buf ret).0 ≡ ret ++ map some (pending k pos i buf)
  pub size : length (release_loop k (slot pos i) buf ret).1 ≡ 64
  pub cleared : Cleared pos (i + k) (release_loop k (slot pos i) buf ret).1
  pub kept :
      (j : ℕ)
      → i + k ≤ j
      → j < 64
      → cell (release_loop k (slot pos i) buf ret).1 pos j ≡ cell buf pos j
  pub position : (release_loop k (slot pos i) buf ret).2 ≡ slot pos (i + k)

release_step :
    (k pos i : ℕ) (buf : Buffer) (ret : List (Option Packet)) {p : Packet}
    → pos < 64
    → i < 64
    → cell buf pos i ≡ some p
    → release_loop (suc k) (slot pos i) buf ret
      ≡ release_loop k (slot pos (i + 1)) (set buf (slot pos i) none) (ret ++ (some p ∷ []))
unfolding release_loop
release_step k pos i buf ret {p} hp hi e =
    rw (e, release_loop)
      (ap (λ q. release_loop k q (set buf (slot pos i) none) (ret ++ (some p ∷ []))) (omega arith))

pub release_loop-Released :
    (k pos i : ℕ) (buf : Buffer) (ret : List (Option Packet))
    → length buf ≡ 64
    → pos < 64
    → i + k ≤ 64
    → Cleared pos i buf
    → ((j : ℕ) → i ≤ j → j < i + k → (p : Packet) × (cell buf pos j ≡ some p))
    → Released k pos i buf ret
release_loop-Released zero pos i buf ret hl hp hk h u = record {
  out = unfold release_loop pending in sym (append-nil ret);
  size = unfold release_loop in hl;
  cleared = λ j hj. unfold release_loop in h j (omega arith);
  kept = λ j hj hm. unfold release_loop in refl;
  position = unfold release_loop in omega arith;
}
release_loop-Released (suc k) pos i buf ret hl hp hk h u =
    let (p, e) = u i (omega arith) (omega arith) in
    let step = release_step k pos i buf ret hp (omega arith) e in
    let ih =
      release_loop-Released k pos (i + 1) (set buf (slot pos i) none) (ret ++ (some p ∷ []))
        (length-set buf (slot pos i) none ∙ hl) hp (omega arith)
        (Cleared-set pos i buf hl hp (omega arith) h)
        (λ j hj hm.
          let (q, f) = u j (omega arith) (omega arith) in
          (
            q,
            get_or-set_ne buf (slot pos i) (slot pos j) none none
                  (slot-ne pos i j hp (omega arith) (omega arith) (omega arith))
                ∙ f,
          )) in
    record {
      out =
          rw (step, pending-some k pos i buf e)
            (ih.out
              ∙ rw (pending-set k pos (i + 1) i buf none hp (omega arith) (omega arith))
                  (append_assoc ret (some p ∷ []) (map some (pending k pos (i + 1) buf))));
      size = rw step ih.size;
      cleared = λ j hj. rw step (ih.cleared j (omega arith));
      kept = λ j hj hm. rw step (
          ih.kept j (omega arith) hm
          ∙ get_or-set_ne buf (slot pos i) (slot pos j) none none
              (slot-ne pos i j hp (omega arith) hm (omega arith)));
      position = rw step (ih.position ∙ ap (slot pos) (omega arith));
    }
