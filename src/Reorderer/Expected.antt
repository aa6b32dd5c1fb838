-- ===== src/Reorderer/Expected.antt =====
-- The branch of `Process` that releases the expected packet with those behind it.
use gortsplib.Common.{
  ℕ, zero, suc, ◌+◌, ◌-◌, ◌<◌, ◌≡◌, refl, sym, ap, ◌∙◌, subst, subst₂, subst₃, inl, inr, true,
  Option, none, some, Option-cases, List, [], ◌∷◌, length, get_or, arith, dec_lt, none-ne-some,
  true-ne-false,
}
use gortsplib.Common.Words.{add16, sub16}
use gortsplib.Rtp.{Packet}
use gortsplib.Reorderer.{Buffer, slot, Reorderer, Output, free_loop, release_loop, process_expected}
use gortsplib.Reorderer.Window.{cell, pending, Cleared}
use gortsplib.Reorderer.Release.{IsFree, free_loop-IsFree, Released, release_loop-Released}
use gortsplib.Reorderer.Branches.{Outcome}
use gortsplib.Reorderer.Order.{
  Numbered, IsValid, offset, Ascends, pending-Ascends, length-pending_used,
}

module _ (r : Reorderer) (pkt : Packet) (v : IsValid r) (on : r.initialized ≡ true) where
  first_free : cell r.buffer r.abs_pos 0 ≡ none
  first_free = elim (Option-cases (cell r.buffer r.abs_pos 0)) [
    | inl e ↦ e
    | inr (p, e) ↦ absurd (omega (arith, v.numbered 0 p (omega arith) e))
  ]

  last_free : cell r.buffer r.abs_pos 64 ≡ none
  last_free = ap (λ i. get_or r.buffer i none) (omega (arith, v.position)) ∙ first_free

  Cleared-one : Cleared r.abs_pos 1 r.buffer
  Cleared-one j hj = ap (cell r.buffer r.abs_pos) (omega arith) ∙ first_free

  -- After `n` slots were released the rest of the window keeps its numbers.
  Numbered-Released :
      (n : ℕ) (ret : List (Option Packet))
      → IsFree r.abs_pos 1 r.buffer n
      → Released (n - 1) r.abs_pos 1 r.buffer ret
      → Numbered
          (add16 r.expected_seq_num n)
          (slot r.abs_pos n)
          (release_loop (n - 1) (slot r.abs_pos 1) r.buffer ret).1
  Numbered-Released n ret f d i p hi e = elim (dec_lt (n + i) 64) [
    | yes inside ↦
        let same : cell buf' r.abs_pos (n + i) ≡ some p =
          ap (λ k. get_or buf' k none) (omega (arith, v.position, f.hi)) ∙ e in
        let old = sym (d.kept (n + i) (omega (arith, f.lo)) inside) ∙ same in
        let number = v.numbered (n + i) p inside old in (omega arith, positive i (omega arith) old)
    | no outside ↦ absurd (
        none-ne-some (
          sym (d.cleared (n + i - 64) (omega (arith, f.lo, f.hi)))
          ∙ ap (λ k. get_or buf' k none) (omega (arith, v.position, f.lo, f.hi))
          ∙ e))
  ]
    where
      buf' : Buffer
      buf' = (release_loop (n - 1) (slot r.abs_pos 1) r.buffer ret).1

      positive : (j : ℕ) → n + j < 64 → cell r.buffer r.abs_pos (n + j) ≡ some p → 0 < j
      positive zero hj old =
          absurd (none-ne-some (sym f.free ∙ ap (cell r.buffer r.abs_pos) (omega arith) ∙ old))
      positive (suc j) hj old = omega arith

  expected_step :
      {n : ℕ}
      → free_loop 64 r.abs_pos 1 r.buffer ≡ some n
      → process_expected r pkt ≡ (
          let (ret, buf, pos) = release_loop (n - 1) (slot r.abs_pos 1) r.buffer (some pkt ∷ []) in
          some (
            record { packets = ret; lost = 0 },
            record r {
              negative_count = 0;
              buffer = buf;
              abs_pos = pos;
              expected_seq_num = add16 pkt.sequence_number n;
            },
          ))
  unfolding process_expected
  expected_step e = rw (e, process_expected)

  released-Outcome :
      (n : ℕ) (buf : Buffer) (ret : List (Option Packet)) (pos : ℕ)
      → pkt.sequence_number ≡ r.expected_seq_num
      → IsFree r.abs_pos 1 r.buffer n
      → release_loop (n - 1) (slot r.abs_pos 1) r.buffer (some pkt ∷ []) ≡ (ret, buf, pos)
      → Outcome r
          (record { packets = ret; lost = 0 })
          (record r {
            negative_count = 0;
            buffer = buf;
            abs_pos = pos;
            expected_seq_num = add16 pkt.sequence_number n;
          })
  released-Outcome n buf ret pos hs f eq =
      let d =
        release_loop-Released (n - 1) r.abs_pos 1 r.buffer (some pkt ∷ []) v.size v.position
          (omega (arith, f.lo, f.hi)) Cleared-one (λ j hj hm. f.used j hj (omega (arith, f.lo))) in
      let behind = pending (n - 1) r.abs_pos 1 r.buffer in
      let up =
        pending-Ascends (n - 1) r.abs_pos 1 r.buffer v.expected (omega (arith, f.lo, f.hi))
          v.numbered in
      let many =
        length-pending_used (n - 1) r.abs_pos 1 r.buffer
          (λ j hj hm. f.used j hj (omega (arith, f.lo))) in
      let there : sub16 (add16 pkt.sequence_number n) r.expected_seq_num ≡ n =
        omega (arith, v.expected, f.hi) in
      let moved : pos ≡ slot r.abs_pos n =
        sym (ap (λ t. t.2) eq) ∙ d.position ∙ ap (slot r.abs_pos) (omega (arith, f.lo)) in
      let at : offset r.expected_seq_num pkt ≡ 0 = omega (arith, v.expected) in
      let left : (release_loop (n - 1) (slot r.abs_pos 1) r.buffer (some pkt ∷ [])).1 ≡ buf =
        ap (λ t. t.1) eq in
      record {
        valid = record {
          size = sym (ap length left) ∙ d.size;
          position = omega (arith, moved);
          expected = omega arith;
          negatives = omega arith;
          numbered =
              subst₃ Numbered (ap (λ k. add16 k n) (sym hs)) (sym moved) left
                (Numbered-Released n (some pkt ∷ []) f d);
          fresh = λ q. absurd (true-ne-false (sym on ∙ q));
        };
        started = on;
        advances = record {
          packets = pkt ∷ behind;
          delivered = sym (ap (λ t. t.0) eq) ∙ d.out;
          ascends =
              subst (λ k. Ascends r.expected_seq_num 0 k (pkt ∷ behind)) (sym there)
                (
                  omega arith,
                  subst₂ (λ a b. Ascends r.expected_seq_num (a + 1) b behind) (sym at)
                      (omega (arith, f.lo)) up,
                );
          accounts = omega (arith, there, many, f.lo);
          near = omega (arith, there, f.hi);
        };
        calm = inr refl;
      }

  pub process_expected-Outcome :
      pkt.sequence_number ≡ r.expected_seq_num
      → (out : Output) × (r' : Reorderer) × (process_expected r pkt ≡ some (out, r'))
        × Outcome r out r'
  process_expected-Outcome hs =
      let (n, e, f) =
        free_loop-IsFree 64 r.abs_pos 1 r.buffer v.position (omega arith) (omega arith) last_free in
      (_, _, expected_step e, released-Outcome n _ _ _ hs f refl)
