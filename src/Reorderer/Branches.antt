-- ===== src/Reorderer/Branches.antt =====
-- What each branch of `Process` does to a valid reorderer.
use mathlib.Core.List.{map, map-append}
use gortsplib.Common.{
  ℕ, ◌+◌, ◌≤◌, ◌<◌, ◌≡◌, refl, sym, ap, ◌∙◌, ◌⊎◌, inl, inr, true, none, some, Option-cases, List,
  [], ◌∷◌, ◌++◌, length, set, length-set, get_or-set_self, get_or-set_ne, length-append, arith,
  ℕ_discrete, none-ne-some, true-ne-false,
}
use gortsplib.Common.Words.{add16, sub16, IsU16}
use gortsplib.Rtp.{Packet}
use gortsplib.Reorderer.{Buffer, slot, Reorderer, Output, process_overflow, process_ahead, nothing}
use gortsplib.Reorderer.Window.{
  cell, slot-ne, pending, Cleared, count_loop-pending, drain_loop-Drained,
}
use gortsplib.Reorderer.Order.{
  Numbered, IsValid, Ascends, Ascends-snoc, Ascends-length, pending-Ascends,
}

-- A cleared window is numbered from anywhere.
pub Cleared-Numbered : (e pos : ℕ) (buf : Buffer) → Cleared pos 64 buf → Numbered e pos buf
Cleared-Numbered e pos buf h i p hi q = absurd (none-ne-some (sym (h i hi) ∙ q))

-- The packets returned go on from the expected sequence number: none is nil, they rise strictly
-- between the old expected number and the new one, and with the losses they fill that range.
pub record Advances (r : Reorderer) (out : Output) (r' : Reorderer) : Type 0 where
  pub packets : List Packet
  pub delivered : out.packets ≡ map some packets
  pub ascends : Ascends r.expected_seq_num 0 (sub16 r'.expected_seq_num r.expected_seq_num) packets
  pub accounts : length packets + out.lost ≡ sub16 r'.expected_seq_num r.expected_seq_num
  pub near : sub16 r'.expected_seq_num r.expected_seq_num ≤ 32768

-- What one call leaves.
pub record Outcome (r : Reorderer) (out : Output) (r' : Reorderer) : Type 0 where
  pub valid : IsValid r'
  pub started : r'.initialized ≡ true
  pub advances : Advances r out r'
  pub calm : (out.packets ≡ []) ⊎ (r'.negative_count ≡ 0)

-- A call that returns no packet and keeps the expected sequence number.
pub Advances-quiet :
    (r : Reorderer) (out : Output) (r' : Reorderer)
    → IsU16 r.expected_seq_num
    → out ≡ nothing
    → r'.expected_seq_num ≡ r.expected_seq_num
    → Advances r out r'
Advances-quiet r out r' he p e = record {
  packets = [];
  delivered = ap (λ o. o.packets) p;
  ascends = omega arith;
  accounts = rw p (omega arith);
  near = omega arith;
}

pub Numbered-set :
    (e pos i : ℕ) (buf : Buffer) (p : Packet)
    → length buf ≡ 64
    → pos < 64
    → i < 64
    → 0 < i
    → p.sequence_number ≡ add16 e i
    → Numbered e pos buf
    → Numbered e pos (set buf (slot pos i) (some p))
Numbered-set e pos i buf p hl hp hi h0 hs h j q hj eq = elim (ℕ_discrete i j) [
  | yes same ↦
      let found : some p ≡ some q =
        sym (get_or-set_self buf (slot pos i) (some p) none (omega arith))
        ∙ ap (cell (set buf (slot pos i) (some p)) pos) same
        ∙ eq in
      let pq : p ≡ q = cc in rw (← pq) (rw (← same) hs, omega arith)
  | no ne ↦ h j q hj (
      sym (get_or-set_ne buf (slot pos i) (slot pos j) (some p) none (slot-ne pos i j hp hi hj ne))
      ∙ eq)
]

module _ (r : Reorderer) (pkt : Packet) (v : IsValid r) (on : r.initialized ≡ true)
    (hs : IsU16 pkt.sequence_number) where
  abbrev rel : ℕ
  rel = sub16 pkt.sequence_number r.expected_seq_num

  pub process_overflow-Outcome :
      rel < 32768
      → 64 ≤ rel
      → Outcome r (process_overflow r pkt rel).0 (process_overflow r pkt rel).1
  unfolding process_overflow
  process_overflow-Outcome hn hr =
      let d =
        drain_loop-Drained 64 r.abs_pos 0 r.buffer [] v.size v.position (omega arith)
          (λ j hj. absurd (omega arith)) in
      let window = pending 64 r.abs_pos 0 r.buffer in
      let up = pending-Ascends 64 r.abs_pos 0 r.buffer v.expected (omega arith) v.numbered in
      let fits = Ascends-length r.expected_seq_num 0 (0 + 64) window up in
      let counted = count_loop-pending 64 r.abs_pos 0 r.buffer 1 in
      let there : sub16 (add16 pkt.sequence_number 1) r.expected_seq_num ≡ rel + 1 =
        omega (arith, v.expected) in
      record {
        valid = record {
          size = d.size;
          position = v.position;
          expected = omega arith;
          negatives = omega arith;
          numbered = Cleared-Numbered _ _ _ d.cleared;
          fresh = λ _. d.cleared;
        };
        started = on;
        advances = record {
          packets = window ++ (pkt ∷ []);
          delivered = rw d.out (sym (map-append some window (pkt ∷ [])));
          ascends = rw there (
              Ascends-snoc r.expected_seq_num 0 (0 + 64) (rel + 1) window pkt up (omega arith)
                (omega arith));
          accounts = rw (there, length-append, counted) (omega arith);
          near = rw there (omega arith);
        };
        calm = inr refl;
      }

  pub process_ahead-Outcome :
      rel < 64 → 0 < rel → Outcome r (process_ahead r pkt rel).0 (process_ahead r pkt rel).1
  process_ahead-Outcome hr h0 = elim (Option-cases (cell r.buffer r.abs_pos rel)) [
    | inr (q, e) ↦ rw (ahead_used e) (record {
      valid = record {
        size = v.size;
        position = v.position;
        expected = v.expected;
        negatives = omega arith;
        numbered = v.numbered;
        fresh = v.fresh;
      };
      started = on;
      advances = Advances-quiet r _ _ v.expected refl refl;
      calm = inl refl;
    })
    | inl e ↦ rw (ahead_free e) (record {
      valid = record {
        size = length-set r.buffer (slot r.abs_pos rel) (some pkt) ∙ v.size;
        position = v.position;
        expected = v.expected;
        negatives = omega arith;
        numbered =
            Numbered-set r.expected_seq_num r.abs_pos rel r.buffer pkt v.size v.position hr h0
              (omega (arith, v.expected)) v.numbered;
        fresh = λ f. absurd (true-ne-false (sym on ∙ f));
      };
      started = on;
      advances = Advances-quiet r _ _ v.expected refl refl;
      calm = inl refl;
    })
  ]
    where
      ahead_used :
          {q : Packet}
          → cell r.buffer r.abs_pos rel ≡ some q
          → process_ahead r pkt rel ≡ (nothing, record r { negative_count = 0 })
      ahead_used e = unfold process_ahead in ground arith

      ahead_free :
          cell r.buffer r.abs_pos rel ≡ none
          → process_ahead r pkt rel ≡ (
            nothing,
            record r { negative_count = 0; buffer = set r.buffer (slot r.abs_pos rel) (some pkt) },
          )
      ahead_free e = unfold process_ahead in ground arith
