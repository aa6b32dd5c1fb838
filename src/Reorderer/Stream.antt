-- ===== src/Reorderer/Stream.antt =====
-- What the reorderer guarantees of a call, and of two calls.
use mathlib.Core.List.{map}
use gortsplib.Common.{
  ℕ, ◌+◌, ◌≤◌, ◌<◌, ◌≡◌, refl, sym, ap, ◌∙◌, subst, subst₂, ◌⊎◌, inl, inr, false, Bool-cases,
  some-inj, some, List, [], ◌∷◌, arith,
}
use gortsplib.Common.Words.{IsU16}
use gortsplib.Rtp.{Packet}
use gortsplib.Reorderer.{Reorderer, Output, nothing, only, process}
use gortsplib.Reorderer.Order.{IsValid, offset, Ascends, Ascends-length}
use gortsplib.Reorderer.Branches.{Advances, Outcome}
use gortsplib.Reorderer.Correct.{restarts, process_restart, process-Outcome, late_step}

-- What any call on a valid reorderer comes to.
record Returns (r : Reorderer) (pkt : Packet) : Type 0 where
  out : Output
  after : Reorderer
  returned : process r pkt ≡ some (out, after)
  valid : IsValid after
  packets : List Packet
  whole : out.packets ≡ map some packets

process-Returns :
    (r : Reorderer) (pkt : Packet) → IsValid r → IsU16 pkt.sequence_number → Returns r pkt
process-Returns r pkt v hs = elim (Bool-cases (restarts r pkt)) [
  | inl yes' ↦
      let (r', e, s) = process_restart r pkt v hs yes' in
      record {
        out = only pkt;
        after = r';
        returned = e;
        valid = s.valid;
        packets = pkt ∷ [];
        whole = refl;
      }
  | inr no' ↦
      let (out, r', e, o) = process-Outcome r pkt v hs no' in
      record {
        out = out;
        after = r';
        returned = e;
        valid = o.valid;
        packets = o.advances.packets;
        whole = o.advances.delivered;
      }
]

-- On a valid reorderer and a packet whose sequence number is a uint16, `Process` returns (its
-- unbounded loop ends), no element of the slice it returns is nil, and it leaves a valid reorderer.
pub process-IsValid :
    (r : Reorderer) (pkt : Packet)
    → IsValid r
    → IsU16 pkt.sequence_number
    → (out : Output) × (r' : Reorderer) × (packets : List Packet) × (process r pkt ≡ some (out, r'))
      × (out.packets ≡ map some packets)
      × IsValid r'
process-IsValid r pkt v hs =
    let t = process-Returns r pkt v hs in (t.out, t.after, t.packets, t.returned, t.whole, t.valid)

process-Outcome_at :
    (r : Reorderer) (pkt : Packet) (out : Output) (r' : Reorderer)
    → IsValid r
    → IsU16 pkt.sequence_number
    → restarts r pkt ≡ false
    → process r pkt ≡ some (out, r')
    → Outcome r out r'
process-Outcome_at r pkt out r' v hs h e =
    let (o, s, eq, good) = process-Outcome r pkt v hs h in
    let both : (o, s) ≡ (out, r') = some-inj (sym eq ∙ e) in
    subst₂ (Outcome r) (ap (λ t. t.0) both) (ap (λ t. t.1) both) good

-- When a packet does not restart a valid reorderer, the packets that its call returns rise strictly
-- in sequence number from the old expected number up to below the new one, modulo 2 ^ 16; with the
-- packets counted as lost they fill that range exactly; and the range is at most 2 ^ 15 numbers.
pub process-Advances :
    (r : Reorderer) (pkt : Packet) (out : Output) (r' : Reorderer)
    → IsValid r
    → IsU16 pkt.sequence_number
    → restarts r pkt ≡ false
    → process r pkt ≡ some (out, r')
    → Advances r out r'
process-Advances r pkt out r' v hs h e = (process-Outcome_at r pkt out r' v hs h e).advances

-- `a` is an element of the list.
abbrev pub Among : {A : Type 0} → A → List A → Type 0
Among a [] = ⊥
Among a (x ∷ xs) = (a ≡ x) ⊎ Among a xs

Among-map-some : (p : Packet) (ps : List Packet) → Among (some p) (map some ps) → Among p ps
Among-map-some p [] m = m
Among-map-some p (q ∷ ps) (inl e) = inl (some-inj e)
Among-map-some p (q ∷ ps) (inr m) = inr (Among-map-some p ps m)

-- A packet of an ascending list lies in the range of the list.
Ascends-Among :
    (p : Packet) (ps : List Packet) (e lo hi : ℕ)
    → Among p ps
    → Ascends e lo hi ps
    → (lo ≤ offset e p) × (offset e p < hi)
Ascends-Among p [] e lo hi m a = absurd m
Ascends-Among p (q ∷ ps) e lo hi (inl h) a =
    let same : offset e p ≡ offset e q = ap (offset e) h in
    omega (arith, a.0, Ascends-length e (offset e q + 1) hi ps a.1)
Ascends-Among p (q ∷ ps) e lo hi (inr m) a =
    omega (arith, a.0, Ascends-Among p ps e (offset e q + 1) hi m a.1)

-- After a call that returned the packet `p` without restarting the reorderer, a packet with the
-- sequence number of `p` is a duplicate: its call returns nothing, reports no loss, and leaves the
-- expected number and the buffer as they were.
pub process_duplicate :
    (r : Reorderer) (pkt p q : Packet) (out : Output) (r' : Reorderer)
    → IsValid r
    → IsU16 pkt.sequence_number
    → restarts r pkt ≡ false
    → process r pkt ≡ some (out, r')
    → Among (some p) out.packets
    → q.sequence_number ≡ p.sequence_number
    → IsU16 q.sequence_number
    → (r'' : Reorderer) × (process r' q ≡ some (nothing, r''))
      × (r''.expected_seq_num ≡ r'.expected_seq_num)
      × (r''.buffer ≡ r'.buffer)
process_duplicate r pkt p q out r' v hs h e m same hq =
    let o = process-Outcome_at r pkt out r' v hs h e in
    let range =
      Ascends-Among p o.advances.packets r.expected_seq_num 0 _
        (Among-map-some p o.advances.packets (subst (Among (some p)) o.advances.delivered m))
        o.advances.ascends in
    let calm : r'.negative_count ≡ 0 = elim o.calm [
      | inl none_out ↦ absurd (subst (Among (some p)) none_out m)
      | inr zero_count ↦ zero_count
    ] in
    (
      _,
      late_step r' q o.started (omega (arith, range, o.advances.near, o.valid.expected, v.expected))
          (omega (arith, calm)),
      refl,
      refl,
    )
