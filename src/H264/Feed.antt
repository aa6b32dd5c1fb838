-- ===== src/H264/Feed.antt =====
-- What a run of the decoder over the packets of some NALUs comes to, and how runs are joined.
use gortsplib.Common.{
  ℕ, ◌+◌, ◌%◌, ◌≤◌, ◌<◌, ◌≡◌, refl, sym, ap, ◌∙◌, subst, Bool, true, false, leb, if◌then◌else◌, inl,
  inr, none, some, some-inj, none-ne-some, Option-cases, List, [], ◌∷◌, ◌++◌, append_assoc, length,
  length-append, arith,
}
use gortsplib.Rtp.{Packet}
use gortsplib.H264.Types.{Nalu, total_size}
use gortsplib.H264.Decoder.{
  more_packets_needed, Result, ok, err, Codec, Decoder, contains_start_code, after_switch,
  decode_switch, decode_nalus, collect, decode, absorb, deliver,
}

pub total_size-append : (ns ms : List Nalu) → total_size (ns ++ ms) ≡ total_size ns + total_size ms
total_size-append [] ms = omega arith
total_size-append (n ∷ ns) ms = omega (arith, total_size-append ns ms)

-- A NALU as H264 has them: not empty, the forbidden bit 0, a type that is not one of the types of
-- RTP packets, and no Annex-B start code inside.
abbrev pub IsPlain : Nalu → Type 0
IsPlain [] = ⊥
IsPlain (h ∷ r) = (h < 128) × (h % 32 < 24) × (contains_start_code (h ∷ r) ≡ false)

-- The decoder holds the NALUs `fb` of the access unit, and is not in Annex-B mode.
pub record Holds (d : Decoder) (fb : List Nalu) : Type 0 where
  pub frame : d.frame_buffer ≡ fb
  pub count : d.frame_buffer_len ≡ length fb
  pub bytes : d.frame_buffer_size ≡ total_size fb
  pub plain : d.annexb_mode ≡ false

module _ (c : Codec) where
  abbrev pub Fits : List Nalu → Type 0
  Fits ns = (length ns ≤ c.max_nalus_per_access_unit) × (total_size ns ≤ c.max_access_unit_size)

  -- Over the packets, the decoder adds the NALUs to those it holds, with no error but
  -- `ErrMorePacketsNeeded`; if the last packet has the marker it delivers them all at the end.
  pub record Fed (d : Decoder) (fb : List Nalu) (pkts : List Packet) (ns : List Nalu)
      (marker : Bool) : Type 0 where
    pub after : Decoder
    pub run : deliver c d pkts ≡ some (if marker then (fb ++ ns) ∷ [] else [], after)
    pub holds : Holds after (if marker then [] else fb ++ ns)

  deliver_nil : {d : Decoder} → deliver c d [] ≡ some ([], d)
  unfolding deliver
  deliver_nil = refl

  pub deliver_step :
      (d : Decoder) (x : Packet) (xs : List Packet) {us vs : List (List Nalu)} {d1 d2 : Decoder}
      → absorb c (decode c d x) ≡ some (us, d1)
      → deliver c d1 xs ≡ some (vs, d2)
      → deliver c d (x ∷ xs) ≡ some (us ++ vs, d2)
  unfolding deliver
  deliver_step d x xs e f = rw (e, deliver) (rw (f, deliver))

  deliver_fails :
      (d : Decoder) (x : Packet) (xs : List Packet)
      → absorb c (decode c d x) ≡ none
      → deliver c d (x ∷ xs) ≡ none
  unfolding deliver
  deliver_fails d x xs e = rw (e, deliver)

  deliver_fails_later :
      (d : Decoder) (x : Packet) (xs : List Packet) {us : List (List Nalu)} {d1 : Decoder}
      → absorb c (decode c d x) ≡ some (us, d1)
      → deliver c d1 xs ≡ none
      → deliver c d (x ∷ xs) ≡ none
  unfolding deliver
  deliver_fails_later d x xs e f = rw (e, deliver) (rw (f, deliver))

  pub deliver-append :
      (d : Decoder) (xs ys : List Packet) (aus bus : List (List Nalu)) (d' d'' : Decoder)
      → deliver c d xs ≡ some (aus, d')
      → deliver c d' ys ≡ some (bus, d'')
      → deliver c d (xs ++ ys) ≡ some (aus ++ bus, d'')
  deliver-append d [] ys aus bus d' d'' e f =
      let same : ([], d) ≡ (aus, d') = some-inj (sym deliver_nil ∙ e) in
      subst (λ (t : List (List Nalu) × Decoder). deliver c d ys ≡ some (t.0 ++ bus, d'')) same
        (subst (λ t. deliver c t ys ≡ some (bus, d'')) (sym (ap (λ t. t.1) same)) f)
    where
      deliver_nil : deliver c d [] ≡ some ([], d)
      deliver_nil = unfold deliver in refl
  deliver-append d (x ∷ xs) ys aus bus d' d'' e f = elim (Option-cases (absorb c (decode c d x))) [
    | inl stop ↦ absurd (none-ne-some (sym (deliver_fails d x xs stop) ∙ e))
    | inr ((us, d1), go) ↦ elim (Option-cases (deliver c d1 xs)) [
      | inl stop ↦ absurd (none-ne-some (sym (deliver_fails_later d x xs go stop) ∙ e))
      | inr ((vs, d2), rest) ↦
          let same : (us ++ vs, d2) ≡ (aus, d') =
            some-inj (sym (deliver_step d x xs go rest) ∙ e) in
          let after = subst (λ t. deliver c t ys ≡ some (bus, d'')) (sym (ap (λ t. t.1) same)) f in
          deliver_step d x (xs ++ ys) go (deliver-append d1 xs ys vs bus d2 d'' rest after)
          ∙ ap (λ l. some (l, d''))
              (sym (append_assoc us vs bus) ∙ ap (λ l. l ++ bus) (ap (λ t. t.0) same))
    ]
  ]

  decode_of_nalus :
      (d : Decoder) (pkt : Packet) {ns : List Nalu} {d' : Decoder}
      → decode_nalus c d pkt ≡ some (ok ns, d')
      → decode c d pkt ≡ some (collect c d' pkt.marker ns)
  unfolding decode
  decode_of_nalus d pkt e = rw (e, decode)

  pub nalus_of_switch :
      (d : Decoder) (pkt : Packet) {b0 : ℕ} {body : List ℕ} {r : Result (List Nalu) × Decoder}
      → pkt.payload ≡ b0 ∷ body
      → decode_switch c d pkt b0 body ≡ some r
      → decode_nalus c d pkt ≡ some (after_switch c r)
  unfolding decode_nalus
  nalus_of_switch d pkt e f = rw (e, decode_nalus) (rw (f, decode_nalus))

  -- `Decode` behind `decodeNALUs`, where the access unit stays within its limits.
  module _ (d : Decoder) (fb ns : List Nalu) (h : Holds d fb) (fits : Fits (fb ++ ns)) where
    few : leb (d.frame_buffer_len + length ns) c.max_nalus_per_access_unit ≡ true
    few = ground (arith, h.count, fits.0, length-append fb ns)

    small : leb (d.frame_buffer_size + total_size ns) c.max_access_unit_size ≡ true
    small = ground (arith, h.bytes, fits.1, total_size-append fb ns)

    collect_marked : (collect c d true ns).0 ≡ ok (fb ++ ns)
    unfolding collect
    collect_marked = ground (arith, few, small, h.frame)

    collect-Holds_marked : Holds (collect c d true ns).1 []
    unfolding collect
    collect-Holds_marked = record {
      frame = ground (arith, few, small);
      count = ground (arith, few, small);
      bytes = ground (arith, few, small);
      plain = ground (arith, few, small, h.plain);
    }

    collect_unmarked : (collect c d false ns).0 ≡ err more_packets_needed
    unfolding collect
    collect_unmarked = ground (arith, few, small)

    collect-Holds_unmarked : Holds (collect c d false ns).1 (fb ++ ns)
    unfolding collect
    collect-Holds_unmarked = record {
      frame = ground (arith, few, small, h.frame);
      count = ground (arith, few, small, h.count, length-append fb ns);
      bytes = ground (arith, few, small, h.bytes, total_size-append fb ns);
      plain = ground (arith, few, small, h.plain);
    }

    -- A packet whose call of `decodeNALUs` gives the NALUs.
    pub Fed-of_nalus :
        (d0 : Decoder) (pkt : Packet) (marker : Bool)
        → pkt.marker ≡ marker
        → decode_nalus c d0 pkt ≡ some (ok ns, d)
        → Fed d0 fb (pkt ∷ []) ns marker
    Fed-of_nalus d0 pkt true m e = record {
      after = (collect c d true ns).1;
      run =
          deliver_step d0 pkt []
            (ap (absorb c) (decode_of_nalus d0 pkt e ∙ ap (λ b. some (collect c d b ns)) m)
              ∙ absorb_ok (collect c d true ns) collect_marked)
            deliver_nil;
      holds = collect-Holds_marked;
    }
      where
        absorb_ok :
            (r : Result (List Nalu) × Decoder)
            → r.0 ≡ ok (fb ++ ns)
            → absorb c (some r) ≡ some ((fb ++ ns) ∷ [], r.1)
        absorb_ok (r, d') q = rw q (unfold absorb in refl)
    Fed-of_nalus d0 pkt false m e = record {
      after = (collect c d false ns).1;
      run =
          deliver_step d0 pkt []
            (ap (absorb c) (decode_of_nalus d0 pkt e ∙ ap (λ b. some (collect c d b ns)) m)
              ∙ absorb_more (collect c d false ns) collect_unmarked)
            deliver_nil;
      holds = collect-Holds_unmarked;
    }
      where
        absorb_more :
            (r : Result (List Nalu) × Decoder)
            → r.0 ≡ err more_packets_needed
            → absorb c (some r) ≡ some ([], r.1)
        absorb_more (r, d') q = rw q (unfold absorb in refl)

  -- Runs in sequence.
  pub Fed-Fed :
      (d : Decoder) (fb : List Nalu) (xs ys : List Packet) (ns ms : List Nalu) (marker : Bool)
      → (first : Fed d fb xs ns false) → Fed first.after (fb ++ ns) ys ms marker
      → Fed d fb (xs ++ ys) (ns ++ ms) marker
  Fed-Fed d fb xs ys ns ms marker first second = record {
    after = second.after;
    run =
        deliver-append d xs ys [] _ first.after second.after first.run second.run
        ∙ ap (λ l. some (if marker then l ∷ [] else [], second.after)) (append_assoc fb ns ms);
    holds =
        subst (λ l. Holds second.after (if marker then [] else l)) (append_assoc fb ns ms)
          second.holds;
  }

  -- A packet that only leaves the decoder in want of more.
  pub Fed-more :
      (d d' : Decoder) (fb : List Nalu) (pkt : Packet) (pkts : List Packet) (ns : List Nalu)
      (marker : Bool)
      → decode_nalus c d pkt ≡ some (err more_packets_needed, d')
      → Fed d' fb pkts ns marker
      → Fed d fb (pkt ∷ pkts) ns marker
  Fed-more d d' fb pkt pkts ns marker e f = record {
    after = f.after;
    run = deliver_step d pkt pkts (stops e) f.run;
    holds = f.holds;
  }
    where
      stops :
          decode_nalus c d pkt ≡ some (err more_packets_needed, d')
          → absorb c (decode c d pkt) ≡ some ([], d')
      stops q = unfold decode absorb in rw (q, decode)
