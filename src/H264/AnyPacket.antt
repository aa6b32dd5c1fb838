-- ===== src/H264/AnyPacket.antt =====
-- The decoder on packets of any content: it returns, and what it holds and delivers is bounded.
use gortsplib.Common.{
  ℕ, ◌+◌, ◌≤◌, ◌≡◌, ◌≢◌, refl, sym, ap, ◌∙◌, subst, Bool, true, false, ◌||◌, ◌%◌, ◌==◌, ltb,
  Bool-cases, ℕ_discrete, inl, inr, some, List, [], ◌∷◌, ◌++◌, length, length-append, arith,
}
use gortsplib.Rtp.{Packet}
use gortsplib.H264.Types.{Nalu, total_size}
use gortsplib.H264.Decoder.{
  not_supported, payload_too_short, more_packets_needed, nalu_count, access_unit_too_big, Result,
  ok, err, Codec, Decoder, decode_fua, decode_stapa, after_switch, decode_switch, decode_nalus,
  collect, decode,
}
use gortsplib.H264.Bounds.{
  SameFrame, Stepped, decode_fua-SameFrame, after_switch-SameFrame, decode_stapa-Stepped,
}
use gortsplib.H264.Fragments.{fua_switch}
use gortsplib.H264.Feed.{total_size-append, nalus_of_switch}

module _ (c : Codec) where
  stapa_case :
      (d : Decoder) (pkt : Packet) (b0 : ℕ) (body : List ℕ)
      → b0 % 32 ≡ 24
      → decode_switch c d pkt b0 body ≡ decode_stapa c d body
  unfolding decode_switch
  stapa_case d pkt b0 body e = ground arith

  other_case :
      (d : Decoder) (pkt : Packet) (b0 : ℕ) (body : List ℕ)
      → b0 % 32 ≢ 28
      → b0 % 32 ≢ 24
      → Stepped c d (decode_switch c d pkt b0 body)
  other_case d pkt b0 body n28 n24 = elim (Bool-cases unsupported) [
    | inl bad ↦ record {
      out = err (not_supported (b0 % 32));
      after = after;
      result_is = unfold decode_switch in ground arith;
      same = record { frame = refl; count = refl; bytes = refl };
    }
    | inr good ↦ record {
      out = ok ((b0 ∷ body) ∷ []);
      after = after;
      result_is = unfold decode_switch in ground arith;
      same = record { frame = refl; count = refl; bytes = refl };
    }
  ]
    where
      unsupported : Bool
      unsupported = b0 % 32 == 25 || (b0 % 32 == 26 || (b0 % 32 == 27 || b0 % 32 == 29))

      after : Decoder
      after = record d { fragments = []; fragments_size = 0; first_packet_received = true }

  decode_switch-Stepped :
      (d : Decoder) (pkt : Packet) (b0 : ℕ) (body : List ℕ)
      → Stepped c d (decode_switch c d pkt b0 body)
  decode_switch-Stepped d pkt b0 body = elim (ℕ_discrete (b0 % 32) 28) [
    | yes e ↦ record {
      out = (decode_fua c d pkt b0 body).0;
      after = (decode_fua c d pkt b0 body).1;
      result_is = fua_switch c d pkt b0 body e;
      same = decode_fua-SameFrame c d pkt b0 body;
    }
    | no n28 ↦ elim (ℕ_discrete (b0 % 32) 24) [
      | yes e ↦
          subst (Stepped c d) (sym (stapa_case d pkt b0 body e)) (decode_stapa-Stepped c d body)
      | no n24 ↦ other_case d pkt b0 body n28 n24
    ]
  ]

  decode_nalus-Stepped : (d : Decoder) (pkt : Packet) → Stepped c d (decode_nalus c d pkt)
  decode_nalus-Stepped d pkt = go pkt.payload refl
    where
      go : (l : List ℕ) → pkt.payload ≡ l → Stepped c d (decode_nalus c d pkt)
      go [] e = record {
        out = err payload_too_short;
        after = record d { fragments = []; fragments_size = 0 };
        result_is = unfold decode_nalus in rw (e, decode_nalus);
        same = record { frame = refl; count = refl; bytes = refl };
      }
      go (b0 ∷ body) e =
          let s = decode_switch-Stepped d pkt b0 body in
          let t = after_switch-SameFrame c s.out s.after in
          record {
            out = (after_switch c (s.out, s.after)).0;
            after = (after_switch c (s.out, s.after)).1;
            result_is = nalus_of_switch c d pkt e s.result_is;
            same = record {
              frame = t.frame ∙ s.same.frame;
              count = t.count ∙ s.same.count;
              bytes = t.bytes ∙ s.same.bytes;
            };
          }

  -- The counters of the frame are those of the NALUs in it, and are within the limits.
  pub record IsBounded (d : Decoder) : Type 0 where
    pub count : d.frame_buffer_len ≡ length d.frame_buffer
    pub bytes : d.frame_buffer_size ≡ total_size d.frame_buffer
    pub few : length d.frame_buffer ≤ c.max_nalus_per_access_unit
    pub small : total_size d.frame_buffer ≤ c.max_access_unit_size

  -- An access unit that is delivered is within the limits.
  abbrev pub Within : Result (List Nalu) → Type 0
  Within (err e) = Unit
  Within (ok au) =
      (length au ≤ c.max_nalus_per_access_unit) × (total_size au ≤ c.max_access_unit_size)

  abbrev cleared : Decoder → Decoder
  cleared d = record d { frame_buffer = []; frame_buffer_len = 0; frame_buffer_size = 0 }

  cleared-IsBounded : (d : Decoder) → IsBounded (cleared d)
  cleared-IsBounded d = record {
    count = refl;
    bytes = refl;
    few = omega arith;
    small = omega arith;
  }

  collect_many :
      (d : Decoder) (marker : Bool) (ns : List Nalu)
      → ltb c.max_nalus_per_access_unit (d.frame_buffer_len + length ns) ≡ true
      → collect c d marker ns ≡ (err nalu_count, cleared d)
  unfolding collect
  collect_many d marker ns h = rw (h, collect) refl

  collect_large :
      (d : Decoder) (marker : Bool) (ns : List Nalu)
      → ltb c.max_nalus_per_access_unit (d.frame_buffer_len + length ns) ≡ false
      → ltb c.max_access_unit_size (d.frame_buffer_size + total_size ns) ≡ true
      → collect c d marker ns ≡ (err (access_unit_too_big (total_size ns)), cleared d)
  unfolding collect
  collect_large d marker ns h k = rw (h, k) refl

  collect_last :
      (d : Decoder) (ns : List Nalu)
      → ltb c.max_nalus_per_access_unit (d.frame_buffer_len + length ns) ≡ false
      → ltb c.max_access_unit_size (d.frame_buffer_size + total_size ns) ≡ false
      → collect c d true ns ≡ (ok (d.frame_buffer ++ ns), cleared d)
  unfolding collect
  collect_last d ns h k = rw (h, k) refl

  abbrev grown : Decoder → List Nalu → Decoder
  grown d ns = record d {
    frame_buffer = d.frame_buffer ++ ns;
    frame_buffer_len = d.frame_buffer_len + length ns;
    frame_buffer_size = d.frame_buffer_size + total_size ns;
  }

  collect_more :
      (d : Decoder) (ns : List Nalu)
      → ltb c.max_nalus_per_access_unit (d.frame_buffer_len + length ns) ≡ false
      → ltb c.max_access_unit_size (d.frame_buffer_size + total_size ns) ≡ false
      → collect c d false ns ≡ (err more_packets_needed, grown d ns)
  unfolding collect
  collect_more d ns h k = rw (h, k) refl

  abbrev BothBounded : Result (List Nalu) × Decoder → Type 0
  BothBounded r = IsBounded r.1 × Within r.0

  collect-BothBounded :
      (d : Decoder) (marker : Bool) (ns : List Nalu)
      → IsBounded d
      → BothBounded (collect c d marker ns)
  collect-BothBounded d marker ns b =
      elim (Bool-cases (ltb c.max_nalus_per_access_unit (d.frame_buffer_len + length ns))) [
        | inl many ↦
            subst BothBounded (sym (collect_many d marker ns many)) (cleared-IsBounded d, tt)
        | inr few ↦
            elim (Bool-cases (ltb c.max_access_unit_size (d.frame_buffer_size + total_size ns))) [
              | inl large ↦
                  subst BothBounded (sym (collect_large d marker ns few large))
                    (cleared-IsBounded d, tt)
              | inr small ↦ kept marker few small
            ]
      ]
    where
      kept :
          (m : Bool)
          → ltb c.max_nalus_per_access_unit (d.frame_buffer_len + length ns) ≡ false
          → ltb c.max_access_unit_size (d.frame_buffer_size + total_size ns) ≡ false
          → BothBounded (collect c d m ns)
      kept true few small = subst BothBounded (sym (collect_last d ns few small)) (
        cleared-IsBounded d,
        (
          ground (arith, few, b.count, length-append d.frame_buffer ns),
          ground (arith, small, b.bytes, total_size-append d.frame_buffer ns),
        ),
      )
      kept false few small = subst BothBounded (sym (collect_more d ns few small)) (
        record {
          count = omega (arith, b.count, length-append d.frame_buffer ns);
          bytes = omega (arith, b.bytes, total_size-append d.frame_buffer ns);
          few = ground (arith, few, b.count, length-append d.frame_buffer ns);
          small = ground (arith, small, b.bytes, total_size-append d.frame_buffer ns);
        },
        tt,
      )

  IsBounded-SameFrame : {d d' : Decoder} → SameFrame d d' → IsBounded d → IsBounded d'
  IsBounded-SameFrame {d} {d'} s b = record {
    count = s.count ∙ b.count ∙ ap length (sym s.frame);
    bytes = s.bytes ∙ b.bytes ∙ ap total_size (sym s.frame);
    few = subst (λ l. length l ≤ c.max_nalus_per_access_unit) (sym s.frame) b.few;
    small = subst (λ l. total_size l ≤ c.max_access_unit_size) (sym s.frame) b.small;
  }

  -- Whatever the packet is, `Decode` returns, the counters of the frame stay those of the NALUs it
  -- holds, these stay within the two limits, and an access unit that it delivers is within them too.
  pub decode-IsBounded :
      (d : Decoder) (pkt : Packet)
      → IsBounded d
      → (r : Result (List Nalu)) × (d' : Decoder) × (decode c d pkt ≡ some (r, d'))
        × IsBounded d'
        × Within r
  decode-IsBounded d pkt b =
      let s = decode_nalus-Stepped d pkt in
      finish s.out s.after s.result_is (IsBounded-SameFrame s.same b)
    where
      finish :
          (r : Result (List Nalu)) (d1 : Decoder)
          → decode_nalus c d pkt ≡ some (r, d1)
          → IsBounded d1
          → (r' : Result (List Nalu)) × (d' : Decoder) × (decode c d pkt ≡ some (r', d'))
            × IsBounded d'
            × Within r'
      finish (err e) d1 q b1 = (err e, d1, unfold decode in rw (q, decode), b1, tt)
      finish (ok ns) d1 q b1 =
          let both = collect-BothBounded d1 pkt.marker ns b1 in
          (
            (collect c d1 pkt.marker ns).0,
            (collect c d1 pkt.marker ns).1,
            unfold decode in rw (q, decode),
            both.0,
            both.1,
          )
