-- ===== src/H264/Bounds.antt =====
-- The cases of the decoder on packets of any content: they end, and leave the held frame alone.
use gortsplib.Common.{
  ℕ, zero, suc, ◌<◌, ◌≡◌, refl, Bool, true, false, ◌&&◌, ◌==◌, ltb, Option, some, List, [], ◌∷◌,
  ◌++◌, length, take, drop, length-drop, arith,
}
use gortsplib.Common.Bytes.{be16}
use gortsplib.Rtp.{Packet}
use gortsplib.H264.Types.{Nalu}
use gortsplib.H264.Decoder.{
  invalid_stapa, no_nalu, Result, ok, err, Codec, Decoder, stapa_loop, is_all_zero, decode_start,
  decode_continue, decode_fua, decode_stapa, after_switch,
}

-- Every round takes at least two bytes, so the loop ends within its rounds.
stapa_loop_total :
    (k : ℕ) (payload : List ℕ) (acc : List Nalu)
    → length payload < k
    → (r : Result (List Nalu)) × (stapa_loop k payload acc ≡ some r)
unfolding stapa_loop
stapa_loop_total zero payload acc h = absurd (omega arith)
stapa_loop_total (suc k) [] acc h = (_, refl)
stapa_loop_total (suc k) (hi ∷ []) acc h = (_, refl)
stapa_loop_total (suc k) (hi ∷ lo ∷ payload) acc h =
    round (be16 hi lo == 0 && is_all_zero payload) (ltb (length payload) (be16 hi lo))
      (drop (be16 hi lo) payload) (take (be16 hi lo) payload)
      (omega (arith, length-drop (be16 hi lo) payload)) (λ p a hp. stapa_loop_total k p a hp)
  where
    round :
        (b1 b2 : Bool) (rest : List ℕ) (n : Nalu)
        → length rest < k
        → ((p : List ℕ) (a : List Nalu)
            → length p < k
            → (r : Result (List Nalu)) × (stapa_loop k p a ≡ some r))
        → (r : Result (List Nalu)) × (elim b1 [
          | true ↦ some (ok acc)
          | false ↦ elim b2 [
            | true ↦ some (err invalid_stapa)
            | false ↦ elim rest [
              | [] ↦ some (ok (acc ++ (n ∷ [])))
              | b ∷ bs ↦ stapa_loop k (b ∷ bs) (acc ++ (n ∷ []))
            ]
          ]
        ]
            ≡ some r)
    round true b2 rest n hr rec = (_, refl)
    round false true rest n hr rec = (_, refl)
    round false false [] n hr rec = (_, refl)
    round false false (b ∷ bs) n hr rec = rec (b ∷ bs) (acc ++ (n ∷ [])) hr

-- The frame that the decoder holds is the same in both.
pub record SameFrame (d d' : Decoder) : Type 0 where
  pub frame : d'.frame_buffer ≡ d.frame_buffer
  pub count : d'.frame_buffer_len ≡ d.frame_buffer_len
  pub bytes : d'.frame_buffer_size ≡ d.frame_buffer_size

module _ (c : Codec) where
  decode_start-SameFrame :
      (d : Decoder) (pkt : Packet) (b0 b1 : ℕ) (body : List ℕ)
      → SameFrame d (decode_start d pkt b0 b1 body).1
  unfolding decode_start
  decode_start-SameFrame d pkt b0 b1 body = ground arith

  decode_continue-SameFrame :
      (d : Decoder) (pkt : Packet) (b1 : ℕ) (body : List ℕ)
      → SameFrame d (decode_continue c d pkt b1 body).1
  unfolding decode_continue
  decode_continue-SameFrame d pkt b1 body = ground arith

  pub decode_fua-SameFrame :
      (d : Decoder) (pkt : Packet) (b0 : ℕ) (body : List ℕ)
      → SameFrame d (decode_fua c d pkt b0 body).1
  decode_fua-SameFrame d pkt b0 [] = unfold decode_fua in ground arith
  decode_fua-SameFrame d pkt b0 (b1 ∷ body) = unfold decode_fua in ground arith

  pub after_switch-SameFrame :
      (r : Result (List Nalu)) (d : Decoder) → SameFrame d (after_switch c (r, d)).1
  unfolding after_switch
  after_switch-SameFrame (err e) d = ground arith
  after_switch-SameFrame (ok []) d = ground arith
  after_switch-SameFrame (ok (n ∷ [])) d = ground arith
  after_switch-SameFrame (ok (n ∷ m ∷ ms)) d = ground arith

  -- What a step of `decodeNALUs` comes to.
  pub record Stepped (d : Decoder) (result : Option (Result (List Nalu) × Decoder)) : Type 0 where
    pub out : Result (List Nalu)
    pub after : Decoder
    pub result_is : result ≡ some (out, after)
    pub same : SameFrame d after

  pub decode_stapa-Stepped : (d : Decoder) (body : List ℕ) → Stepped d (decode_stapa c d body)
  decode_stapa-Stepped d body =
      let (r, e) = stapa_loop_total (suc (length body)) body [] (omega arith) in go r e
    where
      go :
          (r : Result (List Nalu))
          → stapa_loop (suc (length body)) body [] ≡ some r
          → Stepped d (decode_stapa c d body)
      go (err x) e = record {
        out = err x;
        after = record d { fragments = []; fragments_size = 0 };
        result_is = unfold decode_stapa in rw (e, decode_stapa);
        same = record { frame = refl; count = refl; bytes = refl };
      }
      go (ok []) e = record {
        out = err no_nalu;
        after = record d { fragments = []; fragments_size = 0 };
        result_is = unfold decode_stapa in rw (e, decode_stapa);
        same = record { frame = refl; count = refl; bytes = refl };
      }
      go (ok (n ∷ ns)) e = record {
        out = ok (n ∷ ns);
        after = record d { fragments = []; fragments_size = 0; first_packet_received = true };
        result_is = unfold decode_stapa in rw (e, decode_stapa);
        same = record { frame = refl; count = refl; bytes = refl };
      }
