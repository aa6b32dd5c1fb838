-- ===== src/Message/Body/RoundTrip.antt =====
-- What ends each message, the end of its first line, its header and its body, is read as it was written.
use gortsplib.Common.{
  ℕ, ◌+◌, ◌≤◌, ◌≡◌, refl, sym, ap, subst, ◌∙◌, ltb, Option, none, some, some-inj, List, [], ◌∷◌,
  ◌++◌, append-nil, append_assoc, length, length-append, arith,
}
use gortsplib.Common.Cases.{if_case}
use gortsplib.Message.Reader.{
  got, ◌>>=◌, ◌>>◌, return, read_byte_equal, read_byte_equal-Reads, read_full-Reads, Reads,
}
use gortsplib.Message.Writer.{
  Writer, put_text, put_byte, ◌then_write◌, Writes, put_text-Writes, put_byte-Writes, Writes-then,
}
use gortsplib.Message.Decimal.{format_int, parse_uint-format_int}
use gortsplib.Message.Header.{
  Header, values_of, unmarshal_header, header_marshal_size, header_marshal_to,
}
use gortsplib.Message.Header.Order.{values_of-set_values}
use gortsplib.Message.Header.Wire.{
  header_wire, header_marshal_to-Writes, header_marshal_size-length,
}
use gortsplib.Message.Header.RoundTrip.{FitsHeader, FitsHeader-HasKeys, unmarshal_header-Reads}
use gortsplib.Message.Body.{
  rtsp_max_content_length, content_length, read_content, unmarshal_body, sent_header,
}

read_content-Reads :
    (body : List ℕ)
    → length body ≤ 131072
    → Reads (read_content (format_int (length body) ∷ [])) body body
unfolding read_content
read_content-Reads body h rest =
    rw (parse_uint-format_int 64 (length body) (omega (arith, h)), read_content)
      (if_case (λ r. r ≡ got body rest) (ltb rtsp_max_content_length (length body))
        (λ z. absurd (ground (arith, h, z))) (λ z. read_full-Reads body rest))

no_content : (h : Header) → values_of content_length h ≡ [] → Reads (unmarshal_body h) [] []
unfolding unmarshal_body read_content
no_content h e rest = ap (λ cls. read_content cls rest) e

-- The body that was sent with this header is read again.
unmarshal_body-Reads :
    (kept : Option Header) (body : List ℕ) (h : Header)
    → sent_header kept body ≡ some h
    → length body ≤ 131072
    → (length body ≡ 0 → values_of content_length h ≡ [])
    → Reads (unmarshal_body h) body body
unfolding sent_header unmarshal_body
unmarshal_body-Reads none [] h e l n rest = no_content h (n refl) rest
unmarshal_body-Reads none (b ∷ body) h e l n rest = absurd (cc)
unmarshal_body-Reads (some k) [] h e l n rest = no_content h (n refl) rest
unmarshal_body-Reads (some k) (b ∷ body) h e l n rest =
    let cl = format_int (length (b ∷ body)) ∷ [] in
    ap (λ m. read_content (values_of content_length m) ((b ∷ body) ++ rest)) (sym (some-inj e))
    ∙ ap (λ vs. read_content vs ((b ∷ body) ++ rest)) (values_of-set_values content_length cl k)
    ∙ read_content-Reads (b ∷ body) l rest

-- The header of a message, its body, and the header that it is sent with.
pub record FitsContent (kept : Option Header) (body : List ℕ) (h : Header) : Type 0 where
  pub header : FitsHeader h
  pub sent : sent_header kept body ≡ some h
  pub limit : length body ≤ 131072
  pub no_length : length body ≡ 0 → values_of content_length h ≡ []

-- The three parts of the first line, the header and the body of a message, and what comes behind it.
abbrev pub message_wire : List ℕ → List ℕ → List ℕ → Header → List ℕ → List ℕ → List ℕ
message_wire a b c h body rest =
    a ++ (b' ' ∷ (b ++ (b' ' ∷ (c ++ (13 ∷ 10 ∷ (header_wire h ++ (body ++ rest)))))))

pub message_wire-append :
    (a b c : List ℕ) (h : Header) (body rest : List ℕ)
    → message_wire a b c h body [] ++ rest ≡ message_wire a b c h body rest
message_wire-append a b c h body rest = simp (append_assoc, append-nil)

abbrev pub message_marshal_to : List ℕ → List ℕ → List ℕ → Header → List ℕ → Writer
message_marshal_to a b c h body =
    put_text a
    then_write put_byte b' '
    then_write put_text b
    then_write put_byte b' '
    then_write put_text c
    then_write put_byte 13
    then_write put_byte 10
    then_write header_marshal_to h
    then_write put_text body

module _ {kept : Option Header} {body : List ℕ} {h : Header} (f : FitsContent kept body h) where
  pub read_content_wire :
      {A : Type 0} (k : Header → List ℕ → A) (rest : List ℕ)
      → (do
        read_byte_equal 10
        header ← unmarshal_header
        body' ← unmarshal_body header
        return (k header body'))
          (10 ∷ (header_wire h ++ (body ++ rest)))
        ≡ got (k h body) rest
  read_content_wire k rest =
      rw (read_byte_equal-Reads 10 (header_wire h ++ (body ++ rest)), ◌>>=◌)
        (rw (unmarshal_header-Reads h f.header (body ++ rest), ◌>>=◌)
          (rw (unmarshal_body-Reads kept body h f.sent f.limit f.no_length rest, ◌>>=◌) refl))

  pub message_marshal_to-Writes :
      (a b c : List ℕ) → Writes (message_marshal_to a b c h body) (message_wire a b c h body [])
  message_marshal_to-Writes a b c =
      let keys = FitsHeader-HasKeys h f.header.entries in
      Writes-then _ _ a _ (put_text-Writes a) (
        Writes-then _ _ (b' ' ∷ []) _ (put_byte-Writes b' ') (
          Writes-then _ _ b _ (put_text-Writes b) (
            Writes-then _ _ (b' ' ∷ []) _ (put_byte-Writes b' ') (
              Writes-then _ _ c _ (put_text-Writes c) (
                Writes-then _ _ (13 ∷ []) _ (put_byte-Writes 13) (
                  Writes-then _ _ (10 ∷ []) _ (put_byte-Writes 10) (
                    Writes-then _ _ (header_wire h) (body ++ [])
                      (header_marshal_to-Writes h f.header.order keys)
                      (subst (Writes (put_text body)) (sym (append-nil body))
                        (put_text-Writes body)))))))))

  pub length-message_wire :
      (a b c : List ℕ)
      → length (message_wire a b c h body [])
        ≡ length a + length b + length c + 4 + header_marshal_size h + length body
  length-message_wire a b c =
      let size =
        header_marshal_size-length h f.header.order (FitsHeader-HasKeys h f.header.entries) in
      omega (arith, size, length-append {0})
