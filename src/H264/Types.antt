-- ===== src/H264/Types.antt =====
-- NALUs and their types, for both directions of pkg/format/rtph264.
use gortsplib.Common.{ℕ, ◌+◌, List, [], ◌∷◌, length}

-- A NALU is a slice of bytes that is not nil.
abbrev pub Nalu : Type 0
Nalu = List ℕ

-- The NALU types of github.com/bluenviron/mediacommon, with the values of RFC 6184.
abbrev pub type_stapa : ℕ
type_stapa = 24

abbrev pub type_stapb : ℕ
type_stapb = 25

abbrev pub type_mtap16 : ℕ
type_mtap16 = 26

abbrev pub type_mtap24 : ℕ
type_mtap24 = 27

abbrev pub type_fua : ℕ
type_fua = 28

abbrev pub type_fub : ℕ
type_fub = 29

-- The bytes of all NALUs together.
abbrev pub total_size : List Nalu → ℕ
total_size [] = 0
total_size (n ∷ ns) = length n + total_size ns
