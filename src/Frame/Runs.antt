-- ===== src/Frame/Runs.antt =====
-- The theorems on frames at two small frames.
use gortsplib.Common.{ℕ, ◌≡◌, some, List, [], ◌∷◌, ◌++◌, length, arith}
use gortsplib.Frame.{InterleavedFrame, frame, unmarshal, marshal, marshal_size}
use gortsplib.Frame.RoundTrip.{Fits, unmarshal-marshal}

abbrev first : InterleavedFrame
first = record { channel = 0; payload = 128 ∷ 96 ∷ 7 ∷ [] }

abbrev second : InterleavedFrame
second = record { channel = 1; payload = [] }

first-Fits : Fits first
first-Fits = record { channel = omega arith; payload = omega arith }

second-Fits : Fits second
second-Fits = record { channel = omega arith; payload = omega arith }

unmarshal-marshal_example :
    (bytes : List ℕ) × (marshal first ≡ some bytes)
    × (length bytes ≡ marshal_size first)
    × (unmarshal (bytes ++ (36 ∷ 1 ∷ [])) ≡ frame first (36 ∷ 1 ∷ []))
unmarshal-marshal_example = unmarshal-marshal first (36 ∷ 1 ∷ []) first-Fits
