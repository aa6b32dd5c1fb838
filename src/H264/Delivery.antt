-- ===== src/H264/Delivery.antt =====
-- The decoder delivers the access unit that the encoder was given.
use gortsplib.Common.{◌+◌, ◌≤◌, ◌≡◌, true, leb, some, List, [], ◌∷◌, ◌++◌, length, arith}
use gortsplib.H264.Types.{Nalu}
use gortsplib.H264.Encoder.{Encoder, aggregated_sizes, len_aggregated}
use gortsplib.H264.Decoder.{Decoder}
use gortsplib.H264.RoundTrip.{FitsPacket}

aggregated_sizes-append :
    (ns ms : List Nalu) → aggregated_sizes (ns ++ ms) ≡ aggregated_sizes ns + aggregated_sizes ms
aggregated_sizes-append [] ms = omega arith
aggregated_sizes-append (n ∷ ns) ms = omega (arith, aggregated_sizes-append ns ms)

FitsPacket-snoc :
    (e : Encoder) (batch : List Nalu) (n : Nalu)
    → 1 + aggregated_sizes batch + (2 + length n) ≤ e.payload_max_size
    → FitsPacket e (batch ++ (n ∷ []))
FitsPacket-snoc e [] n h = tt
FitsPacket-snoc e (b ∷ []) n h = omega arith
FitsPacket-snoc e (b ∷ m ∷ ms) n h = omega (arith, aggregated_sizes-append ms (n ∷ []))

pub fits_after :
    (e : Encoder) (batch : List Nalu) (n : Nalu)
    → leb (len_aggregated batch (some n)) e.payload_max_size ≡ true
    → FitsPacket e (batch ++ (n ∷ []))
fits_after e batch n q = FitsPacket-snoc e batch n (unfold len_aggregated in ground arith)
