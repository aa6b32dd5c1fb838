-- ===== src/LossDetector/Loss.antt =====
-- The losses that the detector reports of a stream.
use gortsplib.Common.{ℕ, ◌+◌, ◌%◌, ◌<◌, ◌≡◌, refl, true, List, [], ◌∷◌, length, arith}
use gortsplib.Common.Words.{add16}
use gortsplib.Rtp.{Packet}
use gortsplib.LossDetector.{LossDetector, process, process_all}

-- The packets come behind the extended number `e`, each after as many skipped numbers as the list
-- says, less than 2 ^ 16.
abbrev pub Follows : ℕ → List ℕ → List Packet → Type 0
Follows e [] [] = Unit
Follows e (g ∷ gs) (pkt ∷ pkts) =
    (g < 65536) × (pkt.sequence_number ≡ (e + g) % 65536) × Follows (e + g + 1) gs pkts
Follows e _ _ = ⊥

abbrev pub total : List ℕ → ℕ
total [] = 0
total (g ∷ gs) = g + total gs

process-initialized : (r : LossDetector) (pkt : Packet) → (process r pkt).0.initialized ≡ true
unfolding process
process-initialized r pkt = ground arith

process-expected :
    (r : LossDetector) (pkt : Packet)
    → (process r pkt).0.expected_seq_num ≡ add16 pkt.sequence_number 1
unfolding process
process-expected r pkt = ground arith

process-lost :
    (r : LossDetector) (pkt : Packet) (e g : ℕ)
    → r.initialized ≡ true
    → r.expected_seq_num ≡ e % 65536
    → g < 65536
    → pkt.sequence_number ≡ (e + g) % 65536
    → (process r pkt).1 ≡ g
unfolding process
process-lost r pkt e g hi he hg hs = ground arith

-- For packets that come in order behind the number that an initialized detector expects, each after
-- less than 2 ^ 16 skipped numbers, however often the numbers wrap around: the losses reported are
-- in sum exactly the numbers skipped, and the detector expects the number behind the last packet.
pub process_all-lost :
    (r : LossDetector) (e : ℕ) (gs : List ℕ) (pkts : List Packet)
    → r.initialized ≡ true
    → r.expected_seq_num ≡ e % 65536
    → Follows e gs pkts
    → ((process_all r pkts).1 ≡ total gs)
      × ((process_all r pkts).0.expected_seq_num ≡ (e + total gs + length pkts) % 65536)
unfolding process_all
process_all-lost r e [] [] hi he h = (refl, omega arith)
process_all-lost r e [] (pkt ∷ pkts) hi he h = absurd h
process_all-lost r e (g ∷ gs) [] hi he h = absurd h
process_all-lost r e (g ∷ gs) (pkt ∷ pkts) hi he (hg, hs, h) =
    let lost = process-lost r pkt e g hi he hg hs in
    let rest =
      process_all-lost (process r pkt).0 (e + g + 1) gs pkts (process-initialized r pkt)
        (omega (arith, process-expected r pkt, hs)) h in
    (omega (arith, lost, rest), omega (arith, rest))
