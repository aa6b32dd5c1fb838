-- ===== src/Reorderer.antt =====
-- internal/rtpreorderer/reorderer.go: puts incoming RTP packets in order and drops duplicates.
pub mod Window
pub mod Release
pub mod Order
pub mod Branches
pub mod Expected
pub mod Correct
pub mod Stream
mod Runs
use gortsplib.Common.{
  ℕ, zero, suc, ◌+◌, ◌-◌, ◌%◌, ◌^◌, Bool, true, false, ◌==◌, ltb, leb, if◌then◌else◌, is_some,
  Option, none, some, List, [], ◌∷◌, ◌++◌, get_or, set, replicate,
}
use gortsplib.Common.Words.{add16, sub16}
use gortsplib.Rtp.{Packet}

abbrev pub buffer_size : ℕ
buffer_size = 64

-- A slot is nil or a packet.
abbrev pub Buffer : Type 0
Buffer = List (Option Packet)

pub record Reorderer : Type 0 where
  pub initialized : Bool
  pub expected_seq_num : ℕ  -- uint16
  pub buffer : Buffer
  pub abs_pos : ℕ  -- uint16
  pub negative_count : ℕ

-- What `Process` returns: the slice of packets, whose elements could be nil, and the losses.
pub record Output : Type 0 where
  pub packets : List (Option Packet)
  pub lost : ℕ

unfoldable pub initialize : Reorderer
initialize = record {
  initialized = false;
  expected_seq_num = 0;
  buffer = replicate 64 none;
  abs_pos = 0;
  negative_count = 0;
}

-- `(r.absPos + i) & (bufferSize - 1)` on uint16: the mask keeps the lower six bits.
abbrev pub slot : ℕ → ℕ → ℕ
slot pos i = add16 pos i % 64

-- The loop that sets every slot to nil, from round `i` on; the first argument is the rounds left.
unfoldable pub clear_loop : ℕ → ℕ → ℕ → Buffer → Buffer
clear_loop zero pos i buf = buf
clear_loop (suc k) pos i buf = clear_loop k pos (i + 1) (set buf (slot pos i) none)

-- The loop that counts the slots in use.
unfoldable pub count_loop : ℕ → ℕ → ℕ → Buffer → ℕ → ℕ
count_loop zero pos i buf n = n
count_loop (suc k) pos i buf n =
    count_loop k pos (i + 1) buf (if is_some (get_or buf (slot pos i) none) then n + 1 else n)

-- The loop that moves every packet of the buffer to `ret`.
unfoldable pub drain_loop :
    ℕ → ℕ → ℕ → Buffer → List (Option Packet) → List (Option Packet) × Buffer
drain_loop zero pos i buf ret = (ret, buf)
drain_loop (suc k) pos i buf ret = elim (get_or buf (slot pos i) none) [
  | none ↦ drain_loop k pos (i + 1) buf ret
  | some p ↦ drain_loop k pos (i + 1) (set buf (slot pos i) none) (ret ++ (some p ∷ []))
]

-- The loop that looks for the first free slot after the current one; it has no bound of its own,
-- and `none` says that it did not end in the given rounds.
unfoldable pub free_loop : ℕ → ℕ → ℕ → Buffer → Option ℕ
free_loop zero pos n buf = none
free_loop (suc k) pos n buf = elim (get_or buf (slot pos n) none) [
  | none ↦ some n
  | some p ↦ free_loop k pos (add16 n 1) buf
]

-- The loop that moves the slots at `absPos` to `ret`, advancing `absPos`.
unfoldable pub release_loop :
    ℕ → ℕ → Buffer → List (Option Packet) → List (Option Packet) × Buffer × ℕ
release_loop zero pos buf ret = (ret, buf, pos)
release_loop (suc k) pos buf ret =
    release_loop k (slot pos 1) (set buf pos none) (ret ++ (get_or buf pos none ∷ []))

-- `relPos < 0`, where `relPos` is the int16 of the bit pattern `d`.
abbrev pub is_negative : ℕ → Bool
is_negative d = leb 32768 d

abbrev pub nothing : Output
nothing = record { packets = []; lost = 0 }

abbrev pub only : Packet → Output
only pkt = record { packets = some pkt ∷ []; lost = 0 }

-- The branch `relPos < 0`: a duplicate, or a stream that was reset.
unfoldable pub process_negative : Reorderer → Packet → Output × Reorderer
process_negative r pkt =
    let count = r.negative_count + 1 in
    if ltb buffer_size count
    then (
      only pkt,
      record r {
        negative_count = 0;
        buffer = clear_loop 64 r.abs_pos 0 r.buffer;
        expected_seq_num = add16 pkt.sequence_number 1;
      },
    )
    else (nothing, record r { negative_count = count })

-- The branch `relPos >= bufferSize`. The lost count is `uint(int(relPos) - n + 1)`.
unfoldable pub process_overflow : Reorderer → Packet → ℕ → Output × Reorderer
process_overflow r pkt rel =
    let n = count_loop 64 r.abs_pos 0 r.buffer 1 in
    let (ret, buf) = drain_loop 64 r.abs_pos 0 r.buffer [] in
    (
      record { packets = ret ++ (some pkt ∷ []); lost = (rel + 1 + 2 ^ 64 - n) % 2 ^ 64 },
      record r { negative_count = 0; buffer = buf; expected_seq_num = add16 pkt.sequence_number 1 },
    )

-- The branch `relPos != 0`: a packet is missing before this one.
unfoldable pub process_ahead : Reorderer → Packet → ℕ → Output × Reorderer
process_ahead r pkt rel =
    let p = slot r.abs_pos rel in
    let r' = record r { negative_count = 0 } in
    if is_some (get_or r.buffer p none)
    then (nothing, r')
    else (nothing, record r' { buffer = set r.buffer p (some pkt) })

-- The last branch: the packet is the expected one, and those behind it are released with it.
unfoldable pub process_expected : Reorderer → Packet → Option (Output × Reorderer)
process_expected r pkt = elim (free_loop 64 r.abs_pos 1 r.buffer) [
  | none ↦ none
  | some n ↦
      let (ret, buf, pos) = release_loop (n - 1) (slot r.abs_pos 1) r.buffer (some pkt ∷ []) in
      some (
        record { packets = ret; lost = 0 },
        record r {
          negative_count = 0;
          buffer = buf;
          abs_pos = pos;
          expected_seq_num = add16 pkt.sequence_number n;
        },
      )
]

-- `Process`. `none` is a call that does not return.
unfoldable pub process : Reorderer → Packet → Option (Output × Reorderer)
process r pkt =
    let rel = sub16 pkt.sequence_number r.expected_seq_num in
    if r.initialized
    then (if is_negative rel
        then some (process_negative r pkt)
        else if leb buffer_size rel
        then some (process_overflow r pkt rel)
        else if rel == 0
        then process_expected r pkt
        else some (process_ahead r pkt rel))
    else some
        (only pkt, record r { initialized = true; expected_seq_num = add16 pkt.sequence_number 1 })
