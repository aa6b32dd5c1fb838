-- ===== src/Receiver/Counts.antt =====
-- The extended sequence number and the losses that a receiver reports.
use gortsplib.Common.{
  ℕ, ◌+◌, ◌-◌, ◌*◌, ◌/◌, ◌%◌, ◌≤◌, ◌≡◌, refl, sym, subst, Bool, true, false, if◌then◌else◌, some,
  List, [], ◌∷◌, arith,
}
use gortsplib.Common.Words.{u32, sub16, IsU16}
use gortsplib.Rtp.{Packet}
use gortsplib.Receiver.{
  Clock, RtcpReceiver, Report, capped, count_packet, time_packet, process_packet_rtp, report,
  process_all,
}

module _ {T J : Type 0} (clock : Clock T J) where
  -- The counters are in their ranges, and a first packet has come.
  pub record IsCounting (r : RtcpReceiver T J) : Type 0 where
    pub begun : r.first_rtp_packet_received ≡ true
    pub cycles : IsU16 r.sequence_number_cycles
    pub last : IsU16 r.last_sequence_number
    pub lost : r.total_lost ≤ 16777215
    pub lost_since : r.total_lost_since_report ≤ 16777215

  abbrev pub extended : RtcpReceiver T J → ℕ
  extended r = r.sequence_number_cycles * 65536 + r.last_sequence_number

  -- A packet of the source `ssrc` that comes `d` numbers after `last`.
  pub record Follows (ssrc last : ℕ) (pkt : Packet) (d : ℕ) : Type 0 where
    pub source : pkt.ssrc ≡ ssrc
    pub number : IsU16 pkt.sequence_number
    pub gap : sub16 pkt.sequence_number last ≡ d
    pub ahead : 1 ≤ d
    pub near : d ≤ 61440

  pub record Counted (r r' : RtcpReceiver T J) (pkt : Packet) (d : ℕ) : Type 0 where
    pub counting : IsCounting r'
    pub moved : extended r' ≡ (extended r + d) % 4294967296
    pub more_lost : r'.total_lost ≡ capped (r.total_lost + (d - 1))
    pub same_source : r'.remote_ssrc ≡ r.remote_ssrc
    pub received : r'.last_sequence_number ≡ pkt.sequence_number

  count_packet-Counted :
      (r : RtcpReceiver T J) (pkt : Packet) (d : ℕ)
      → IsCounting r
      → Follows r.remote_ssrc r.last_sequence_number pkt d
      → Counted r (count_packet clock r pkt) pkt d
  unfolding count_packet
  count_packet-Counted r pkt d c f = record {
    counting = record {
      begun = c.begun;
      cycles = ground (arith, c.cycles);
      last = f.number;
      lost = ground (arith, c.lost);
      lost_since = ground (arith, c.lost_since);
    };
    moved = ground (arith, c.cycles, c.last, f.number, f.gap, f.ahead, f.near);
    more_lost = ground (arith, c.lost, c.last, f.number, f.gap, f.ahead, f.near);
    same_source = refl;
    received = refl;
  }

  -- The jitter is apart from the counters.
  time_packet-Counted :
      (r r' : RtcpReceiver T J) (pkt : Packet) (system : T) (d : ℕ)
      → Counted r r' pkt d
      → Counted r (time_packet clock r' pkt system) pkt d
  unfolding time_packet
  time_packet-Counted r r' pkt system d c = record {
    counting = record {
      begun = c.counting.begun;
      cycles = c.counting.cycles;
      last = c.counting.last;
      lost = c.counting.lost;
      lost_since = c.counting.lost_since;
    };
    moved = c.moved;
    more_lost = c.more_lost;
    same_source = c.same_source;
    received = c.received;
  }

  process_same_source :
      (r : RtcpReceiver T J) (pkt : Packet) (system : T) (eq : Bool)
      → r.first_rtp_packet_received ≡ true
      → pkt.ssrc ≡ r.remote_ssrc
      → (process_packet_rtp clock r pkt system eq).1 ≡ (
          if eq
          then time_packet clock (count_packet clock r pkt) pkt system
          else count_packet clock r pkt)
  unfolding process_packet_rtp
  process_same_source r pkt system eq h e = ground (arith, h, e)

  process_packet_rtp-Counted :
      (r : RtcpReceiver T J) (pkt : Packet) (system : T) (eq : Bool) (d : ℕ)
      → IsCounting r
      → Follows r.remote_ssrc r.last_sequence_number pkt d
      → Counted r (process_packet_rtp clock r pkt system eq).1 pkt d
  process_packet_rtp-Counted r pkt system eq d c f =
      subst (λ t. Counted r t pkt d) (sym (process_same_source r pkt system eq c.begun f.source))
        (either eq)
    where
      counted : Counted r (count_packet clock r pkt) pkt d
      counted = count_packet-Counted r pkt d c f

      either :
          (b : Bool)
          → Counted r
              (if b
                then time_packet clock (count_packet clock r pkt) pkt system
                else count_packet clock r pkt)
              pkt
              d
      either true = time_packet-Counted r (count_packet clock r pkt) pkt system d counted
      either false = counted

  -- A stream of the source `ssrc` behind the number `last`, with the distances between its packets.
  abbrev pub Flow : ℕ → ℕ → List (Packet × T × Bool) → List ℕ → Type 0
  Flow ssrc last [] [] = Unit
  Flow ssrc last ((pkt, system, eq) ∷ more) (d ∷ ds) =
      Follows ssrc last pkt d × Flow ssrc pkt.sequence_number more ds
  Flow ssrc last _ _ = ⊥

  abbrev pub distance : List ℕ → ℕ
  distance [] = 0
  distance (d ∷ ds) = d + distance ds

  abbrev pub skipped : List ℕ → ℕ
  skipped [] = 0
  skipped (d ∷ ds) = (d - 1) + skipped ds

  record CountedAll (r r' : RtcpReceiver T J) (ds : List ℕ) : Type 0 where
    counting : IsCounting r'
    moved : extended r' ≡ (extended r + distance ds) % 4294967296
    more_lost : r'.total_lost ≡ capped (r.total_lost + skipped ds)

  process_all-CountedAll :
      (r : RtcpReceiver T J) (stream : List (Packet × T × Bool)) (ds : List ℕ)
      → IsCounting r
      → Flow r.remote_ssrc r.last_sequence_number stream ds
      → CountedAll r (process_all clock r stream) ds
  unfolding process_all
  process_all-CountedAll r [] [] c f = record {
    counting = c;
    moved = ground (arith, c.cycles, c.last);
    more_lost = ground (arith, c.lost);
  }
  process_all-CountedAll r [] (d ∷ ds) c f = absurd f
  process_all-CountedAll r (x ∷ more) [] c f = absurd f
  process_all-CountedAll r ((pkt, system, eq) ∷ more) (d ∷ ds) c f =
      let one = process_packet_rtp-Counted r pkt system eq d c f.0 in
      let r1 = (process_packet_rtp clock r pkt system eq).1 in
      let rest = process_all-CountedAll r1 more ds one.counting (
        subst (λ n. Flow r1.remote_ssrc n more ds) (sym one.received)
          (subst (λ n. Flow n pkt.sequence_number more ds) (sym one.same_source) f.1)) in
      record {
        counting = rest.counting;
        moved = grind (arith, rest.moved, one.moved);
        more_lost = ground (arith, rest.more_lost, one.more_lost);
      }

  abbrev reported : RtcpReceiver T J → T → Report
  reported r now = record {
    sender = r.local_ssrc;
    source = r.remote_ssrc;
    last_sequence_number = extended r;
    fraction_lost = clock.fraction (u32 (r.total_lost_since_report * 256)) r.total_since_report;
    total_lost = r.total_lost;
    report_jitter = clock.whole_jitter r.jitter;
    last_sender_report =
        if r.first_sender_report_received then u32 (r.last_sender_report_time_ntp / 65536) else 0;
    report_delay =
        if r.first_sender_report_received
        then clock.delay now r.last_sender_report_time_system
        else 0;
  }

  report_begun :
      (r : RtcpReceiver T J) (now : T)
      → r.first_rtp_packet_received ≡ true
      → report clock r now
        ≡ (some (reported r now), record r { total_lost_since_report = 0; total_since_report = 0 })
  unfolding report
  report_begun r now h = ground (arith, h)

  -- After a stream of one source whose packets each come 1 to 61440 numbers after the one before
  -- (modulo 2 ^ 16), the report says as highest sequence number the old extended number plus all
  -- distances, modulo 2 ^ 32, so no cycle is missed or counted twice, and as lost packets the old
  -- ones plus the numbers that were skipped, at most 2 ^ 24 - 1.
  pub report-process_all :
      (r : RtcpReceiver T J) (stream : List (Packet × T × Bool)) (ds : List ℕ) (now : T)
      → IsCounting r
      → Flow r.remote_ssrc r.last_sequence_number stream ds
      → (rep : Report) × (r' : RtcpReceiver T J) × (report clock (process_all clock r stream) now
          ≡ (some rep, r'))
        × (rep.last_sequence_number ≡ (extended r + distance ds) % 4294967296)
        × (rep.total_lost ≡ capped (r.total_lost + skipped ds))
  report-process_all r stream ds now c f =
      let all = process_all-CountedAll r stream ds c f in
      (
        reported (process_all clock r stream) now,
        record (process_all clock r stream) { total_lost_since_report = 0; total_since_report = 0 },
        report_begun (process_all clock r stream) now all.counting.begun,
        all.moved,
        all.more_lost,
      )
