-- ===== src/Telemetry/Conservation.antt =====
-- No packet is lost from the counters, or counted twice.
use high_performance_gaming.Common.{ℕ, ◌+◌, ◌%◌, ◌<◌, ◌≡◌, arith, List, [], ◌∷◌}
use high_performance_gaming.Processor.{high, normal}
use high_performance_gaming.Telemetry.{
  BatchStats, Counting, Event, handled, routed, commit_batch, count_packet, count_event,
  close_batch, count_events, u64_mod,
}

-- The packets and the bytes that the routing step has seen.
abbrev pub packets_in : List Event → ℕ
packets_in [] = 0
packets_in (handled ∷ events) = packets_in events
packets_in (routed prio size ∷ events) = 1 + packets_in events

abbrev pub bytes_in : List Event → ℕ
bytes_in [] = 0
bytes_in (handled ∷ events) = bytes_in events
bytes_in (routed prio size ∷ events) = size + bytes_in events

abbrev pub high_in : List Event → ℕ
high_in [] = 0
high_in (handled ∷ events) = high_in events
high_in (routed high size ∷ events) = 1 + high_in events
high_in (routed normal size ∷ events) = high_in events

-- One counter, in the metrics of this core and in the batch, taken together.
abbrev pub total : (BatchStats → ℕ) → ℕ → Counting → ℕ
total field core_id c = field (c.metrics core_id) + field c.stats

one_event :
    (core_id : ℕ) (c : Counting) (event : Event)
    → core_id < 4
    → let c' = count_event core_id c event in
      (total (λ s. s.pkts) core_id c' % u64_mod
        ≡ (total (λ s. s.pkts) core_id c + packets_in (event ∷ [])) % u64_mod)
      × (total (λ s. s.bytes) core_id c' % u64_mod
          ≡ (total (λ s. s.bytes) core_id c + bytes_in (event ∷ [])) % u64_mod)
      × (total (λ s. s.prio_pkts.of_high) core_id c' % u64_mod
          ≡ (total (λ s. s.prio_pkts.of_high) core_id c + high_in (event ∷ [])) % u64_mod)
unfolding count_event close_batch count_packet commit_batch
one_event core_id c handled h = ground arith
one_event core_id c (routed high size) h = ground arith
one_event core_id c (routed normal size) h = ground arith

-- On a core with metrics of its own, for any run of packets: the packets, the bytes and the packets
-- of the High lane that the metrics and the open batch count together have grown by those that were
-- routed, modulo 2 ^ 64.
pub count_events-total :
    (core_id : ℕ) (c : Counting) (events : List Event)
    → core_id < 4
    → let c' = count_events core_id c events in
      (total (λ s. s.pkts) core_id c' % u64_mod
        ≡ (total (λ s. s.pkts) core_id c + packets_in events) % u64_mod)
      × (total (λ s. s.bytes) core_id c' % u64_mod
          ≡ (total (λ s. s.bytes) core_id c + bytes_in events) % u64_mod)
      × (total (λ s. s.prio_pkts.of_high) core_id c' % u64_mod
          ≡ (total (λ s. s.prio_pkts.of_high) core_id c + high_in events) % u64_mod)
unfolding count_events
count_events-total core_id c [] h = (omega arith, omega arith, omega arith)
count_events-total core_id c (handled ∷ events) h =
    let one = one_event core_id c handled h in
    let rest = count_events-total core_id (count_event core_id c handled) events h in
    (omega (arith, one, rest), omega (arith, one, rest), omega (arith, one, rest))
count_events-total core_id c (routed high size ∷ events) h =
    let one = one_event core_id c (routed high size) h in
    let rest = count_events-total core_id (count_event core_id c (routed high size)) events h in
    (omega (arith, one, rest), omega (arith, one, rest), omega (arith, one, rest))
count_events-total core_id c (routed normal size ∷ events) h =
    let one = one_event core_id c (routed normal size) h in
    let rest = count_events-total core_id (count_event core_id c (routed normal size)) events h in
    (omega (arith, one, rest), omega (arith, one, rest), omega (arith, one, rest))
