-- ===== src/Telemetry/LaneTotals.antt =====
-- No packet is lost from a lane's counters, or counted in the other lane.
use high_performance_gaming.Common.{ℕ, ◌+◌, ◌%◌, ◌<◌, ◌≡◌, arith, List, [], ◌∷◌}
use high_performance_gaming.Processor.{Priority, high, normal}
use high_performance_gaming.Telemetry.{
  Lanes, Counting, Event, handled, routed, commit_batch, count_packet, count_event, close_batch,
  count_events, u64_mod,
}
use high_performance_gaming.Telemetry.Conservation.{total, packets_in, bytes_in, count_events-total}

-- The counter of a lane.
abbrev pub of_lane : Priority → Lanes → ℕ
of_lane high l = l.of_high
of_lane normal l = l.of_normal

-- A number that counts where the packet is of the lane.
abbrev pub where_lane : Priority → Priority → ℕ → ℕ
where_lane high high n = n
where_lane high normal n = 0
where_lane normal high n = 0
where_lane normal normal n = n

-- The packets and the bytes that the routing step has seen of a lane.
abbrev pub lane_packets_in : Priority → List Event → ℕ
lane_packets_in lane [] = 0
lane_packets_in lane (handled ∷ events) = lane_packets_in lane events
lane_packets_in lane (routed prio size ∷ events) =
    where_lane lane prio 1 + lane_packets_in lane events

abbrev pub lane_bytes_in : Priority → List Event → ℕ
lane_bytes_in lane [] = 0
lane_bytes_in lane (handled ∷ events) = lane_bytes_in lane events
lane_bytes_in lane (routed prio size ∷ events) =
    where_lane lane prio size + lane_bytes_in lane events

-- The two counters of the lane have grown by what the events say, modulo 2 ^ 64.
abbrev LaneCounted : Priority → ℕ → Counting → Counting → List Event → Type 0
LaneCounted lane core_id c c' events =
    (total (λ s. of_lane lane s.prio_pkts) core_id c' % u64_mod
      ≡ (total (λ s. of_lane lane s.prio_pkts) core_id c + lane_packets_in lane events) % u64_mod)
    × (total (λ s. of_lane lane s.prio_bytes) core_id c' % u64_mod
        ≡ (total (λ s. of_lane lane s.prio_bytes) core_id c + lane_bytes_in lane events) % u64_mod)

one_event :
    (lane : Priority) (core_id : ℕ) (c : Counting) (event : Event)
    → core_id < 4
    → LaneCounted lane core_id c (count_event core_id c event) (event ∷ [])
unfolding count_event close_batch count_packet commit_batch
one_event high core_id c handled h = ground arith
one_event high core_id c (routed high size) h = ground arith
one_event high core_id c (routed normal size) h = ground arith
one_event normal core_id c handled h = ground arith
one_event normal core_id c (routed high size) h = ground arith
one_event normal core_id c (routed normal size) h = ground arith

count_events-LaneCounted :
    (lane : Priority) (core_id : ℕ) (c : Counting) (events : List Event)
    → core_id < 4
    → LaneCounted lane core_id c (count_events core_id c events) events
unfolding count_events
count_events-LaneCounted lane core_id c [] h = (omega arith, omega arith)
count_events-LaneCounted lane core_id c (handled ∷ events) h =
    let one = one_event lane core_id c handled h in
    let rest = count_events-LaneCounted lane core_id (count_event core_id c handled) events h in
    (omega (arith, one, rest), omega (arith, one, rest))
count_events-LaneCounted lane core_id c (routed prio size ∷ events) h =
    let event = routed prio size in
    let one = one_event lane core_id c event h in
    let rest = count_events-LaneCounted lane core_id (count_event core_id c event) events h in
    (omega (arith, one, rest), omega (arith, one, rest))

-- All packets and their bytes, and those of each lane, have been counted.
abbrev pub AllCounted : ℕ → Counting → Counting → List Event → Type 0
AllCounted core_id before after events =
    (total (λ s. s.pkts) core_id after % u64_mod
      ≡ (total (λ s. s.pkts) core_id before + packets_in events) % u64_mod)
    × (total (λ s. s.bytes) core_id after % u64_mod
        ≡ (total (λ s. s.bytes) core_id before + bytes_in events) % u64_mod)
    × LaneCounted high core_id before after events
    × LaneCounted normal core_id before after events

pub count_events-AllCounted :
    (core_id : ℕ) (c : Counting) (events : List Event)
    → core_id < 4
    → AllCounted core_id c (count_events core_id c events) events
count_events-AllCounted core_id c events h =
    let sums = count_events-total core_id c events h in
    (
      sums.0,
      sums.1,
      count_events-LaneCounted high core_id c events h,
      count_events-LaneCounted normal core_id c events h,
    )
