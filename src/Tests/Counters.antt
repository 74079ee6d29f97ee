-- ===== src/Tests/Counters.antt =====
-- Runs of the classifier and of the counters.
use high_performance_gaming.Common.{◌+◌, ◌%◌, ◌≡◌, ◌↔◌, arith, List, [], ◌∷◌, refl}
use high_performance_gaming.Net.Packet.{parse}
use high_performance_gaming.Net.Bytes.{load16, ntohs}
use high_performance_gaming.Processor.{high, normal, process, protocol_handlers, handle_udp}
use high_performance_gaming.Processor.Lanes.{IsInteractive, process-IsInteractive}
use high_performance_gaming.Telemetry.{
  Counting, Event, handled, routed, no_stats, count_events, u64_mod,
}
use high_performance_gaming.Telemetry.Conservation.{
  total, packets_in, bytes_in, high_in, count_events-total,
}
use high_performance_gaming.Tests.Frames.{query_packet}

-- A question to the name service, above the threshold.
query_high : process 40 query_packet ≡ high
unfolding process protocol_handlers handle_udp parse load16 ntohs
query_high = refl

process-IsInteractive_example : (process 40 query_packet ≡ high) ↔ IsInteractive 40 query_packet
process-IsInteractive_example = process-IsInteractive 40 query_packet

abbrev start : Counting
start = record { stats = no_stats; metrics = λ core. no_stats }

abbrev events : List Event
events = routed high 60 ∷ handled ∷ routed normal 1500 ∷ []

count_events-total_example :
    let c' = count_events 2 start events in
    (total (λ s. s.pkts) 2 c' % u64_mod
      ≡ (total (λ s. s.pkts) 2 start + packets_in events) % u64_mod)
    × (total (λ s. s.bytes) 2 c' % u64_mod
        ≡ (total (λ s. s.bytes) 2 start + bytes_in events) % u64_mod)
    × (total (λ s. s.prio_pkts.of_high) 2 c' % u64_mod
        ≡ (total (λ s. s.prio_pkts.of_high) 2 start + high_in events) % u64_mod)
count_events-total_example = count_events-total 2 start events (omega arith)
