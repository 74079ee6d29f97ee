-- ===== src/Telemetry.antt =====
-- The counters: `Telemetry::commit_batch` (include/Telemetry.hpp) and the batches of the packet
-- consumer (src/App.cpp), which reach it through the one observer that `App::start` registers.
pub mod Conservation
pub mod LaneTotals
use high_performance_gaming.Common.{
  ℕ, ◌+◌, ◌%◌, ◌^◌, Bool, List, [], ◌∷◌, leb, ltb, ◌==◌, if◌then◌else◌, ◌||◌,
}
use high_performance_gaming.Common.Array.{update}
use high_performance_gaming.Processor.{Priority, high, normal}

abbrev pub u64_mod : ℕ
u64_mod = 2 ^ 64

-- A pair of counters for the two lanes, `[2]` in the source.
pub record Lanes : Type 0 where
  pub of_high : ℕ
  pub of_normal : ℕ

pub record BatchStats : Type 0 where
  pub pkts : ℕ
  pub bytes : ℕ
  pub prio_pkts : Lanes
  pub prio_bytes : Lanes

abbrev pub no_lanes : Lanes
no_lanes = record { of_high = 0; of_normal = 0 }

-- `reset`
abbrev pub no_stats : BatchStats
no_stats = record { pkts = 0; bytes = 0; prio_pkts = no_lanes; prio_bytes = no_lanes }

abbrev pub add64 : ℕ → ℕ → ℕ
add64 a b = (a + b) % u64_mod

abbrev pub add_lanes : Lanes → Lanes → Lanes
add_lanes a b = record {
  of_high = add64 a.of_high b.of_high;
  of_normal = add64 a.of_normal b.of_normal;
}

-- The four counters of a `CoreMetrics` that a batch goes to.
abbrev pub add_stats : BatchStats → BatchStats → BatchStats
add_stats m s = record {
  pkts = add64 m.pkts s.pkts;
  bytes = add64 m.bytes s.bytes;
  prio_pkts = add_lanes m.prio_pkts s.prio_pkts;
  prio_bytes = add_lanes m.prio_bytes s.prio_bytes;
}

-- `core_metrics`, by core. A core below 0 is refused as one above 3 is.
abbrev pub Metrics : Type 0
Metrics = ℕ → BatchStats

unfoldable pub commit_batch : Metrics → BatchStats → ℕ → Metrics
commit_batch metrics s core_id =
    if leb 4 core_id then metrics else update metrics core_id (add_stats (metrics core_id) s)

-- What the earlier steps of the pipeline did with a packet: dealt with it, or left it to the routing
-- step, which counts it in its lane.
pub data Event : Type 0 where
  handled : Event
  routed : Priority → ℕ → Event

abbrev pub one_packet : Priority → ℕ → BatchStats
one_packet high size = record {
  pkts = 1;
  bytes = size;
  prio_pkts = record { of_high = 1; of_normal = 0 };
  prio_bytes = record { of_high = size; of_normal = 0 };
}
one_packet normal size = record {
  pkts = 1;
  bytes = size;
  prio_pkts = record { of_high = 0; of_normal = 1 };
  prio_bytes = record { of_high = 0; of_normal = size };
}

-- The counting in `step_qos_routing`.
unfoldable pub count_packet : BatchStats → Event → BatchStats
count_packet s handled = s
count_packet s (routed prio size) = add_stats s (one_packet prio size)

-- A consumer's batch and the metrics.
pub record Counting : Type 0 where
  pub stats : BatchStats
  pub metrics : Metrics

-- The end of `on_packet_event`: the batch is committed where its count is a multiple of 32.
unfoldable pub close_batch : ℕ → Counting → Counting
close_batch core_id c =
    if c.stats.pkts % 32 == 0
    then record { stats = no_stats; metrics = commit_batch c.metrics c.stats core_id }
    else c

unfoldable pub count_event : ℕ → Counting → Event → Counting
count_event core_id c event =
    close_batch core_id (record { stats = count_packet c.stats event; metrics = c.metrics })

unfoldable pub count_events : ℕ → Counting → List Event → Counting
count_events core_id c [] = c
count_events core_id c (event ∷ events) = count_events core_id (count_event core_id c event) events
