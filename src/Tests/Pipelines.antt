-- ===== src/Tests/Pipelines.antt =====
-- A query through the pipeline of core 3.
use high_performance_gaming.Common.{arith, refl, true, false, some, List, [], ◌∷◌}
use high_performance_gaming.NatEngine.State.{new_engine}
use high_performance_gaming.Scheduler.TxFrame.{wrote}
use high_performance_gaming.Scheduler.Shaper.{new_shaper}
use high_performance_gaming.Telemetry.{no_stats, no_lanes}
use high_performance_gaming.Net.Packet.{ParsedPacket}
use high_performance_gaming.Pipeline.{
  run_steps, pipeline_steps, World, PacketConsumer, on_packet_events,
}
use high_performance_gaming.Pipeline.Callbacks.{app_events}
use high_performance_gaming.Pipeline.Fate.{Fate, pipeline-Fate}
use high_performance_gaming.Pipeline.Account.{counting, events_of, on_packet_events-total}
use high_performance_gaming.Telemetry.LaneTotals.{AllCounted}
use high_performance_gaming.Tests.Wholes.{whole, wholes}
use high_performance_gaming.Tests.Frames.{query_packet, answer_packet}
use high_performance_gaming.Tests.Hops.{snapshot}
use high_performance_gaming.Tests.Leases.{blank}

abbrev world : World
world = record {
  enable_nat = true;
  effective_bridge_mode = false;
  large_packet_threshold = 1000;
  snapshot = snapshot;
  kernel = record { interrupts = 1; result = wrote 42 };
}

abbrev consumer : PacketConsumer wholes
consumer = record {
  core_id = 3;
  stats = no_stats;
  shaper = some (new_shaper wholes (whole 50) (whole 0));
  nat_engine = some new_engine;
  dhcp_engine = some blank;
  callbacks = app_events;
  metrics = λ core. no_stats;
  dropped = λ core. no_lanes;
  sent = [];
}

pipeline-Fate_example :
    Fate wholes world consumer query_packet
      (run_steps wholes (pipeline_steps wholes consumer.core_id) world consumer query_packet)
pipeline-Fate_example = pipeline-Fate wholes world consumer query_packet

abbrev packets : List (World × ParsedPacket)
packets = (world, query_packet) ∷ (world, answer_packet) ∷ []

on_packet_events-total_example :
    AllCounted consumer.core_id
      (counting wholes consumer)
      (counting wholes (on_packet_events wholes consumer packets))
      (events_of wholes consumer packets)
on_packet_events-total_example = on_packet_events-total wholes consumer packets refl (omega arith)
