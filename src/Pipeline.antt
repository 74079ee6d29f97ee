-- ===== src/Pipeline.antt =====
-- The packet pipeline: `PacketConsumer` (src/App.cpp) with the route handlers, over the engines that
-- its pointers name. `enable_nat`, the mode, the threshold, the snapshot and the kernel's answer to a
-- `send` are what the packet meets on its way, so they are arguments.
pub mod Callbacks
pub mod Routing
pub mod Invariant
pub mod Account
pub mod Fate
use high_performance_gaming.Common.{
  ℕ, zero, suc, ◌+◌, ◌%◌, Bool, true, false, not, ◌&&◌, ◌||◌, ◌==◌, if◌then◌else◌, Option, none,
  some, List, [], ◌∷◌, ◌++◌,
}
use high_performance_gaming.Common.Array.{update}
use high_performance_gaming.Net.Bytes.{Memory, load16, ntohs}
use high_performance_gaming.Net.Packet.{Span, ParsedPacket, memory, udp, is_valid_ipv4}
use high_performance_gaming.NatEngine.State.{NatEngine}
use high_performance_gaming.NatEngine.Engine.{Outcome, process_inbound, process_outbound}
use high_performance_gaming.DhcpEngine.Pool.{DhcpEngine}
use high_performance_gaming.DhcpEngine.Service.{intercept_request}
use high_performance_gaming.Forwarding.{
  L2Snapshot, step_eth_rewrite_lan_to_wan, step_eth_rewrite_wan_to_lan,
}
use high_performance_gaming.Processor.{Priority, high, normal, process}
use high_performance_gaming.RingBuffer.ZeroAlloc.{Packet}
use high_performance_gaming.Scheduler.Float.{Float}
use high_performance_gaming.Scheduler.TxFrame.{
  Kernel, PacketTxTry, complete, busy, error, try_send_packet_nonblocking,
}
use high_performance_gaming.Scheduler.Shaper.{Shaper, enqueue_normal}
use high_performance_gaming.Telemetry.{
  BatchStats, Lanes, Metrics, add_stats, add64, no_stats, one_packet,
}
use high_performance_gaming.Pipeline.Callbacks.{CallbackRegistry, dispatch_packet, dispatch_batch}

-- The `n` bytes from `i` on.
unfoldable pub bytes_from : ℕ → ℕ → Memory → Packet
bytes_from zero i m = []
bytes_from (suc n) i m = m i ∷ bytes_from n (i + 1) m

-- The frame in a span.
abbrev pub frame_of : Span → Packet
frame_of s = bytes_from s.size 0 s.bytes

-- What the packet meets.
pub record World : Type 0 where
  pub enable_nat : Bool
  pub effective_bridge_mode : Bool
  pub large_packet_threshold : ℕ
  pub snapshot : L2Snapshot
  pub kernel : Kernel

abbrev pub drop_in : Priority → Lanes → Lanes
drop_in high d = record d { of_high = add64 d.of_high 1 }
drop_in normal d = record d { of_normal = add64 d.of_normal 1 }

abbrev pub is_dhcp_port : ParsedPacket → ℕ → Bool
is_dhcp_port pkt l4 =
    let dest = ntohs (load16 (memory pkt) (l4 + 2)) in (dest == 67) || (dest == 68)

-- The test of `step_dhcp_interceptor`.
unfoldable pub is_dhcp : ℕ → ParsedPacket → Bool
is_dhcp core_id pkt =
    if (core_id == 3) && is_valid_ipv4 pkt && (pkt.l4_protocol == 17)
    then elim (udp pkt) [ none ↦ false | some l4 ↦ is_dhcp_port pkt l4 ]
    else false

abbrev pub intercepted : Option DhcpEngine → ParsedPacket → Option DhcpEngine
intercepted none pkt = none
intercepted (some e) pkt = some (intercept_request e pkt)

module _ (F : Float) where
  -- A null pointer is `none`. `dropped` is the `dropped` of every core's metrics, `metrics` the rest of
  -- them, and `sent` the frames that `tx_fd` has taken whole, in order.
  pub record PacketConsumer : Type 0 where
    pub core_id : ℕ
    pub stats : BatchStats
    pub shaper : Option (Shaper F)
    pub nat_engine : Option NatEngine
    pub dhcp_engine : Option DhcpEngine
    pub callbacks : CallbackRegistry Metrics
    pub metrics : Metrics
    pub dropped : ℕ → Lanes
    pub sent : List Packet

  unfoldable pub after_try : PacketTxTry → PacketConsumer → Span → Priority → PacketConsumer
  after_try complete c pkt prio = record c { sent = c.sent ++ (frame_of pkt ∷ []) }
  after_try busy c pkt prio = record c {
    dropped = update c.dropped c.core_id (drop_in prio (c.dropped c.core_id));
  }
  after_try error c pkt prio = record c {
    dropped = update c.dropped c.core_id (drop_in prio (c.dropped c.core_id));
  }

  -- `TxFrameOutput_util::send_best_effort`
  unfoldable pub send_best_effort : Kernel → PacketConsumer → Span → Priority → PacketConsumer
  send_best_effort k c pkt prio = after_try (try_send_packet_nonblocking pkt.size k) c pkt prio

  abbrev pub RouteFunc : Type 0
  RouteFunc = Kernel → PacketConsumer → Span → Priority → PacketConsumer

  abbrev pub fast_path_handler : RouteFunc
  fast_path_handler k c pkt prio = send_best_effort k c pkt prio

  unfoldable pub to_shaper : Option (Shaper F) → PacketConsumer → Span → PacketConsumer
  to_shaper none c pkt = c
  to_shaper (some s) c pkt = record c { shaper = some (enqueue_normal F s (frame_of pkt)) }

  unfoldable pub shaper_handler : RouteFunc
  shaper_handler k c pkt prio = to_shaper c.shaper c pkt

  -- `routes[mode][prio]`: acceleration is mode 0, the bridge mode 1.
  unfoldable pub routes : Bool → Priority → RouteFunc
  routes false high = fast_path_handler
  routes false normal = shaper_handler
  routes true high = fast_path_handler
  routes true normal = fast_path_handler

  -- Whether the step has dealt with the packet, the consumer and the packet as the step leaves them.
  abbrev pub Stepped : Type 0
  Stepped = Bool × PacketConsumer × ParsedPacket

  abbrev pub PipelineStep : Type 0
  PipelineStep = World → PacketConsumer → ParsedPacket → Stepped

  unfoldable pub step_dhcp_interceptor : PipelineStep
  step_dhcp_interceptor w c pkt =
      if is_dhcp c.core_id pkt
      then (true, record c { dhcp_engine = intercepted c.dhcp_engine pkt }, pkt)
      else (false, c, pkt)

  abbrev pub engine_step :
      (NatEngine → ParsedPacket → Outcome)
      → Option NatEngine
      → PacketConsumer
      → ParsedPacket
      → Stepped
  engine_step call none c pkt = (false, c, pkt)
  engine_step call (some e) c pkt =
      let (done, e', pkt') = call e pkt in (false, record c { nat_engine = some e' }, pkt')

  unfoldable pub step_nat_downstream : PipelineStep
  step_nat_downstream w c pkt =
      if not w.enable_nat then (false, c, pkt) else engine_step process_inbound c.nat_engine c pkt

  unfoldable pub step_nat_upstream : PipelineStep
  step_nat_upstream w c pkt =
      if not w.enable_nat then (false, c, pkt) else engine_step process_outbound c.nat_engine c pkt

  -- The two rewriting steps leave the consumer as it is.
  abbrev pub step_to_wan : PipelineStep
  step_to_wan w c pkt =
      let (done, pkt') = step_eth_rewrite_lan_to_wan w.enable_nat w.snapshot pkt in (done, c, pkt')

  abbrev pub step_to_lan : PipelineStep
  step_to_lan w c pkt =
      let (done, pkt') = step_eth_rewrite_wan_to_lan w.enable_nat w.snapshot pkt in (done, c, pkt')

  unfoldable pub step_qos_routing : PipelineStep
  step_qos_routing w c pkt =
      let prio = process w.large_packet_threshold pkt in
      let c' = record c {
        stats = add_stats c.stats (one_packet prio pkt.raw_span.size);
        metrics = dispatch_packet c.callbacks pkt prio c.metrics;
      } in
      (true, routes w.effective_bridge_mode prio w.kernel c' pkt.raw_span prio, pkt)

  -- `pipeline.steps` as the constructor fills it, less the null entries at its end: on core 2 (`true`)
  -- and on the other.
  unfoldable pub steps_for : Bool → List PipelineStep
  steps_for true = step_dhcp_interceptor ∷ step_nat_downstream ∷ step_to_lan ∷ step_qos_routing ∷ []
  steps_for false =
      step_dhcp_interceptor ∷ step_nat_downstream ∷ step_nat_upstream ∷ step_to_wan
      ∷ step_qos_routing ∷ []

  unfoldable pub pipeline_steps : ℕ → List PipelineStep
  pipeline_steps core_id = steps_for (core_id == 2)

  abbrev pub after_step : Stepped → (PacketConsumer → ParsedPacket → Stepped) → Stepped
  after_step (true, c, pkt) rest = (true, c, pkt)
  after_step (false, c, pkt) rest = rest c pkt

  -- The loop over the steps: it ends with the first that has dealt with the packet. The first part of
  -- the result says whether one has.
  unfoldable pub run_steps : List PipelineStep → PipelineStep
  run_steps [] w c pkt = (false, c, pkt)
  run_steps (step ∷ steps) w c pkt = after_step (step w c pkt) (run_steps steps w)

  -- The end of `on_packet_event`: the batch goes out where its count is a multiple of 32.
  unfoldable pub commit : PacketConsumer → PacketConsumer
  commit c =
      if c.stats.pkts % 32 == 0
      then record c {
        metrics = dispatch_batch c.callbacks c.stats c.core_id c.metrics;
        stats = no_stats;
      }
      else c

  unfoldable pub on_packet_event : World → PacketConsumer → ParsedPacket → PacketConsumer
  on_packet_event w c pkt = commit (run_steps (pipeline_steps c.core_id) w c pkt).1

  -- A run of packets, each with what it meets.
  unfoldable pub on_packet_events : PacketConsumer → List (World × ParsedPacket) → PacketConsumer
  on_packet_events c [] = c
  on_packet_events c ((w, pkt) ∷ rest) = on_packet_events (on_packet_event w c pkt) rest
