-- ===== src/Pipeline/Routing.antt =====
-- The ways through the pipeline.
use high_performance_gaming.Common.{
  ◌≡◌, ◌≢◌, ◌⊎◌, inl, inr, arith, Bool, true, false, not, ◌==◌, if◌then◌else◌, Bool-cases, Option,
  none, some, [], ◌∷◌, ◌++◌, refl, ap,
}
use high_performance_gaming.Common.Array.{update}
use high_performance_gaming.Net.Packet.{ParsedPacket}
use high_performance_gaming.NatEngine.State.{NatEngine}
use high_performance_gaming.NatEngine.Engine.{Outcome, process_inbound, process_outbound}
use high_performance_gaming.Forwarding.{step_eth_rewrite_lan_to_wan, step_eth_rewrite_wan_to_lan}
use high_performance_gaming.Processor.{Priority, high, normal, process}
use high_performance_gaming.Scheduler.Float.{Float}
use high_performance_gaming.Scheduler.TxFrame.{
  PacketTxTry, complete, busy, error, try_send_packet_nonblocking,
}
use high_performance_gaming.Scheduler.Shaper.{Shaper, enqueue_normal}
use high_performance_gaming.Telemetry.{add_stats, one_packet}
use high_performance_gaming.Pipeline.Callbacks.{dispatch_packet}
use high_performance_gaming.Pipeline.{
  World, PacketConsumer, Stepped, drop_in, frame_of, send_best_effort, after_try, to_shaper,
  engine_step, shaper_handler, routes, is_dhcp, intercepted, step_dhcp_interceptor,
  step_nat_downstream, step_nat_upstream, step_qos_routing, steps_for, pipeline_steps, after_step,
  run_steps,
}

-- The engine and the packet after one of the two NAT steps.
abbrev pub called :
    (NatEngine → ParsedPacket → Outcome)
    → Bool
    → Option NatEngine
    → ParsedPacket
    → Option NatEngine × ParsedPacket
called call enable none pkt = (none, pkt)
called call false (some e) pkt = (some e, pkt)
called call true (some e) pkt = (some (call e pkt).1, (call e pkt).2)

-- Core 2 (`true`) translates packets from the WAN; the other core translates both ways.
abbrev pub translated :
    Bool → Bool → Option NatEngine → ParsedPacket → Option NatEngine × ParsedPacket
translated true enable e pkt = called process_inbound enable e pkt
translated false enable e pkt =
    let (e', pkt') = called process_inbound enable e pkt in called process_outbound enable e' pkt'

-- Whether the packet is dropped for want of a next hop, and the packet with its new addresses.
abbrev pub readdressed : Bool → World → ParsedPacket → Bool × ParsedPacket
readdressed true w pkt = step_eth_rewrite_wan_to_lan w.enable_nat w.snapshot pkt
readdressed false w pkt = step_eth_rewrite_lan_to_wan w.enable_nat w.snapshot pkt

module _ (F : Float) where
  -- The consumer that has counted the packet and told its subscribers.
  abbrev pub counted : World → PacketConsumer F → ParsedPacket → PacketConsumer F
  counted w c pkt = record c {
    stats = add_stats c.stats (one_packet (process w.large_packet_threshold pkt) pkt.raw_span.size);
    metrics = dispatch_packet c.callbacks pkt (process w.large_packet_threshold pkt) c.metrics;
  }

  abbrev pub IsFast : World → ParsedPacket → Type 0
  IsFast w pkt = (w.effective_bridge_mode ≡ true) ⊎ (process w.large_packet_threshold pkt ≡ high)

  abbrev pub IsThrottled : World → ParsedPacket → Type 0
  IsThrottled w pkt =
      (w.effective_bridge_mode ≡ false) × (process w.large_packet_threshold pkt ≡ normal)

  -- What the routing step makes of a packet, besides counting it: a frame on the wire, a drop in its lane,
  -- or a frame for the shaper.
  pub data Routed (w : World) (c : PacketConsumer F) (pkt : ParsedPacket)
      : PacketConsumer F → Type 0 where
    transmitted :
        IsFast w pkt
        → try_send_packet_nonblocking pkt.raw_span.size w.kernel ≡ complete
        → Routed w c pkt
            (record (counted w c pkt) { sent = c.sent ++ (frame_of pkt.raw_span ∷ []) })
    dropped_fast :
        IsFast w pkt
        → try_send_packet_nonblocking pkt.raw_span.size w.kernel ≢ complete
        → Routed w c pkt (record (counted w c pkt) {
          dropped =
              update c.dropped c.core_id
                (drop_in (process w.large_packet_threshold pkt) (c.dropped c.core_id));
        })
    shaped :
        (s : Shaper F)
        → IsThrottled w pkt
        → c.shaper ≡ some s
        → Routed w c pkt (record (counted w c pkt) {
          shaper = some (enqueue_normal F s (frame_of pkt.raw_span));
        })
    unshaped : IsThrottled w pkt → c.shaper ≡ none → Routed w c pkt (counted w c pkt)

  abbrev pub engine_after : Bool → World → PacketConsumer F → ParsedPacket → Option NatEngine
  engine_after two w c pkt = (translated two w.enable_nat c.nat_engine pkt).0

  -- What the steps before the routing step come to, for a packet that is not for the DHCP server.
  abbrev pub prepared : Bool → World → PacketConsumer F → ParsedPacket → Bool × ParsedPacket
  prepared two w c pkt = readdressed two w (translated two w.enable_nat c.nat_engine pkt).1

  -- What the pipeline makes of a packet: a DHCP packet goes to the server, one with no next hop to
  -- nobody, and all others, translated and addressed anew, to the routing step.
  pub data Ran (two : Bool) (w : World) (c : PacketConsumer F) (pkt : ParsedPacket)
      : Stepped F → Type 0 where
    to_server :
        is_dhcp c.core_id pkt ≡ true
        → Ran two w c pkt (true, record c { dhcp_engine = intercepted c.dhcp_engine pkt }, pkt)
    unresolved :
        is_dhcp c.core_id pkt ≡ false
        → (prepared two w c pkt).0 ≡ true
        → Ran two w c pkt
            (true, record c { nat_engine = engine_after two w c pkt }, (prepared two w c pkt).1)
    forwarded :
        (c' : PacketConsumer F)
        → is_dhcp c.core_id pkt ≡ false
        → (prepared two w c pkt).0 ≡ false
        → Routed w (record c { nat_engine = engine_after two w c pkt }) (prepared two w c pkt).1 c'
        → Ran two w c pkt (true, c', (prepared two w c pkt).1)

  try-Routed :
      (w : World) (c : PacketConsumer F) (pkt : ParsedPacket) (r : PacketTxTry)
      → IsFast w pkt
      → try_send_packet_nonblocking pkt.raw_span.size w.kernel ≡ r
      → Routed w c pkt
          (after_try F r (counted w c pkt) pkt.raw_span (process w.large_packet_threshold pkt))
  unfolding after_try
  try-Routed w c pkt complete f h = transmitted f h
  try-Routed w c pkt busy f h = dropped_fast f (ground (arith, h))
  try-Routed w c pkt error f h = dropped_fast f (ground (arith, h))

  shaper-Routed :
      (w : World) (c : PacketConsumer F) (pkt : ParsedPacket) (o : Option (Shaper F))
      → IsThrottled w pkt
      → c.shaper ≡ o
      → Routed w c pkt (to_shaper F o (counted w c pkt) pkt.raw_span)
  unfolding to_shaper
  shaper-Routed w c pkt none t h = unshaped t h
  shaper-Routed w c pkt (some s) t h = shaped s t h

  routing-Routed :
      (w : World) (c : PacketConsumer F) (pkt : ParsedPacket)
      → Routed w c pkt (step_qos_routing F w c pkt).1
  unfolding step_qos_routing routes send_best_effort shaper_handler
  routing-Routed w c pkt =
      go w.effective_bridge_mode refl (process w.large_packet_threshold pkt) refl
    where
      go :
          (b : Bool)
          → w.effective_bridge_mode ≡ b
          → (prio : Priority) → process w.large_packet_threshold pkt ≡ prio
          → Routed w c pkt (
              routes F b prio w.kernel
                (counted w c pkt)
                pkt.raw_span
                (process w.large_packet_threshold pkt))
      go false hb high hp = try-Routed w c pkt _ (inr hp) refl
      go false hb normal hp = shaper-Routed w c pkt _ (hb, hp) refl
      go true hb high hp = try-Routed w c pkt _ (inl hb) refl
      go true hb normal hp = try-Routed w c pkt _ (inl hb) refl

  engine_step_lem :
      (call : NatEngine → ParsedPacket → Outcome) (enable : Bool) (o : Option NatEngine)
      (c : PacketConsumer F) (pkt : ParsedPacket)
      → c.nat_engine ≡ o
      → let r = called call enable o pkt in
        (if not enable then (false, c, pkt) else engine_step F call o c pkt)
        ≡ (false, record c { nat_engine = r.0 }, r.1)
  engine_step_lem call false none c pkt h = ap (λ o. (false, record c { nat_engine = o }, pkt)) h
  engine_step_lem call true none c pkt h = ap (λ o. (false, record c { nat_engine = o }, pkt)) h
  engine_step_lem call false (some e) c pkt h =
      ap (λ o. (false, record c { nat_engine = o }, pkt)) h
  engine_step_lem call true (some e) c pkt h = refl

  -- The last step, and the one before it.
  finish-Ran :
      (two : Bool) (w : World) (c : PacketConsumer F) (pkt : ParsedPacket) (done : Bool)
      → is_dhcp c.core_id pkt ≡ false
      → (prepared two w c pkt).0 ≡ done
      → Ran two w c pkt (
          after_step F
            (done, record c { nat_engine = engine_after two w c pkt }, (prepared two w c pkt).1)
            (run_steps F (step_qos_routing F ∷ []) w))
  unfolding run_steps step_qos_routing
  finish-Ran two w c pkt true b h = unresolved b h
  finish-Ran two w c pkt false b h = forwarded _ b h (
      routing-Routed w (record c { nat_engine = engine_after two w c pkt })
        (prepared two w c pkt).1)

  steps-Ran :
      (two : Bool) (w : World) (c : PacketConsumer F) (pkt : ParsedPacket)
      → is_dhcp c.core_id pkt ≡ false
      → Ran two w c pkt (run_steps F (steps_for F two) w c pkt)
  unfolding run_steps steps_for step_dhcp_interceptor step_nat_downstream step_nat_upstream
  steps-Ran true w c pkt b =
      let down = engine_step_lem process_inbound w.enable_nat c.nat_engine c pkt refl in
      rw (b, down) (finish-Ran true w c pkt _ b refl)
  steps-Ran false w c pkt b =
      let r = called process_inbound w.enable_nat c.nat_engine pkt in
      let down = engine_step_lem process_inbound w.enable_nat c.nat_engine c pkt refl in
      let up =
        engine_step_lem process_outbound w.enable_nat r.0 (record c { nat_engine = r.0 }) r.1
          refl in
      rw (b, down, up) (finish-Ran false w c pkt _ b refl)

  dhcp-Ran :
      (two : Bool) (w : World) (c : PacketConsumer F) (pkt : ParsedPacket)
      → is_dhcp c.core_id pkt ≡ true
      → Ran two w c pkt (run_steps F (steps_for F two) w c pkt)
  unfolding run_steps steps_for step_dhcp_interceptor
  dhcp-Ran true w c pkt b = rw b (to_server b)
  dhcp-Ran false w c pkt b = rw b (to_server b)

  pub pipeline-Ran :
      (w : World) (c : PacketConsumer F) (pkt : ParsedPacket)
      → Ran (c.core_id == 2) w c pkt (run_steps F (pipeline_steps F c.core_id) w c pkt)
  unfolding pipeline_steps
  pipeline-Ran w c pkt = elim (Bool-cases (is_dhcp c.core_id pkt)) [
    | inl b ↦ dhcp-Ran _ w c pkt b
    | inr b ↦ steps-Ran _ w c pkt b
  ]
