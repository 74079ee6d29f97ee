-- ===== src/Pipeline/Fate.antt =====
-- Where a packet ends.
use high_performance_gaming.Common.{
  ℕ, ◌+◌, ◌%◌, ◌^◌, ◌≡◌, ◌≢◌, ◌⊎◌, inl, inr, arith, true, false, ◌==◌, Option, none, some, [], ◌∷◌,
  ◌++◌, refl,
}
use high_performance_gaming.Common.Array.{update_self, update_ne}
use high_performance_gaming.Net.Bytes.{load16, ntohs}
use high_performance_gaming.Net.Packet.{ParsedPacket, memory, udp, is_valid_ipv4}
use high_performance_gaming.NatEngine.State.{NatEngine}
use high_performance_gaming.Processor.{Priority, high, normal, process}
use high_performance_gaming.Processor.Lanes.{IsInteractive, process-IsInteractive}
use high_performance_gaming.Scheduler.Float.{Float}
use high_performance_gaming.Scheduler.Shaper.{Shaper, enqueue_normal}
use high_performance_gaming.Telemetry.{Lanes}
use high_performance_gaming.Pipeline.{
  World, PacketConsumer, Stepped, drop_in, frame_of, is_dhcp, pipeline_steps, run_steps,
}
use high_performance_gaming.Pipeline.Routing.{
  IsFast, Routed, transmitted, dropped_fast, shaped, unshaped, prepared, Ran, to_server, unresolved,
  forwarded, pipeline-Ran,
}

-- A datagram to the DHCP server or a client, on core 3.
abbrev pub IsForDhcp : ℕ → ParsedPacket → Type 0
IsForDhcp core_id p =
    (core_id ≡ 3)
    × (is_valid_ipv4 p ≡ true)
    × (p.l4_protocol ≡ 17)
    × ((l4 : ℕ) × (udp p ≡ some l4)
        × ((ntohs (load16 (memory p) (l4 + 2)) ≡ 67) ⊎ (ntohs (load16 (memory p) (l4 + 2)) ≡ 68)))

for_dhcp : (core_id : ℕ) (p : ParsedPacket) → is_dhcp core_id p ≡ true → IsForDhcp core_id p
unfolding is_dhcp
for_dhcp core_id p h = ground (arith, h)

not-IsForDhcp : (core_id : ℕ) (p : ParsedPacket) → is_dhcp core_id p ≡ false → ¬ IsForDhcp core_id p
unfolding is_dhcp
not-IsForDhcp core_id p h d = ground (arith, h, d)

not-IsInteractive : (t : ℕ) (p : ParsedPacket) → process t p ≡ normal → ¬ IsInteractive t p
not-IsInteractive t p h i = ground (arith, h, (process-IsInteractive t p).1 i)

-- A frame more is counted as dropped: in the High lane for an interactive packet, else in the Normal lane.
abbrev pub DropCounted : ℕ → ParsedPacket → Lanes → Lanes → Type 0
DropCounted threshold p before after =
    (IsInteractive threshold p
      × (after.of_high ≡ (before.of_high + 1) % 2 ^ 64)
      × (after.of_normal ≡ before.of_normal))
    ⊎ ((¬ IsInteractive threshold p)
        × (after.of_high ≡ before.of_high)
        × (after.of_normal ≡ (before.of_normal + 1) % 2 ^ 64))

drop_in-DropCounted :
    (t : ℕ) (p : ParsedPacket) (prio : Priority) (d : Lanes)
    → process t p ≡ prio
    → DropCounted t p d (drop_in prio d)
drop_in-DropCounted t p high d h = inl ((process-IsInteractive t p).0 h, refl, refl)
drop_in-DropCounted t p normal d h = inr (not-IsInteractive t p h, refl, refl)

module _ (F : Float) where
  -- What has happened to the wire, the shaper and the drops, for the packet `p` as the last step meets it.
  pub data Outcome (w : World) (c : PacketConsumer F) (p : ParsedPacket) (c' : PacketConsumer F)
      : Type 0 where
    on_the_wire :
        (w.effective_bridge_mode ≡ true) ⊎ IsInteractive w.large_packet_threshold p
        → c'.sent ≡ c.sent ++ (frame_of p.raw_span ∷ [])
        → c'.shaper ≡ c.shaper
        → c'.dropped ≡ c.dropped
        → Outcome w c p c'
    dropped_one :
        (w.effective_bridge_mode ≡ true) ⊎ IsInteractive w.large_packet_threshold p
        → c'.sent ≡ c.sent
        → c'.shaper ≡ c.shaper
        → DropCounted w.large_packet_threshold p (c.dropped c.core_id) (c'.dropped c.core_id)
        → ((core : ℕ) → c.core_id ≢ core → c'.dropped core ≡ c.dropped core)
        → Outcome w c p c'
    throttled :
        (s : Shaper F)
        → w.effective_bridge_mode ≡ false
        → ¬ IsInteractive w.large_packet_threshold p
        → c.shaper ≡ some s
        → c'.shaper ≡ some (enqueue_normal F s (frame_of p.raw_span))
        → c'.sent ≡ c.sent
        → c'.dropped ≡ c.dropped
        → Outcome w c p c'
    vanished :
        w.effective_bridge_mode ≡ false
        → ¬ IsInteractive w.large_packet_threshold p
        → c.shaper ≡ none
        → c'.shaper ≡ none
        → c'.sent ≡ c.sent
        → c'.dropped ≡ c.dropped
        → Outcome w c p c'

  -- The packet's fate: for the server, lost for want of a next hop, or routed.
  pub data Fate (w : World) (c : PacketConsumer F) (pkt : ParsedPacket) : Stepped F → Type 0 where
    served :
        {c' : PacketConsumer F} {p : ParsedPacket}
        → IsForDhcp c.core_id pkt
        → c'.sent ≡ c.sent
        → c'.shaper ≡ c.shaper
        → c'.dropped ≡ c.dropped
        → c'.nat_engine ≡ c.nat_engine
        → p ≡ pkt
        → Fate w c pkt (true, c', p)
    lost :
        {c' : PacketConsumer F} {p : ParsedPacket}
        → ¬ IsForDhcp c.core_id pkt
        → (prepared F (c.core_id == 2) w c pkt).0 ≡ true
        → c'.sent ≡ c.sent
        → c'.shaper ≡ c.shaper
        → c'.dropped ≡ c.dropped
        → Fate w c pkt (true, c', p)
    routed :
        {c' : PacketConsumer F} {p : ParsedPacket}
        → ¬ IsForDhcp c.core_id pkt
        → (prepared F (c.core_id == 2) w c pkt).0 ≡ false
        → Outcome w c p c'
        → Fate w c pkt (true, c', p)

  fast :
      (w : World) (p : ParsedPacket)
      → IsFast F w p
      → (w.effective_bridge_mode ≡ true) ⊎ IsInteractive w.large_packet_threshold p
  fast w p (inl b) = inl b
  fast w p (inr h) = inr ((process-IsInteractive w.large_packet_threshold p).0 h)

  -- The steps before the last one change only the NAT engine.
  Routed-Outcome :
      (w : World) (c : PacketConsumer F) (e : Option NatEngine) (p : ParsedPacket)
      (c' : PacketConsumer F)
      → Routed F w (record c { nat_engine = e }) p c'
      → Outcome w c p c'
  Routed-Outcome w c e p _ (transmitted f h) = on_the_wire (fast w p f) refl refl refl
  Routed-Outcome w c e p _ (dropped_fast f h) =
      let t = w.large_packet_threshold in
      let d = drop_in (process t p) (c.dropped c.core_id) in
      dropped_one (fast w p f) refl refl
        (rw (update_self c.dropped c.core_id d)
          (drop_in-DropCounted t p (process t p) (c.dropped c.core_id) refl))
        (λ core ne. update_ne c.dropped c.core_id core d ne)
  Routed-Outcome w c e p _ (shaped s (b, n) h) =
      throttled s b (not-IsInteractive w.large_packet_threshold p n) h refl refl refl
  Routed-Outcome w c e p _ (unshaped (b, n) h) =
      vanished b (not-IsInteractive w.large_packet_threshold p n) h h refl refl

  Ran-Fate :
      (w : World) (c : PacketConsumer F) (pkt : ParsedPacket) (r : Stepped F)
      → Ran F (c.core_id == 2) w c pkt r
      → Fate w c pkt r
  Ran-Fate w c pkt _ (to_server d) = served (for_dhcp c.core_id pkt d) refl refl refl refl refl
  Ran-Fate w c pkt _ (unresolved d h) = lost (not-IsForDhcp c.core_id pkt d) h refl refl refl
  Ran-Fate w c pkt _ (forwarded c' d h r) =
      routed (not-IsForDhcp c.core_id pkt d) h (Routed-Outcome w c _ _ c' r)

  -- A UDP datagram over IPv4 to port 67 or 68 that core 3 meets is not translated, sent, shaped or counted as
  -- dropped. Every other packet that the rewriting step does not drop for want of a next hop is, as the steps
  -- leave it: sent as one frame behind those sent before, or counted as one drop in its lane, where it is
  -- interactive or the bridge mode is on; given to the shaper where it is neither; and gone where there is
  -- no shaper. A packet is interactive as `process-IsInteractive` says. No other frame is sent, no other
  -- drop is counted, and each packet has been dealt with by one of the steps.
  pub pipeline-Fate :
      (w : World) (c : PacketConsumer F) (pkt : ParsedPacket)
      → Fate w c pkt (run_steps F (pipeline_steps F c.core_id) w c pkt)
  pipeline-Fate w c pkt = Ran-Fate w c pkt _ (pipeline-Ran F w c pkt)
