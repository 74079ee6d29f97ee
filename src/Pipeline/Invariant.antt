-- ===== src/Pipeline/Invariant.antt =====
-- The engines stay valid under whatever the pipeline meets.
use high_performance_gaming.Common.{
  ◌%◌, Bool, true, false, ◌==◌, Option, none, some, List, [], ◌∷◌, Bool-cases, inl, inr,
}
use high_performance_gaming.Net.Bytes.{IsBytes}
use high_performance_gaming.Net.Packet.{ParsedPacket, memory, check_at, daddr_at}
use high_performance_gaming.NatEngine.State.{NatEngine}
use high_performance_gaming.NatEngine.Engine.{Outcome, process_inbound, process_outbound}
use high_performance_gaming.NatEngine.Engine.Inbound.{
  Inbound, refused, delivered, echo_delivered, process_inbound-Inbound,
}
use high_performance_gaming.NatEngine.Engine.RewriteEcho.{rewrite_icmp-IsBytes}
use high_performance_gaming.NatEngine.Engine.HeaderSum.{rewrite-IsBytes}
use high_performance_gaming.NatEngine.Engine.Invariant.{
  process_inbound-IsValid, process_outbound-IsValid,
}
use high_performance_gaming.NatEngine.Engine.Invariant as NatInvariant
use high_performance_gaming.DhcpEngine.Pool.{DhcpEngine}
use high_performance_gaming.DhcpEngine.Service.{intercept_request}
use high_performance_gaming.DhcpEngine.Pool.Invariant as DhcpInvariant
use high_performance_gaming.Scheduler.Float.{Float}
use high_performance_gaming.Scheduler.Shaper.{Shaper}
use high_performance_gaming.Scheduler.Shaper.Order.{Ok}
use high_performance_gaming.Scheduler.Shaper.Enqueue.{enqueue_normal-Ok}
use high_performance_gaming.Pipeline.{
  World, PacketConsumer, Stepped, intercepted, commit, on_packet_event, on_packet_events,
}
use high_performance_gaming.Pipeline.Routing.{
  called, translated, engine_after, Routed, transmitted, dropped_fast, shaped, unshaped, Ran,
  to_server, unresolved, forwarded, pipeline-Ran,
}

-- What holds of the thing that a pointer names, if it names one.
pub data OfSome {A : Type 0} (P : A → Type 0) : Option A → Type 0 where
  of_none : OfSome P none
  of_some : (x : A) → P x → OfSome P (some x)

process_inbound-IsBytes :
    (e : NatEngine) (p : ParsedPacket)
    → IsBytes (memory p)
    → IsBytes (memory (process_inbound e p).2)
process_inbound-IsBytes e p b = go (process_inbound e p) (process_inbound-Inbound e p)
  where
    go : (r : Outcome) → Inbound e p r → IsBytes (memory r.2)
    go _ refused = b
    go _ (delivered ip l4 at_check idx addr port d) =
        rewrite-IsBytes (memory p) (check_at ip) at_check (daddr_at ip) _ addr port b
    go _ (echo_delivered ip icmp idx addr id d) =
        rewrite_icmp-IsBytes (memory p) _ (daddr_at ip) _ addr id (check_at ip) b

called-IsBytes :
    (enable : Bool) (o : Option NatEngine) (p : ParsedPacket)
    → IsBytes (memory p)
    → IsBytes (memory (called process_inbound enable o p).1)
called-IsBytes enable none p b = b
called-IsBytes false (some e) p b = b
called-IsBytes true (some e) p b = process_inbound-IsBytes e p b

called-IsValid :
    (call : NatEngine → ParsedPacket → Outcome) (enable : Bool) (o : Option NatEngine)
    (p : ParsedPacket)
    → ((e : NatEngine) → NatInvariant.IsValid e → NatInvariant.IsValid (call e p).1)
    → OfSome NatInvariant.IsValid o
    → OfSome NatInvariant.IsValid (called call enable o p).0
called-IsValid call enable none p keeps v = v
called-IsValid call false (some e) p keeps v = v
called-IsValid call true (some e) p keeps (of_some _ v) = of_some _ (keeps e v)

translated-IsValid :
    (two enable : Bool) (o : Option NatEngine) (p : ParsedPacket)
    → IsBytes (memory p)
    → OfSome NatInvariant.IsValid o
    → OfSome NatInvariant.IsValid (translated two enable o p).0
translated-IsValid true enable o p b v =
    called-IsValid process_inbound enable o p (λ e. process_inbound-IsValid e p) v
translated-IsValid false enable o p b v =
    let r = called process_inbound enable o p in
    called-IsValid process_outbound enable r.0 r.1
      (λ e. process_outbound-IsValid e r.1 (called-IsBytes enable o p b))
      (called-IsValid process_inbound enable o p (λ e. process_inbound-IsValid e p) v)

intercept-IsValid :
    (e : DhcpEngine) (p : ParsedPacket)
    → DhcpInvariant.IsValid e
    → DhcpInvariant.IsValid (intercept_request e p)
unfolding intercept_request
intercept-IsValid e p v = record {
  count_ok = v.count_ok;
  one_address = v.one_address;
  one_lease = v.one_lease;
}

intercepted-IsValid :
    (o : Option DhcpEngine) (p : ParsedPacket)
    → OfSome DhcpInvariant.IsValid o
    → OfSome DhcpInvariant.IsValid (intercepted o p)
intercepted-IsValid none p v = v
intercepted-IsValid (some e) p (of_some _ v) = of_some _ (intercept-IsValid e p v)

-- Each packet is a string of bytes.
pub data OfBytes : List (World × ParsedPacket) → Type 0 where
  no_more : OfBytes []
  of_bytes :
      {w : World} {p : ParsedPacket} {rest : List (World × ParsedPacket)}
      → IsBytes (memory p)
      → OfBytes rest
      → OfBytes ((w, p) ∷ rest)

module _ (F : Float) where
  -- The engines behind the pointers, and the shaper, are valid.
  pub record IsSound (c : PacketConsumer F) : Type 0 where
    pub nat_ok : OfSome NatInvariant.IsValid c.nat_engine
    pub dhcp_ok : OfSome DhcpInvariant.IsValid c.dhcp_engine
    pub shaper_ok : OfSome (Ok F) c.shaper

  of_some_lem : (s : Shaper F) → OfSome (Ok F) (some s) → Ok F s
  of_some_lem s (of_some _ v) = v

  Routed-IsSound :
      (w : World) (c : PacketConsumer F) (p : ParsedPacket) (c' : PacketConsumer F)
      → Routed F w c p c'
      → IsSound c
      → IsSound c'
  Routed-IsSound w c p _ (transmitted f h) v = record {
    nat_ok = v.nat_ok;
    dhcp_ok = v.dhcp_ok;
    shaper_ok = v.shaper_ok;
  }
  Routed-IsSound w c p _ (dropped_fast f h) v = record {
    nat_ok = v.nat_ok;
    dhcp_ok = v.dhcp_ok;
    shaper_ok = v.shaper_ok;
  }
  Routed-IsSound w c p _ (shaped s t h) v = record {
    nat_ok = v.nat_ok;
    dhcp_ok = v.dhcp_ok;
    shaper_ok = of_some _ (enqueue_normal-Ok F s _ (of_some_lem s (rw h at v.shaper_ok)));
  }
  Routed-IsSound w c p _ (unshaped t h) v = record {
    nat_ok = v.nat_ok;
    dhcp_ok = v.dhcp_ok;
    shaper_ok = v.shaper_ok;
  }

  Ran-IsSound :
      (two : Bool) (w : World) (c : PacketConsumer F) (p : ParsedPacket) (r : Stepped F)
      → Ran F two w c p r
      → IsBytes (memory p)
      → IsSound c
      → IsSound r.1
  Ran-IsSound two w c p _ (to_server d) b v = record {
    nat_ok = v.nat_ok;
    dhcp_ok = intercepted-IsValid c.dhcp_engine p v.dhcp_ok;
    shaper_ok = v.shaper_ok;
  }
  Ran-IsSound two w c p _ (unresolved d h) b v = record {
    nat_ok = translated-IsValid two w.enable_nat c.nat_engine p b v.nat_ok;
    dhcp_ok = v.dhcp_ok;
    shaper_ok = v.shaper_ok;
  }
  Ran-IsSound two w c p _ (forwarded c' d h r) b v =
      Routed-IsSound w (record c { nat_engine = engine_after F two w c p }) _ c' r
        (record {
          nat_ok = translated-IsValid two w.enable_nat c.nat_engine p b v.nat_ok;
          dhcp_ok = v.dhcp_ok;
          shaper_ok = v.shaper_ok;
        })

  commit-IsSound : (c : PacketConsumer F) → IsSound c → IsSound (commit F c)
  unfolding commit
  commit-IsSound c v = elim (Bool-cases (c.stats.pkts % 32 == 0)) [
    | inl now ↦ rw now (record { nat_ok = v.nat_ok; dhcp_ok = v.dhcp_ok; shaper_ok = v.shaper_ok })
    | inr later ↦ rw later v
  ]

  -- From sound engines, any run of packets of any bytes, with the settings, the snapshot and the kernel's
  -- answers changing from packet to packet, leaves the NAT engine, the DHCP engine and the shaper valid.
  pub on_packet_events-IsSound :
      (c : PacketConsumer F) (packets : List (World × ParsedPacket))
      → OfBytes packets
      → IsSound c
      → IsSound (on_packet_events F c packets)
  unfolding on_packet_events on_packet_event
  on_packet_events-IsSound c [] b v = v
  on_packet_events-IsSound c ((w, p) ∷ rest) (of_bytes b bs) v =
      on_packet_events-IsSound (on_packet_event F w c p) rest bs
        (commit-IsSound _ (Ran-IsSound (c.core_id == 2) w c p _ (pipeline-Ran F w c p) b v))
