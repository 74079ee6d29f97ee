-- ===== src/Pipeline/Account.antt =====
-- What the pipeline counts, and where the frames go.
use mathlib.Core.Path.{subst}
use high_performance_gaming.Common.{
  ℕ, ◌%◌, ◌<◌, ◌≡◌, ◌==◌, if◌then◌else◌, List, [], ◌∷◌, Bool-cases, inl, inr, refl, ap, ap₂, ◌∙◌,
  sym,
}
use high_performance_gaming.Net.Packet.{ParsedPacket}
use high_performance_gaming.Processor.{Priority, process}
use high_performance_gaming.Scheduler.Float.{Float}
use high_performance_gaming.Telemetry.{
  BatchStats, Counting, Event, handled, routed, count_packet, count_event, close_batch,
  count_events, commit_batch, no_stats,
}
use high_performance_gaming.Telemetry.LaneTotals.{AllCounted, count_events-AllCounted}
use high_performance_gaming.Pipeline.Callbacks.{app_events, dispatch_packet, dispatch_batch, notify}
use high_performance_gaming.Pipeline.{
  World, PacketConsumer, Stepped, is_dhcp, commit, on_packet_event, on_packet_events,
}
use high_performance_gaming.Pipeline.Routing.{
  prepared, Routed, transmitted, dropped_fast, shaped, unshaped, Ran, to_server, unresolved,
  forwarded, pipeline-Ran,
}

module _ (F : Float) where
  abbrev pub counting : PacketConsumer F → Counting
  counting c = record { stats = c.stats; metrics = c.metrics }

  -- What the counters are to make of a packet: DHCP and lost packets do not count.
  abbrev pub event_of : World → PacketConsumer F → ParsedPacket → Event
  event_of w c p =
      let (lost, p') = prepared F (c.core_id == 2) w c p in
      if is_dhcp c.core_id p
      then handled
      else if lost
      then handled
      else routed (process w.large_packet_threshold p') p'.raw_span.size

  abbrev pub events_of : PacketConsumer F → List (World × ParsedPacket) → List Event
  events_of c [] = []
  events_of c ((w, p) ∷ rest) = event_of w c p ∷ events_of (on_packet_event F w c p) rest

  -- Before the batch goes out.
  record Counts (c : PacketConsumer F) (event : Event) (c' : PacketConsumer F) : Type 0 where
    stats_ok : c'.stats ≡ count_packet c.stats event
    metrics_ok : c'.metrics ≡ c.metrics
    callbacks_same : c'.callbacks ≡ c.callbacks
    core_same : c'.core_id ≡ c.core_id

  quiet :
      (p : ParsedPacket) (prio : Priority) (m : ℕ → BatchStats)
      → dispatch_packet app_events p prio m ≡ m
  unfolding app_events dispatch_packet notify
  quiet p prio m = refl

  batch :
      (s : BatchStats) (core_id : ℕ) (m : ℕ → BatchStats)
      → dispatch_batch app_events s core_id m ≡ commit_batch m s core_id
  unfolding app_events dispatch_batch notify
  batch s core_id m = refl

  Routed-Counts :
      (w : World) (c : PacketConsumer F) (p : ParsedPacket) (c' : PacketConsumer F)
      → Routed F w c p c'
      → c.callbacks ≡ app_events
      → Counts c (routed (process w.large_packet_threshold p) p.raw_span.size) c'
  unfolding count_packet
  Routed-Counts w c p _ (transmitted f h) a = record {
    stats_ok = refl;
    metrics_ok = rw a (quiet p _ c.metrics);
    callbacks_same = refl;
    core_same = refl;
  }
  Routed-Counts w c p _ (dropped_fast f h) a = record {
    stats_ok = refl;
    metrics_ok = rw a (quiet p _ c.metrics);
    callbacks_same = refl;
    core_same = refl;
  }
  Routed-Counts w c p _ (shaped s t h) a = record {
    stats_ok = refl;
    metrics_ok = rw a (quiet p _ c.metrics);
    callbacks_same = refl;
    core_same = refl;
  }
  Routed-Counts w c p _ (unshaped t h) a = record {
    stats_ok = refl;
    metrics_ok = rw a (quiet p _ c.metrics);
    callbacks_same = refl;
    core_same = refl;
  }

  Ran-Counts :
      (w : World) (c : PacketConsumer F) (p : ParsedPacket) (r : Stepped F)
      → Ran F (c.core_id == 2) w c p r
      → c.callbacks ≡ app_events
      → Counts c (event_of w c p) r.1
  unfolding count_packet
  Ran-Counts w c p _ (to_server d) a =
      rw d (record { stats_ok = refl; metrics_ok = refl; callbacks_same = refl; core_same = refl })
  Ran-Counts w c p _ (unresolved d h) a =
      rw (d, h)
        (record { stats_ok = refl; metrics_ok = refl; callbacks_same = refl; core_same = refl })
  Ran-Counts w c p _ (forwarded c' d h r) a =
      let k = Routed-Counts w _ _ c' r a in
      rw (d, h)
        (record {
          stats_ok = k.stats_ok;
          metrics_ok = k.metrics_ok;
          callbacks_same = k.callbacks_same;
          core_same = k.core_same;
        })

  -- After it.
  record Committed (c : PacketConsumer F) (event : Event) (c' : PacketConsumer F) : Type 0 where
    counts_ok : counting c' ≡ count_event c.core_id (counting c) event
    callbacks_same : c'.callbacks ≡ c.callbacks
    core_same : c'.core_id ≡ c.core_id

  counting-commit :
      (c : PacketConsumer F)
      → c.callbacks ≡ app_events
      → counting (commit F c) ≡ close_batch c.core_id (counting c)
  unfolding commit close_batch
  counting-commit c a = elim (Bool-cases (c.stats.pkts % 32 == 0)) [
    | inl now ↦
        rw (now, a)
          (ap (λ m. record { stats = no_stats; metrics = m }) (batch c.stats c.core_id c.metrics))
    | inr later ↦ rw later
  ]

  commit-same :
      (c : PacketConsumer F)
      → ((commit F c).callbacks ≡ c.callbacks) × ((commit F c).core_id ≡ c.core_id)
  unfolding commit
  commit-same c = elim (Bool-cases (c.stats.pkts % 32 == 0)) [
    | inl now ↦ rw now (refl, refl)
    | inr later ↦ rw later (refl, refl)
  ]

  commit-Committed :
      (c : PacketConsumer F) (event : Event) (c' : PacketConsumer F)
      → c.callbacks ≡ app_events
      → Counts c event c'
      → Committed c event (commit F c')
  unfolding count_event
  commit-Committed c event c' a k = record {
    counts_ok =
        counting-commit c' (k.callbacks_same ∙ a)
        ∙ ap₂ close_batch k.core_same
            (ap₂ (λ s m. record { stats = s; metrics = m }) k.stats_ok k.metrics_ok);
    callbacks_same = (commit-same c').0 ∙ k.callbacks_same;
    core_same = (commit-same c').1 ∙ k.core_same;
  }

  on_packet_event-Committed :
      (w : World) (c : PacketConsumer F) (p : ParsedPacket)
      → c.callbacks ≡ app_events
      → Committed c (event_of w c p) (on_packet_event F w c p)
  unfolding on_packet_event
  on_packet_event-Committed w c p a =
      commit-Committed c (event_of w c p) _ a (Ran-Counts w c p _ (pipeline-Ran F w c p) a)

  on_packet_events-counts :
      (c : PacketConsumer F) (packets : List (World × ParsedPacket))
      → c.callbacks ≡ app_events
      → counting (on_packet_events F c packets)
        ≡ count_events c.core_id (counting c) (events_of c packets)
  unfolding on_packet_events count_events
  on_packet_events-counts c [] a = refl
  on_packet_events-counts c ((w, p) ∷ rest) a =
      let k = on_packet_event-Committed w c p a in
      on_packet_events-counts (on_packet_event F w c p) rest (k.callbacks_same ∙ a)
      ∙ ap₂ (λ core s. count_events core s (events_of (on_packet_event F w c p) rest)) k.core_same
          k.counts_ok

  -- With the one observer that the program registers, on a core with metrics of its own: what the metrics
  -- and the open batch count together has grown, after any run of packets, by the packets that were neither
  -- for the DHCP server nor lost for want of a next hop. This holds of all packets and their bytes, and in
  -- each lane, for the lane that each packet was given; all counts are modulo 2 ^ 64.
  pub on_packet_events-total :
      (c : PacketConsumer F) (packets : List (World × ParsedPacket))
      → c.callbacks ≡ app_events
      → c.core_id < 4
      → AllCounted c.core_id
          (counting c)
          (counting (on_packet_events F c packets))
          (events_of c packets)
  on_packet_events-total c packets a h =
      let events = events_of c packets in
      subst (λ after. AllCounted c.core_id (counting c) after events)
        (sym (on_packet_events-counts c packets a))
        (count_events-AllCounted c.core_id (counting c) events h)
