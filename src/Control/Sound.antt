-- ===== src/Control/Sound.antt =====
-- The engines stay valid while the control plane runs.
use high_performance_gaming.Common.{
  ℕ, ◌+◌, ◌/◌, ◌%◌, ◌<◌, ◌≡◌, ◌||◌, ◌==◌, inl, inr, refl, Bool, true, false, not, Bool-cases,
  Option, none, some,
}
use high_performance_gaming.Net.Bytes.{ntohl}
use high_performance_gaming.NatEngine.State.{NatEngine, set_wan_ip}
use high_performance_gaming.NatEngine.Engine.Invariant.{set_wan_ip-IsValid, tick-IsValid}
use high_performance_gaming.NatEngine.Engine.Invariant as NatInvariant
use high_performance_gaming.DhcpEngine.Pool.{
  DhcpEngine, PoolResult, pool_ok, end_before_start, range_overflow, pool_empty,
}
use high_performance_gaming.DhcpEngine.Pool.Invariant as DhcpInvariant
use high_performance_gaming.DhcpEngine.Service.{set_router_ip, process_background_tasks}
use high_performance_gaming.DhcpEngine.Service.Invariant.{
  process_background_tasks-IsValid, reconfigure-IsValid,
}
use high_performance_gaming.Network.LanSync.{
  LanInterface, LanSettings, Lan, Synced, refresh_dhcp_router, sync,
}
use high_performance_gaming.Network.LanSync.Gateway.{Outcome, refused, accepted, sync-Outcome}
use high_performance_gaming.Scheduler.Float.{Float}
use high_performance_gaming.Scheduler.TokenBucket.{set_rate}
use high_performance_gaming.Scheduler.Shaper.{Shaper, set_rate_limit}
use high_performance_gaming.Scheduler.Shaper.Order.{Ok}
use high_performance_gaming.Pipeline.Invariant.{OfSome, of_some}
use high_performance_gaming.Control.Services.{
  follow_wan, wan_tracker_tick, engine_tick, dhcp_worker_tick1, dhcp_worker_tick5, Applied, applied,
  invalid_bounds, reconfigure_failed, reconfigured, apply_bounds, apply_dhcp_config, Qos, limited,
  apply_mode, apply_caps, qos_tick,
}
use high_performance_gaming.Control.{
  At, Meets, Engines, dhcp_service, after_apply, control_service, service, Shared, Move, enters,
  leaves, finds, reads, period_over, interrupted, requested, fails, goes_on, gives_up, skips,
  serves, ControlPlane, moves, requests, halts, wakes, Reach, started, by_thread, by_other,
}

router-IsValid :
    (e : DhcpEngine) (ip : ℕ) → DhcpInvariant.IsValid e → DhcpInvariant.IsValid (set_router_ip e ip)
unfolding set_router_ip
router-IsValid e ip v = record {
  count_ok = v.count_ok;
  one_address = v.one_address;
  one_lease = v.one_lease;
}

refresh-IsValid :
    (address : Option ℕ) (e : DhcpEngine)
    → DhcpInvariant.IsValid e
    → DhcpInvariant.IsValid (refresh_dhcp_router address e)
unfolding refresh_dhcp_router
refresh-IsValid none e v = v
refresh-IsValid (some ip) e v = elim (Bool-cases (ip == e.router_ip)) [
  | inl same ↦ rw same v
  | inr other ↦ rw other (router-IsValid e ip v)
]

-- What the tracker makes of the engine: nothing, or the kernel's address, which is neither zero nor a
-- loopback address.
pub data Tracked (e : NatEngine) (source : Option ℕ) : NatEngine → Type 0 where
  kept : Tracked e source e
  followed :
      (ip : ℕ)
      → source ≡ some ip
      → ((ntohl ip == 0) || (ntohl ip / 16777216 == 127)) ≡ false
      → Tracked e source (set_wan_ip e ip)

follow-Tracked : (e : NatEngine) (ip : ℕ) → Tracked e (some ip) (follow_wan e ip)
unfolding follow_wan
follow-Tracked e ip = elim (Bool-cases ((ntohl ip == 0) || (ntohl ip / 16777216 == 127))) [
  | inl bad ↦ rw bad kept
  | inr good ↦ elim (Bool-cases (ip == e.wan_ip_nbo)) [
    | inl same ↦ rw (good, same) kept
    | inr other ↦ rw (good, other) (followed ip refl good)
  ]
]

pub wan_tracker-Tracked :
    (enable : Bool) (source : Option ℕ) (e : NatEngine)
    → Tracked e source (wan_tracker_tick enable source e)
unfolding wan_tracker_tick
wan_tracker-Tracked false source e = kept
wan_tracker-Tracked true none e = kept
wan_tracker-Tracked true (some ip) e = follow-Tracked e ip

tracker-IsValid :
    (source : Option ℕ) (e e' : NatEngine)
    → ((ip : ℕ) → source ≡ some ip → ip < 4294967296)
    → Tracked e source e'
    → NatInvariant.IsValid e
    → NatInvariant.IsValid e'
tracker-IsValid source e _ fits kept v = v
tracker-IsValid source e _ fits (followed ip h good) v = set_wan_ip-IsValid e ip (fits ip h) v

reconfigured-IsValid :
    (r : PoolResult × DhcpEngine)
    → DhcpInvariant.IsValid r.1
    → DhcpInvariant.IsValid (reconfigured r).1
reconfigured-IsValid (pool_ok, e) v = v
reconfigured-IsValid (end_before_start, e) v = v
reconfigured-IsValid (range_overflow, e) v = v
reconfigured-IsValid (pool_empty, e) v = v

bounds-IsValid :
    (first last : Option ℕ) (lease : ℕ) (e : DhcpEngine)
    → DhcpInvariant.IsValid e
    → DhcpInvariant.IsValid (apply_bounds first last lease e).1
unfolding apply_bounds
bounds-IsValid none last lease e v = v
bounds-IsValid (some first) none lease e v = v
bounds-IsValid (some first) (some last) lease e v =
    reconfigured-IsValid _ (reconfigure-IsValid e first last lease v)

module _ (F : Float) where
  -- The shapers are valid, and the mode is one of the two.
  pub record IsModeOk (q : Qos F) : Type 0 where
    pub mode_ok : q.effective_bridge_mode ≡ not q.effective_acceleration
    pub dl_ok : OfSome (Ok F) q.shaper_dl
    pub ul_ok : OfSome (Ok F) q.shaper_ul

  limited-Ok :
      (o : Option (Shaper F)) (limit : F.Num) → OfSome (Ok F) o → OfSome (Ok F) (limited F o limit)
  unfolding set_rate_limit set_rate
  limited-Ok none limit v = v
  limited-Ok (some s) limit (of_some _ v) =
      of_some _ (record { queue_ok = v.queue_ok; bucket_ok = v.bucket_ok })

  mode-IsModeOk : (b : Bool) (q : Qos F) → IsModeOk q → IsModeOk (apply_mode F b q)
  unfolding apply_mode
  mode-IsModeOk false q v = v
  mode-IsModeOk true q v = record { mode_ok = refl; dl_ok = v.dl_ok; ul_ok = v.ul_ok }

  caps-IsModeOk : (b : Bool) (q : Qos F) → IsModeOk q → IsModeOk (apply_caps F b q)
  unfolding apply_caps
  caps-IsModeOk false q v = v
  caps-IsModeOk true q v = record {
    mode_ok = v.mode_ok;
    dl_ok = limited-Ok q.shaper_dl _ v.dl_ok;
    ul_ok = limited-Ok q.shaper_ul _ v.ul_ok;
  }

  pub tick-IsModeOk : (q : Qos F) → IsModeOk q → IsModeOk (qos_tick F q)
  unfolding qos_tick
  tick-IsModeOk q v = caps-IsModeOk _ _ (mode-IsModeOk _ q v)

module _ {K : Type 0} (I : LanInterface K) (F : Float) where
  sync-IsValid :
      (c : LanSettings) (s : Lan I)
      → DhcpInvariant.IsValid s.dhcp
      → DhcpInvariant.IsValid (sync I c s).1.dhcp
  sync-IsValid c s v = go (sync I c s) (sync-Outcome I c s)
    where
      go : (r : Synced I) → Outcome I c s r → DhcpInvariant.IsValid r.1.dhcp
      go _ (refused r t bad d g) = rw d v
      go _ (accepted first last gateway t hf hl order at inside eff served) =
          rw served (router-IsValid s.dhcp gateway v)

  -- The NAT engine, the DHCP engine and the shapers are valid, and the mode is one of the two.
  pub record IsSound (e : Engines I F) : Type 0 where
    pub nat_ok : NatInvariant.IsValid e.nat
    pub dhcp_ok : DhcpInvariant.IsValid e.lan.dhcp
    pub qos_ok : IsModeOk F e.qos

  dhcp-IsSound : (w : Meets) (e : Engines I F) → IsSound e → IsSound (dhcp_service I F w e)
  unfolding dhcp_service dhcp_worker_tick1 dhcp_worker_tick5
  dhcp-IsSound w e v = record {
    nat_ok = v.nat_ok;
    dhcp_ok = elim (Bool-cases ((e.dhcp_ticks + 1) % 5 == 0)) [
      | inl fifth ↦ rw fifth (refresh-IsValid _ _ served)
      | inr other ↦ rw other served
    ];
    qos_ok = v.qos_ok;
  }
    where
      served : DhcpInvariant.IsValid (process_background_tasks w.clock e.lan.dhcp).1
      served = process_background_tasks-IsValid w.clock e.lan.dhcp v.dhcp_ok

  apply-IsSound :
      (w : Meets) (e : Engines I F) (r : Applied × DhcpEngine)
      → DhcpInvariant.IsValid r.1
      → IsSound e
      → IsSound (after_apply I F w e r)
  apply-IsSound w e (applied, d) ok v = record {
    nat_ok = v.nat_ok;
    dhcp_ok = sync-IsValid w.lan_settings _ ok;
    qos_ok = v.qos_ok;
  }
  apply-IsSound w e (invalid_bounds, d) ok v = record {
    nat_ok = v.nat_ok;
    dhcp_ok = ok;
    qos_ok = v.qos_ok;
  }
  apply-IsSound w e (reconfigure_failed x, d) ok v = record {
    nat_ok = v.nat_ok;
    dhcp_ok = ok;
    qos_ok = v.qos_ok;
  }

  control-IsSound : (w : Meets) (e : Engines I F) → IsSound e → IsSound (control_service I F w e)
  unfolding control_service apply_dhcp_config
  control-IsSound w e v = apply-IsSound w e _ (bounds-IsValid _ _ _ e.lan.dhcp v.dhcp_ok) v

  nat-IsSound :
      (e : Engines I F) (n : NatEngine)
      → NatInvariant.IsValid n
      → IsSound e
      → IsSound (record e { nat = n })
  nat-IsSound e n ok v = record { nat_ok = ok; dhcp_ok = v.dhcp_ok; qos_ok = v.qos_ok }

  service-IsSound : (i : ℕ) (w : Meets) (e : Engines I F) → IsSound e → IsSound (service I F i w e)
  unfolding service engine_tick
  service-IsSound i w e v = elim (Bool-cases (i == 1)) [
    | inl b ↦ rw b (record { nat_ok = v.nat_ok; dhcp_ok = v.dhcp_ok; qos_ok = v.qos_ok })
    | inr b1 ↦ elim (Bool-cases (i == 2)) [
      | inl b ↦
          rw (b1, b)
            (nat-IsSound e _
              (tracker-IsValid w.wan_address e.nat _ w.wan_fits
                (wan_tracker-Tracked w.enable_nat w.wan_address e.nat) v.nat_ok)
              v)
      | inr b2 ↦ elim (Bool-cases (i == 3)) [
        | inl b ↦ rw (b1, b2, b) (dhcp-IsSound w e v)
        | inr b3 ↦ elim (Bool-cases (i == 4)) [
          | inl b ↦
              rw (b1, b2, b3, b)
                (record {
                  nat_ok = v.nat_ok;
                  dhcp_ok = v.dhcp_ok;
                  qos_ok = tick-IsModeOk F e.qos v.qos_ok;
                })
          | inr b4 ↦ elim (Bool-cases (i == 5)) [
            | inl b ↦ rw (b1, b2, b3, b4, b) (nat-IsSound e _ (tick-IsValid e.nat v.nat_ok) v)
            | inr b5 ↦ elim (Bool-cases (i == 6)) [
              | inl b ↦ rw (b1, b2, b3, b4, b5, b) (control-IsSound w e v)
              | inr b6 ↦ rw (b1, b2, b3, b4, b5, b6) v
            ]
          ]
        ]
      ]
    ]
  ]

  Move-IsSound :
      (i : ℕ) (running : Bool) (m m' : Shared I F) (a a' : At)
      → Move I F i running m a m' a'
      → IsSound m.services
      → IsSound m'.services
  Move-IsSound i running m _ _ _ (enters r) v = v
  Move-IsSound i running m _ _ _ (leaves r) v = v
  Move-IsSound i running m _ _ _ (finds t) v = v
  Move-IsSound i running m _ _ _ (reads t) v = v
  Move-IsSound i running m _ _ _ (period_over h) v = v
  Move-IsSound i running m _ _ _ (interrupted h) v = v
  Move-IsSound i running m _ _ _ (requested h t c) v = v
  Move-IsSound i running m _ _ _ fails v = v
  Move-IsSound i running m _ _ _ (goes_on r) v = v
  Move-IsSound i running m _ _ _ (gives_up h r) v = v
  Move-IsSound i running m _ _ _ (skips h r) v = v
  Move-IsSound i running m _ _ _ (serves w) v = service-IsSound i w m.services v

  -- From sound engines, whatever the services meet and in whatever order the threads take their steps, the
  -- NAT engine, the DHCP engine and the shapers stay valid, and the bridge mode stays the opposite of
  -- acceleration.
  pub Reach-IsSound :
      (e : Engines I F) (s : ControlPlane I F)
      → IsSound e
      → Reach I F e s
      → IsSound s.shared.services
  Reach-IsSound e _ v started = v
  Reach-IsSound e _ v (by_thread r (moves i m a h st)) =
      Move-IsSound i _ _ m _ a st (Reach-IsSound e _ v r)
  Reach-IsSound e _ v (by_other r requests) = Reach-IsSound e _ v r
  Reach-IsSound e _ v (by_other r (halts h)) = Reach-IsSound e _ v r
  Reach-IsSound e _ v (by_other r (wakes h)) = Reach-IsSound e _ v r
