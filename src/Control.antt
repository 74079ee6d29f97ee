-- ===== src/Control.antt =====
-- `ControlPlane` (src/ControlPlane.cpp): six service threads and the control thread, which share one
-- eventfd to stop them, over the engines. A thread's loop is the places that it passes through.
pub mod Services
pub mod Counts
pub mod Shutdown
pub mod Sound
use high_performance_gaming.Common.{
  ℕ, zero, suc, ◌+◌, ◌-◌, ◌%◌, ◌<◌, ◌≡◌, Bool, true, false, ◌==◌, if◌then◌else◌, Option, none, some,
}
use high_performance_gaming.Common.Array.{update}
use high_performance_gaming.NatEngine.State.{NatEngine}
use high_performance_gaming.DhcpEngine.Pool.{DhcpEngine}
use high_performance_gaming.DhcpEngine.Service.{Clock}
use high_performance_gaming.Forwarding.Refresh.{ForwardingState, Answers, refresh_l2}
use high_performance_gaming.Network.LanSync.{LanInterface, LanSettings, Lan, get_local_ip, sync}
use high_performance_gaming.Scheduler.Float.{Float}
use high_performance_gaming.Worker.{StopAt, serving, halted, woken}
use high_performance_gaming.Control.Services.{
  Qos, qos_tick, PoolSettings, Applied, applied, invalid_bounds, reconfigure_failed,
  apply_dhcp_config, wan_tracker_tick, engine_tick, dhcp_worker_tick1, dhcp_worker_tick5,
}

abbrev pub watchdog_service_count : ℕ
watchdog_service_count = 6

-- `service_threads_` and, last, `control_event_thread_`.
abbrev pub thread_count : ℕ
thread_count = watchdog_service_count + 1

-- Where a thread stands: before the test of `running_`, in `poll`, before the read of the stop
-- eventfd, before the second test of `running_`, before its service, or at its end.
pub data At : Type 0 where
  at_loop at_wait at_read at_check at_tick at_end : At

-- What one period of a service meets: the settings and the answers of the system, an IPv4 address
-- being 32 bits wide.
pub record Meets : Type 0 where
  pub enable_nat : Bool
  pub wan_address : Option ℕ
  pub wan_fits : (ip : ℕ) → wan_address ≡ some ip → ip < 4294967296
  pub answers : Answers
  pub clock : ℕ → Clock
  pub pool : PoolSettings
  pub lan_settings : LanSettings

module _ {K : Type 0} (I : LanInterface K) (F : Float) where
  -- `dhcp_ticks` is the `tick5` of the DHCP thread. The DHCP engine stands with the LAN's gateway.
  pub record Engines : Type 0 where
    pub nat : NatEngine
    pub lan : Lan I
    pub forwarding : ForwardingState
    pub qos : Qos F
    pub dhcp_ticks : ℕ

  abbrev pub with_dhcp : Engines → DhcpEngine → Engines
  with_dhcp s e = let l = s.lan in record s { lan = record l { dhcp = e } }

  -- The DHCP thread: the requests each second, the gateway every fifth.
  unfoldable pub dhcp_service : Meets → Engines → Engines
  dhcp_service m s =
      let n = s.dhcp_ticks + 1 in
      let e = (dhcp_worker_tick1 m.clock s.lan.dhcp).1 in
      let e' = if n % 5 == 0 then dhcp_worker_tick5 (get_local_ip I s.lan.kernel) e else e in
      with_dhcp (record s { dhcp_ticks = n }) e'

  -- `dhcp_applied_`, as `App::start` makes it: the gateway follows a new pool.
  abbrev pub after_apply : Meets → Engines → Applied × DhcpEngine → Engines
  after_apply m s (applied, e) =
      let s' = with_dhcp s e in record s' { lan = (sync I m.lan_settings s'.lan).1 }
  after_apply m s (invalid_bounds, e) = with_dhcp s e
  after_apply m s (reconfigure_failed r, e) = with_dhcp s e

  unfoldable pub control_service : Meets → Engines → Engines
  control_service m s = after_apply m s (apply_dhcp_config m.pool s.lan.dhcp)

  -- The service of thread `i`. What the telemetry thread writes nobody but the dashboard reads.
  unfoldable pub service : ℕ → Meets → Engines → Engines
  service i m s =
      if i == 1
      then record s { forwarding = refresh_l2 s.forwarding m.answers }
      else if i == 2
      then record s { nat = wan_tracker_tick m.enable_nat m.wan_address s.nat }
      else if i == 3
      then dhcp_service m s
      else if i == 4
      then record s { qos = qos_tick F s.qos }
      else if i == 5
      then record s { nat = engine_tick s.nat }
      else if i == 6
      then control_service m s
      else s

  -- What the threads share: the stop eventfd, the one that asks for a new pool, and the services.
  pub record Shared : Type 0 where
    pub watchdog_stop_efd : ℕ
    pub dhcp_cfg_efd : ℕ
    pub services : Engines

  -- A step of thread `i`, from one place to another. `poll` ends with a token of the stop eventfd, which
  -- is then read; for a service thread with the end of its period (or EINTR, which it takes for that);
  -- for the control thread with a request, or EINTR; or with an error.
  pub data Move (i : ℕ) (running : Bool) (m : Shared) : At → Shared → At → Type 0 where
    enters : running ≡ true → Move i running m at_loop m at_wait
    leaves : running ≡ false → Move i running m at_loop m at_end
    finds : 0 < m.watchdog_stop_efd → Move i running m at_wait m at_read
    reads :
        0 < m.watchdog_stop_efd
        → Move i running m at_read (record m { watchdog_stop_efd = m.watchdog_stop_efd - 1 }) at_end
    period_over : i < watchdog_service_count → Move i running m at_wait m at_check
    interrupted : i ≡ watchdog_service_count → Move i running m at_wait m at_loop
    requested :
        i ≡ watchdog_service_count
        → m.watchdog_stop_efd ≡ 0
        → 0 < m.dhcp_cfg_efd
        → Move i running m at_wait (record m { dhcp_cfg_efd = 0 }) at_check
    fails : Move i running m at_wait m at_end
    goes_on : running ≡ true → Move i running m at_check m at_tick
    gives_up : i < watchdog_service_count → running ≡ false → Move i running m at_check m at_end
    skips : i ≡ watchdog_service_count → running ≡ false → Move i running m at_check m at_loop
    serves :
        (w : Meets)
        → Move i running m at_tick (record m { services = service i w m.services }) at_loop

  pub record ControlPlane : Type 0 where
    pub running : Bool
    pub stop_at : StopAt
    pub shared : Shared
    pub threads : ℕ → At

  pub data ThreadStep (s : ControlPlane) : ControlPlane → Type 0 where
    moves :
        (i : ℕ) (m : Shared) (a : At)
        → i < thread_count
        → Move i s.running s.shared (s.threads i) m a
        → ThreadStep s (record s { shared = m; threads = update s.threads i a })

  -- `request_dhcp_config_apply`, and the two parts of `stop`: `wake_watchdog` writes a token for each
  -- thread.
  pub data OtherStep (s : ControlPlane) : ControlPlane → Type 0 where
    requests :
        OtherStep s
          (record s { shared = record (s.shared) { dhcp_cfg_efd = s.shared.dhcp_cfg_efd + 1 } })
    halts : s.stop_at ≡ serving → OtherStep s (record s { running = false; stop_at = halted })
    wakes :
        s.stop_at ≡ halted
        → OtherStep s (record s {
          shared = record (s.shared) {
            watchdog_stop_efd = s.shared.watchdog_stop_efd + (watchdog_service_count + 1);
          };
          stop_at = woken;
        })

  -- As `start` leaves it.
  abbrev pub started_plane : Engines → ControlPlane
  started_plane services = record {
    running = true;
    stop_at = serving;
    shared = record { watchdog_stop_efd = 0; dhcp_cfg_efd = 0; services = services };
    threads = λ i. at_loop;
  }

  pub data Reach (services : Engines) : ControlPlane → Type 0 where
    started : Reach services (started_plane services)
    by_thread : {s t : ControlPlane} → Reach services s → ThreadStep s t → Reach services t
    by_other : {s t : ControlPlane} → Reach services s → OtherStep s t → Reach services t
