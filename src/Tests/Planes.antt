-- ===== src/Tests/Planes.antt =====
-- A control plane whose NAT thread ticks once, and which is stopped.
use high_performance_gaming.Common.{
  ℕ, ◌<◌, ◌≡◌, ◌≤◌, ◌⊎◌, arith, refl, true, false, Option, none, some,
}
use high_performance_gaming.Common.Array.{update}
use high_performance_gaming.NatEngine.State.{new_engine}
use high_performance_gaming.NatEngine.Engine.Invariant.{new_engine-IsValid}
use high_performance_gaming.Pipeline.Invariant.{of_none}
use high_performance_gaming.Network.LanSync.{LanInterface}
use high_performance_gaming.Worker.{woken}
use high_performance_gaming.Control.{
  thread_count, at_loop, at_wait, at_check, at_tick, Meets, Engines, service, Shared, enters,
  period_over, goes_on, serves, leaves, ControlPlane, moves, halts, wakes, started_plane, Reach,
  started, by_thread, by_other, at_end,
}
use high_performance_gaming.Control.Sound.{IsSound, Reach-IsSound}
use high_performance_gaming.Control.Shutdown.{HasMove}
use high_performance_gaming.Control.Shutdown.Ending.{steps_left, stays, thread_steps, stop-ends_all}
use high_performance_gaming.Tests.Wholes.{whole, wholes}
use high_performance_gaming.Tests.Hops.{answers, state}
use high_performance_gaming.Tests.Leases.{blank, blank-IsValid}

abbrev interface : LanInterface (Option ℕ)
interface = record {
  name_fits = true;
  socket = λ k. true;
  get_addr = λ k. k;
  set_addr = λ ip k. (true, some ip);
  set_netmask = λ mask k. (true, k);
  set_up = λ k. k;
}

abbrev engines : Engines interface wholes
engines = record {
  nat = new_engine;
  lan = record { kernel = none; effective_lan_gateway = 0; dhcp = blank };
  forwarding = state;
  qos = record {
    mode_config_dirty = false;
    acceleration_pending = true;
    enable_acceleration = true;
    effective_acceleration = true;
    effective_bridge_mode = false;
    qos_global_bw_dirty = false;
    qos_global_dl_mbps_pending = whole 500;
    qos_global_ul_mbps_pending = whole 50;
    effective_qos_global_dl_mbps = whole 500;
    effective_qos_global_ul_mbps = whole 50;
    base_dl = whole 500;
    base_ul = whole 50;
    shaper_dl = none;
    shaper_ul = none;
  };
  dhcp_ticks = 0;
}

engines-IsSound : IsSound interface wholes engines
engines-IsSound = record {
  nat_ok = new_engine-IsValid;
  dhcp_ok = blank-IsValid;
  qos_ok = record { mode_ok = refl; dl_ok = of_none; ul_ok = of_none };
}

no_address : (ip : ℕ) → none ≡ some ip → ip < 4294967296
no_address ip h = absurd (ground (arith, h))

abbrev meets : Meets
meets = record {
  enable_nat = true;
  wan_address = none;
  wan_fits = no_address;
  answers = answers;
  clock = λ k. record { now = 0; now' = 0 };
  pool = record { dhcp_pool_start = none; dhcp_pool_end = none; dhcp_lease_duration = 100 };
  lan_settings = record {
    dhcp_pool_start = none;
    dhcp_pool_end = none;
    router_ip = none;
    apply_router_ip_to_lan = false;
  };
}

abbrev before : ControlPlane interface wholes
before = started_plane interface wholes engines

abbrev shared : Shared interface wholes
shared = before.shared

abbrev served : Shared interface wholes
served = record shared { services = service interface wholes 5 meets engines }

-- Thread 5, round its loop once.
abbrev ticked : ControlPlane interface wholes
ticked = record before {
  shared = served;
  threads =
      update (update (update (update before.threads 5 at_wait) 5 at_check) 5 at_tick) 5 at_loop;
}

ticked_reached : Reach interface wholes engines ticked
ticked_reached =
    by_thread
      (by_thread
        (by_thread (by_thread started (moves 5 shared at_wait (omega arith) (enters refl)))
          (moves 5 shared at_check (omega arith) (period_over (omega arith))))
        (moves 5 shared at_tick (omega arith) (goes_on refl)))
      (moves 5 served at_loop (omega arith) (serves meets))

Reach-IsSound_example : IsSound interface wholes ticked.shared.services
Reach-IsSound_example = Reach-IsSound interface wholes engines ticked engines-IsSound ticked_reached

abbrev stopped : ControlPlane interface wholes
stopped = record ticked {
  running = false;
  stop_at = woken;
  shared = record served { watchdog_stop_efd = 7 };
}

stopped_reached : Reach interface wholes engines stopped
stopped_reached = by_other (by_other ticked_reached (halts refl)) (wakes refl)

abbrev one_less : ControlPlane interface wholes
one_less = record stopped { threads = update stopped.threads 0 at_end }

stop-ends_all_example :
    (1 ≤ steps_left interface wholes stopped)
    × ((i : ℕ)
        → i < thread_count
        → (one_less.threads i ≡ at_end)
          ⊎ HasMove interface wholes i one_less.running one_less.shared (one_less.threads i))
stop-ends_all_example =
    stop-ends_all interface wholes engines stopped 1 one_less meets stopped_reached refl
      (thread_steps stays (moves 0 stopped.shared at_end (omega arith) (leaves refl)))
