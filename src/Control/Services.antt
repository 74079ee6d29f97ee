-- ===== src/Control/Services.antt =====
-- What the background services do in one period (src/ParameterServices.cpp,
-- include/ParameterServices.hpp) and `ControlPlane::applyDhcpConfig` (src/ControlPlane.cpp). An address
-- that is asked of the system or read from the configuration is an argument, as `parse_ip_str` makes it.
use high_performance_gaming.Common.{
  ℕ, ◌/◌, Bool, true, false, not, ◌||◌, ◌==◌, if◌then◌else◌, Option, none, some,
}
use high_performance_gaming.Net.Bytes.{ntohl}
use high_performance_gaming.NatEngine.State.{NatEngine, set_wan_ip, tick}
use high_performance_gaming.DhcpEngine.Pool.{DhcpEngine, PoolResult, pool_ok}
use high_performance_gaming.DhcpEngine.Service.{
  Clock, Served, process_background_tasks, reconfigure,
}
use high_performance_gaming.Network.LanSync.{refresh_dhcp_router}
use high_performance_gaming.Scheduler.Float.{Float}
use high_performance_gaming.Scheduler.Shaper.{Shaper, set_rate_limit}

-- `NatWanTracker::tick5s`, from the test of the address on.
unfoldable pub follow_wan : NatEngine → ℕ → NatEngine
follow_wan e ip =
    let h = ntohl ip in
    if (h == 0) || (h / 16777216 == 127)
    then e
    else if ip == e.wan_ip_nbo
    then e
    else set_wan_ip e ip

unfoldable pub wan_tracker_tick : Bool → Option ℕ → NatEngine → NatEngine
wan_tracker_tick false source e = e
wan_tracker_tick true none e = e
wan_tracker_tick true (some ip) e = follow_wan e ip

-- `EngineTicker::tick1Hz`
unfoldable pub engine_tick : NatEngine → NatEngine
engine_tick e = tick e

-- `DhcpWorker`: the requests each second, the gateway every five.
unfoldable pub dhcp_worker_tick1 : (ℕ → Clock) → DhcpEngine → Served
dhcp_worker_tick1 clock e = process_background_tasks clock e

unfoldable pub dhcp_worker_tick5 : Option ℕ → DhcpEngine → DhcpEngine
dhcp_worker_tick5 address e = refresh_dhcp_router address e

-- The pool of the configuration.
pub record PoolSettings : Type 0 where
  pub dhcp_pool_start : Option ℕ
  pub dhcp_pool_end : Option ℕ
  pub dhcp_lease_duration : ℕ

pub data Applied : Type 0 where
  applied invalid_bounds : Applied
  reconfigure_failed : PoolResult → Applied

abbrev pub reconfigured : PoolResult × DhcpEngine → Applied × DhcpEngine
reconfigured (pool_ok, e) = (applied, e)
reconfigured (r, e) = (reconfigure_failed r, e)

unfoldable pub apply_bounds : Option ℕ → Option ℕ → ℕ → DhcpEngine → Applied × DhcpEngine
apply_bounds none last lease e = (invalid_bounds, e)
apply_bounds (some first) none lease e = (invalid_bounds, e)
apply_bounds (some first) (some last) lease e = reconfigured (reconfigure e first last lease)

-- `dhcp_applied_` is called where the result is `applied`.
unfoldable pub apply_dhcp_config : PoolSettings → DhcpEngine → Applied × DhcpEngine
apply_dhcp_config c e = apply_bounds c.dhcp_pool_start c.dhcp_pool_end c.dhcp_lease_duration e

module _ (F : Float) where
  open F use {Num}

  -- What `QosController` shares with the dashboard and the data plane: the fields of `Telemetry` that it
  -- reads and writes, `Config::ENABLE_ACCELERATION`, and the two caps and shapers.
  pub record Qos : Type 0 where
    pub mode_config_dirty : Bool
    pub acceleration_pending : Bool
    pub enable_acceleration : Bool
    pub effective_acceleration : Bool
    pub effective_bridge_mode : Bool
    pub qos_global_bw_dirty : Bool
    pub qos_global_dl_mbps_pending : Num
    pub qos_global_ul_mbps_pending : Num
    pub effective_qos_global_dl_mbps : Num
    pub effective_qos_global_ul_mbps : Num
    pub base_dl : Num
    pub base_ul : Num
    pub shaper_dl : Option (Shaper F)
    pub shaper_ul : Option (Shaper F)

  abbrev pub limited : Option (Shaper F) → Num → Option (Shaper F)
  limited none limit = none
  limited (some s) limit = some (set_rate_limit F s limit)

  -- The two parts of the tick, where the flag was set.
  unfoldable pub apply_mode : Bool → Qos → Qos
  apply_mode false q = q
  apply_mode true q = record q {
    mode_config_dirty = false;
    enable_acceleration = q.acceleration_pending;
    effective_acceleration = q.acceleration_pending;
    effective_bridge_mode = not q.acceleration_pending;
  }

  unfoldable pub apply_caps : Bool → Qos → Qos
  apply_caps false q = q
  apply_caps true q = record q {
    qos_global_bw_dirty = false;
    base_dl = q.qos_global_dl_mbps_pending;
    base_ul = q.qos_global_ul_mbps_pending;
    effective_qos_global_dl_mbps = q.qos_global_dl_mbps_pending;
    effective_qos_global_ul_mbps = q.qos_global_ul_mbps_pending;
    shaper_dl = limited q.shaper_dl q.qos_global_dl_mbps_pending;
    shaper_ul = limited q.shaper_ul q.qos_global_ul_mbps_pending;
  }

  -- `QosController::tick1Hz`; an `exchange(false)` leaves a flag that was not set as it is.
  unfoldable pub qos_tick : Qos → Qos
  qos_tick q = apply_caps q.qos_global_bw_dirty (apply_mode q.mode_config_dirty q)
