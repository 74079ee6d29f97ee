-- ===== src/Lifecycle/Order.antt =====
-- The order of a shutdown, and that each plane is stopped once.
use high_performance_gaming.Common.{◌≤◌, ◌<◌, ◌≡◌, true, false}
use high_performance_gaming.Lifecycle.{Shutdown, if_made}

-- Each plane that `start` has made is stopped at most once, the control plane after the data plane, and both
-- before the wait is over; the destructor, which stops them again, comes after that.
pub record IsStopping (s : Shutdown) : Type 0 where
  pub forward_once : s.forward_stops ≤ 1
  pub control_once : s.plane_stops ≤ 1
  pub forward_first : 0 < s.plane_stops → s.forward_stops ≡ if_made s.has_forward 1
  pub forward_over : s.is_waiting ≡ false → s.forward_stops ≡ if_made s.has_forward 1
  pub control_over : s.is_waiting ≡ false → s.plane_stops ≡ if_made s.has_control 1
  pub stopped_before : s.is_destroyed ≡ true → s.is_waiting ≡ false
