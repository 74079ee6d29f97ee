-- ===== src/Lifecycle.antt =====
-- `Lifecycle` (include/Lifecycle.hpp) with `stop`, `wait_for_shutdown` and `~App` of src/App.cpp: any
-- number of callers of `stop`, and the thread that waits for its end. A step is one call that others see.
-- `start` is over before the first call, and `~App` comes when `main` has joined the waiting thread.
pub mod Invariant
pub mod Order
use high_performance_gaming.Common.{ℕ, ◌+◌, ◌≡◌, Bool, true, false, not, if◌then◌else◌}
use high_performance_gaming.Common.Array.{update}

pub record Lifecycle : Type 0 where
  pub is_started : Bool
  pub is_complete : Bool

-- Whether this call is the first, and the lifecycle.
unfoldable pub begin_stop : Lifecycle → Bool × Lifecycle
begin_stop l = (not l.is_started, record l { is_started = true })

unfoldable pub mark_complete : Lifecycle → Lifecycle
mark_complete l = record l { is_complete = true }

-- Where a call of `stop` stands: before `begin_stop`, before the stop of the data plane, before that of the
-- control plane, before `mark_complete`, or at its end.
pub data StopCall : Type 0 where
  at_begin at_forward at_plane at_mark at_return : StopCall

-- `has_forward` and `has_control`: `start` has made the plane, so that its pointer is not null.
-- `forward_stops` and `plane_stops` count the calls of `stop` of the two planes. `is_waiting`: the thread
-- `watchdog_notify` of src/main.cpp has not come back from `wait_for_shutdown`. The last three
-- are of `~App`: whether it has run, and its own calls of `stop` of the two planes.
pub record Shutdown : Type 0 where
  pub lifecycle : Lifecycle
  pub calls : ℕ → StopCall
  pub has_forward : Bool
  pub has_control : Bool
  pub forward_stops : ℕ
  pub plane_stops : ℕ
  pub is_waiting : Bool
  pub is_destroyed : Bool
  pub forward_again : ℕ
  pub plane_again : ℕ

abbrev pub running : Bool → Bool → Shutdown
running forward control = record {
  lifecycle = record { is_started = false; is_complete = false };
  calls = λ i. at_begin;
  has_forward = forward;
  has_control = control;
  forward_stops = 0;
  plane_stops = 0;
  is_waiting = true;
  is_destroyed = false;
  forward_again = 0;
  plane_again = 0;
}

-- How often a pointer that may be null is followed, where it would be `n` times.
abbrev pub if_made : Bool → ℕ → ℕ
if_made true n = n
if_made false n = 0

unfoldable pub begun : ℕ → Bool × Lifecycle → Shutdown → Shutdown
begun i (first, l) s = record s {
  lifecycle = l;
  calls = update s.calls i (if first then at_forward else at_return);
}

-- The calls of `stop`, the wait and the destructor, one step at a time, in any order.
pub data ShutdownStep (s : Shutdown) : Shutdown → Type 0 where
  begins : (i : ℕ) → s.calls i ≡ at_begin → ShutdownStep s (begun i (begin_stop s.lifecycle) s)
  stops_forward :
      (i : ℕ)
      → s.calls i ≡ at_forward
      → ShutdownStep s record s {
        calls = update s.calls i at_plane;
        forward_stops = s.forward_stops + if_made s.has_forward 1;
      }
  stops_plane :
      (i : ℕ)
      → s.calls i ≡ at_plane
      → ShutdownStep s record s {
        calls = update s.calls i at_mark;
        plane_stops = s.plane_stops + if_made s.has_control 1;
      }
  marks :
      (i : ℕ)
      → s.calls i ≡ at_mark
      → ShutdownStep s
          record s { calls = update s.calls i at_return; lifecycle = mark_complete s.lifecycle }
  comes_back : s.lifecycle.is_complete ≡ true → ShutdownStep s record s { is_waiting = false }
  destroys :
      s.is_waiting ≡ false
      → s.is_destroyed ≡ false
      → ShutdownStep s record s {
        is_destroyed = true;
        forward_again = if_made s.has_forward 1;
        plane_again = if_made s.has_control 1;
      }

pub data Reach : Shutdown → Type 0 where
  started : (forward control : Bool) → Reach (running forward control)
  by_step : {s t : Shutdown} → Reach s → ShutdownStep s t → Reach t
