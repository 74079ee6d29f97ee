-- ===== src/Tests/Workers.antt =====
-- A worker that receives one frame, and is stopped with the frame in hand.
use high_performance_gaming.Common.{◌≡◌, ◌≤◌, ◌⊎◌, arith, refl, true, false, none, some, []}
use high_performance_gaming.NatEngine.State.{new_engine}
use high_performance_gaming.NatEngine.Engine.Invariant.{new_engine-IsValid}
use high_performance_gaming.RingBuffer.Spsc
use high_performance_gaming.Telemetry.{no_stats, no_lanes}
use high_performance_gaming.Scheduler.TxFrame.{wrote}
use high_performance_gaming.Scheduler.Shaper.{Round}
use high_performance_gaming.Pipeline.{World, PacketConsumer}
use high_performance_gaming.Pipeline.Callbacks.{app_events}
use high_performance_gaming.Pipeline.Invariant.{IsSound, of_none, of_some}
use high_performance_gaming.Worker.{
  Frame, WorkerState, new_worker, push_frame, drain_shaper, rx_push, rx_ended, proc_ended,
  proc_poll, woken, Reach, started, by_thread, by_other, proc_enter, proc_drains, arrives, rx_enter,
  rx_ready, rx_take, rx_pushes, halts, wakes,
}
use high_performance_gaming.Worker.Wakeup.{HasSignal, Reach-HasSignal}
use high_performance_gaming.Worker.Sound.{IsRunning, Reach-IsRunning}
use high_performance_gaming.Worker.Shutdown.Ending.{
  steps_left, stays, thread_steps, by_rx, by_proc, HasStep, stop-ends,
}
use high_performance_gaming.Tests.Wholes.{whole, wholes}
use high_performance_gaming.Tests.Frames.{span, query}
use high_performance_gaming.Tests.Hops.{snapshot}
use high_performance_gaming.Tests.Leases.{blank, blank-IsValid}

abbrev frame : Frame
frame = record { span = span query; bytes_ok = λ i. omega arith }

-- Without a shaper.
abbrev consumer : PacketConsumer wholes
consumer = record {
  core_id = 3;
  stats = no_stats;
  shaper = none;
  nat_engine = some new_engine;
  dhcp_engine = some blank;
  callbacks = app_events;
  metrics = λ core. no_stats;
  dropped = λ core. no_lanes;
  sent = [];
}

consumer-IsSound : IsSound wholes consumer
consumer-IsSound = record {
  nat_ok = of_some _ new_engine-IsValid;
  dhcp_ok = of_some _ blank-IsValid;
  shaper_ok = of_none;
}

abbrev round : Round wholes
round = record {
  now = whole 0;
  now' = whole 0;
  kernel = record { interrupts = 0; result = wrote 42 };
}

-- The processing thread has found nothing and sleeps.
abbrev asleep : WorkerState wholes
asleep = record (new_worker wholes consumer) { proc = proc_poll }

asleep_reached : Reach wholes consumer asleep
unfolding Spsc.pop drain_shaper
asleep_reached =
    by_thread (by_thread started (proc_enter refl refl))
      (proc_drains (λ k. round) consumer refl refl refl)

-- The receive thread has a frame in hand.
abbrev holding : WorkerState wholes
holding = record asleep { rx = rx_push frame }

holding_reached : Reach wholes consumer holding
holding_reached =
    by_thread
      (by_thread (by_thread (by_other asleep_reached (arrives frame)) (rx_enter refl refl))
        (rx_ready refl refl))
      (rx_take frame [] refl refl refl)

abbrev queued : WorkerState wholes
queued = push_frame wholes holding frame

queued_reached : Reach wholes consumer queued
queued_reached = by_thread holding_reached (rx_pushes frame refl)

still_asleep : queued.proc ≡ proc_poll
unfolding push_frame Spsc.push
still_asleep = refl

Reach-HasSignal_example : HasSignal wholes queued
Reach-HasSignal_example = Reach-HasSignal wholes consumer queued queued_reached still_asleep

Reach-IsRunning_example : IsRunning wholes queued
Reach-IsRunning_example = Reach-IsRunning wholes consumer queued consumer-IsSound queued_reached

abbrev stopped : WorkerState wholes
stopped = record holding { running = false; stop_at = woken; stop_efd = 2 }

stopped_reached : Reach wholes consumer stopped
stopped_reached = by_other (by_other holding_reached (halts refl)) (wakes refl)

abbrev last : WorkerState wholes
last = push_frame wholes stopped frame

abbrev world : World
world = record {
  enable_nat = true;
  effective_bridge_mode = false;
  large_packet_threshold = 1000;
  snapshot = snapshot;
  kernel = record { interrupts = 0; result = wrote 42 };
}

stop-ends_example :
    (1 ≤ steps_left wholes stopped)
    × ((last.rx ≡ rx_ended) ⊎ HasStep wholes by_rx last)
    × ((last.proc ≡ proc_ended) ⊎ HasStep wholes by_proc last)
stop-ends_example =
    stop-ends wholes consumer stopped 1 last world (λ k. round) consumer-IsSound stopped_reached
      refl (thread_steps stays (rx_pushes frame refl))
