-- ===== src/Worker/Shutdown/Ending.antt =====
-- How far a woken worker is from its end.
use high_performance_gaming.Common.{
  ℕ, ◌%◌, ◌==◌, ◌∙◌, suc, ◌+◌, ◌<◌, ◌≤◌, ◌≡◌, ◌≢◌, ◌⊎◌, inl, inr, refl, arith, false, true,
  Bool-cases, some, ap, [], ◌∷◌,
}
use high_performance_gaming.Common.Array.{length, length-append}
use high_performance_gaming.RingBuffer.Spsc
use high_performance_gaming.RingBuffer.Spsc.{SpscRingBuffer}
use high_performance_gaming.RingBuffer.Spsc.Refine.{contents, contents-push, contents-pop}
use high_performance_gaming.Scheduler.Float.{Float}
use high_performance_gaming.Scheduler.Shaper.{Round}
use high_performance_gaming.Pipeline.{World, PacketConsumer}
use high_performance_gaming.Pipeline.Invariant.{IsSound}
use high_performance_gaming.Worker.{
  woken, RxAt, ProcAt, rx_loop, rx_poll, rx_read, rx_peek, rx_push, rx_signal, rx_ended, proc_loop,
  proc_pop, proc_poll, proc_read, proc_ended, WorkerState, Frame, RxFrameCopy, copy_frame,
  queue_capacity, push_frame, process_frame, ThreadStep, OtherStep, Reach, rx_enter, rx_leave,
  rx_stopped, rx_reads, rx_ready, rx_interrupted, rx_failed, rx_take, rx_none, rx_pushes,
  rx_signals, proc_enter, proc_leave, proc_takes, proc_drains, proc_stopped, proc_reads, proc_wakes,
  proc_interrupted, proc_failed, arrives, halts, wakes, by_thread, by_other,
}
use high_performance_gaming.Worker.Delivery.{accepts, takes, IsDelivering, reached}
use high_performance_gaming.Worker.Sound.{Reach-IsRunning, drain_shaper-returns}
use high_performance_gaming.Worker.Shutdown.{rx_live, proc_live, Reach-InPhase}

-- How many steps a thread can still make, but for the frames in the queue.
abbrev pub rx_rank : RxAt → ℕ
rx_rank rx_loop = 1
rx_rank rx_poll = 2
rx_rank rx_read = 1
rx_rank rx_peek = 3
rx_rank (rx_push raw) = 6
rx_rank rx_signal = 4
rx_rank rx_ended = 0

abbrev pub proc_rank : ProcAt → ℕ
proc_rank proc_loop = 1
proc_rank proc_pop = 3
proc_rank proc_poll = 2
proc_rank proc_read = 1
proc_rank proc_ended = 0

pub data Kind : Type 0 where
  by_rx by_proc by_kernel : Kind

module _ (F : Float) where
  abbrev pub steps_left : WorkerState F → ℕ
  steps_left s = rx_rank s.rx + proc_rank s.proc + length (contents queue_capacity s.frame_q)

  -- The workers have been woken: `running_` is reset, and there is a token for each live thread.
  pub record IsWoken (s : WorkerState F) : Type 0 where
    pub woken_at : s.stop_at ≡ woken
    pub halted_too : s.running ≡ false
    pub tokens : rx_live s.rx + proc_live s.proc ≤ s.stop_efd
    pub delivering : IsDelivering F s

  woken-IsWoken :
      (c : PacketConsumer F) (s : WorkerState F) → Reach F c s → s.stop_at ≡ woken → IsWoken s
  woken-IsWoken c s r h =
      let (off, t) = rw h at (Reach-InPhase F c s r) in
      record { woken_at = h; halted_too = off; tokens = t; delivering = reached F c s r }

  push-shorter :
      (s : WorkerState F) (raw : Frame)
      → s.rx ≡ rx_push raw
      → IsWoken s
      → steps_left (push_frame F s raw) < steps_left s
  unfolding push_frame
  push-shorter s raw h w =
      let copy = copy_frame raw in
      let old = contents queue_capacity s.frame_q in
      let (v, t) = w.delivering in
      let pushed = Spsc.push queue_capacity s.frame_q copy in
      elim (Bool-cases pushed.0) [
        | inl done ↦
            let e =
              accepts queue_capacity old copy pushed.0 _
                (contents-push queue_capacity s.frame_q copy v) done in
            rw (done, e) (omega (arith, ap rx_rank h, length-append old (copy ∷ [])))
        | inr full ↦ rw full (omega (arith, ap rx_rank h))
      ]

  take-shorter :
      (s : WorkerState F) (copy : RxFrameCopy) (q : SpscRingBuffer RxFrameCopy)
      → Spsc.pop queue_capacity s.frame_q ≡ (some copy, q)
      → IsWoken s
      → length (contents queue_capacity q) < length (contents queue_capacity s.frame_q)
  take-shorter s copy q e w =
      let (v, t) = w.delivering in
      let old =
        takes (contents queue_capacity s.frame_q) copy (contents queue_capacity q)
          (rw e at (contents-pop queue_capacity s.frame_q v)) in
      omega (arith, ap length old)

  not_running : (s : WorkerState F) → IsWoken s → s.running ≢ true
  not_running s w h = ground (arith, w.halted_too, h)

  -- Each step of a thread of a woken worker brings it nearer its end.
  thread-shorter :
      (s t : WorkerState F) → ThreadStep F s t → IsWoken s → steps_left t < steps_left s
  unfolding process_frame
  thread-shorter s _ (rx_enter h r) w = absurd (not_running s w r)
  thread-shorter s _ (rx_leave h r) w = omega (arith, ap rx_rank h)
  thread-shorter s _ (rx_stopped h r) w = omega (arith, ap rx_rank h)
  thread-shorter s _ (rx_reads h r) w = omega (arith, ap rx_rank h)
  thread-shorter s _ (rx_ready h r) w = absurd (omega (arith, ap rx_live h, w.tokens, r))
  thread-shorter s _ (rx_interrupted h) w = omega (arith, ap rx_rank h)
  thread-shorter s _ (rx_failed h) w = omega (arith, ap rx_rank h)
  thread-shorter s _ (rx_take raw rest h r e) w = absurd (not_running s w r)
  thread-shorter s _ (rx_none h r) w = omega (arith, ap rx_rank h)
  thread-shorter s _ (rx_pushes raw h) w = push-shorter s raw h w
  thread-shorter s _ (rx_signals h) w = omega (arith, ap rx_rank h)
  thread-shorter s _ (proc_enter h r) w = absurd (not_running s w r)
  thread-shorter s _ (proc_leave h r) w = omega (arith, ap proc_rank h)
  thread-shorter s _ (proc_takes x copy q h e) w = omega (arith, take-shorter s copy q e w)
  thread-shorter s _ (proc_drains env c h e k) w = omega (arith, ap proc_rank h)
  thread-shorter s _ (proc_stopped h r) w = omega (arith, ap proc_rank h)
  thread-shorter s _ (proc_reads h r) w = omega (arith, ap proc_rank h)
  thread-shorter s _ (proc_wakes h r e) w = absurd (omega (arith, ap proc_live h, w.tokens, r))
  thread-shorter s _ (proc_interrupted h) w = omega (arith, ap proc_rank h)
  thread-shorter s _ (proc_failed h) w = omega (arith, ap proc_rank h)

  -- A run of the worker, with the number of the steps that its two threads make.
  pub data Runs (s : WorkerState F) : ℕ → WorkerState F → Type 0 where
    stays : Runs s 0 s
    thread_steps : {n : ℕ} {t u : WorkerState F} → Runs s n t → ThreadStep F t u → Runs s (suc n) u
    other_steps : {n : ℕ} {t u : WorkerState F} → Runs s n t → OtherStep F t u → Runs s n u

  Runs-Reach :
      (c : PacketConsumer F) (s : WorkerState F) (n : ℕ) (t : WorkerState F)
      → Reach F c s
      → Runs s n t
      → Reach F c t
  Runs-Reach c s _ _ r stays = r
  Runs-Reach c s _ _ r (thread_steps q st) = by_thread (Runs-Reach c s _ _ r q) st
  Runs-Reach c s _ _ r (other_steps q st) = by_other (Runs-Reach c s _ _ r q) st

  stop_at-thread : (s t : WorkerState F) → ThreadStep F s t → t.stop_at ≡ s.stop_at
  unfolding process_frame push_frame
  stop_at-thread s _ (rx_pushes raw h) =
      elim (Bool-cases (Spsc.push queue_capacity s.frame_q (copy_frame raw)).0) [
        | inl done ↦ rw done refl
        | inr full ↦ rw full refl
      ]
  stop_at-thread s _ (rx_enter h r) = refl
  stop_at-thread s _ (rx_leave h r) = refl
  stop_at-thread s _ (rx_stopped h r) = refl
  stop_at-thread s _ (rx_reads h r) = refl
  stop_at-thread s _ (rx_ready h r) = refl
  stop_at-thread s _ (rx_interrupted h) = refl
  stop_at-thread s _ (rx_failed h) = refl
  stop_at-thread s _ (rx_take raw rest h r e) = refl
  stop_at-thread s _ (rx_none h r) = refl
  stop_at-thread s _ (rx_signals h) = refl
  stop_at-thread s _ (proc_enter h r) = refl
  stop_at-thread s _ (proc_leave h r) = refl
  stop_at-thread s _ (proc_takes w copy q h e) = refl
  stop_at-thread s _ (proc_drains env c h e k) = refl
  stop_at-thread s _ (proc_stopped h r) = refl
  stop_at-thread s _ (proc_reads h r) = refl
  stop_at-thread s _ (proc_wakes h r e) = refl
  stop_at-thread s _ (proc_interrupted h) = refl
  stop_at-thread s _ (proc_failed h) = refl

  other-same :
      (s t : WorkerState F)
      → OtherStep F s t
      → s.stop_at ≡ woken
      → (t.stop_at ≡ woken) × (steps_left t ≡ steps_left s)
  other-same s _ (arrives raw) h = (h, refl)
  other-same s _ (halts e) h = absurd (ground (arith, e, h))
  other-same s _ (wakes e) h = absurd (ground (arith, e, h))

  Runs-shorter :
      (c : PacketConsumer F) (s : WorkerState F) (n : ℕ) (t : WorkerState F)
      → Reach F c s
      → s.stop_at ≡ woken
      → Runs s n t
      → (t.stop_at ≡ woken) × (n + steps_left t ≤ steps_left s)
  Runs-shorter c s _ _ r h stays = (h, omega arith)
  Runs-shorter c s _ _ r h (thread_steps {t} {u} q st) =
      let (at, le) = Runs-shorter c s _ _ r h q in
      let w = woken-IsWoken c t (Runs-Reach c s _ _ r q) at in
      (stop_at-thread t u st ∙ at, omega (arith, le, thread-shorter t u st w))
  Runs-shorter c s _ _ r h (other_steps {t} {u} q st) =
      let (at, le) = Runs-shorter c s _ _ r h q in
      let (at', same) = other-same t u st at in (at', omega (arith, le, same))

  -- Which thread makes a step of its own accord; `by_kernel` are those where `poll` is interrupted or fails.
  abbrev pub kind : (s t : WorkerState F) → ThreadStep F s t → Kind
  kind s _ (rx_enter h r) = by_rx
  kind s _ (rx_leave h r) = by_rx
  kind s _ (rx_stopped h r) = by_rx
  kind s _ (rx_reads h r) = by_rx
  kind s _ (rx_ready h r) = by_rx
  kind s _ (rx_interrupted h) = by_kernel
  kind s _ (rx_failed h) = by_kernel
  kind s _ (rx_take raw rest h r e) = by_rx
  kind s _ (rx_none h r) = by_rx
  kind s _ (rx_pushes raw h) = by_rx
  kind s _ (rx_signals h) = by_rx
  kind s _ (proc_enter h r) = by_proc
  kind s _ (proc_leave h r) = by_proc
  kind s _ (proc_takes w copy q h e) = by_proc
  kind s _ (proc_drains env c h e k) = by_proc
  kind s _ (proc_stopped h r) = by_proc
  kind s _ (proc_reads h r) = by_proc
  kind s _ (proc_wakes h r e) = by_proc
  kind s _ (proc_interrupted h) = by_kernel
  kind s _ (proc_failed h) = by_kernel

  abbrev pub HasStep : Kind → WorkerState F → Type 0
  HasStep k s = (t : WorkerState F) × (step : ThreadStep F s t) × (kind s t step ≡ k)

  pops :
      (s : WorkerState F) (w : World) (env : ℕ → Round F)
      → s.proc ≡ proc_pop
      → IsSound F s.consumer
      → HasStep by_proc s
  unfolding Spsc.pop
  pops s w env h v = elim (Bool-cases (s.frame_q.head == s.frame_q.tail)) [
    | inl none_left ↦
        let (c', k) = drain_shaper-returns F env s.consumer v in
        (_, proc_drains env c' h (rw none_left refl) k, refl)
    | inr some_left ↦
        let q = s.frame_q in
        (
          _,
          proc_takes w (q.buffer q.head) (record q { head = (q.head + 1) % queue_capacity }) h
              (rw some_left refl),
          refl,
        )
  ]

  proc_steps :
      (s : WorkerState F) (w : World) (env : ℕ → Round F) (at : ProcAt)
      → s.proc ≡ at
      → IsWoken s
      → IsSound F s.consumer
      → (s.proc ≡ proc_ended) ⊎ HasStep by_proc s
  proc_steps s w env proc_loop h k v = inr (_, proc_leave h k.halted_too, refl)
  proc_steps s w env proc_pop h k v = inr (pops s w env h v)
  proc_steps s w env proc_poll h k v =
      inr (_, proc_stopped h (omega (arith, ap proc_live h, k.tokens)), refl)
  proc_steps s w env proc_read h k v =
      inr (_, proc_reads h (omega (arith, ap proc_live h, k.tokens)), refl)
  proc_steps s w env proc_ended h k v = inl h

  rx_steps :
      (s : WorkerState F) (at : RxAt) → s.rx ≡ at → IsWoken s → (s.rx ≡ rx_ended) ⊎ HasStep by_rx s
  rx_steps s rx_loop h k = inr (_, rx_leave h k.halted_too, refl)
  rx_steps s rx_poll h k = inr (_, rx_stopped h (omega (arith, ap rx_live h, k.tokens)), refl)
  rx_steps s rx_read h k = inr (_, rx_reads h (omega (arith, ap rx_live h, k.tokens)), refl)
  rx_steps s rx_peek h k = inr (_, rx_none h (inl k.halted_too), refl)
  rx_steps s (rx_push raw) h k = inr (_, rx_pushes raw h, refl)
  rx_steps s rx_signal h k = inr (_, rx_signals h, refl)
  rx_steps s rx_ended h k = inl h

  -- Once `stop` has woken a worker whose engines were sound at its start: in any run from there, the two
  -- threads make at most `steps_left` steps, and at its end each of the two threads has ended or can make a
  -- step of its own, one that does not wait for `poll` to be interrupted or to fail.
  pub stop-ends :
      (c : PacketConsumer F) (s : WorkerState F) (n : ℕ) (t : WorkerState F) (w : World)
      (env : ℕ → Round F)
      → IsSound F c
      → Reach F c s
      → s.stop_at ≡ woken
      → Runs s n t
      → (n ≤ steps_left s)
        × ((t.rx ≡ rx_ended) ⊎ HasStep by_rx t)
        × ((t.proc ≡ proc_ended) ⊎ HasStep by_proc t)
  stop-ends c s n t w env v r h q =
      let (at, le) = Runs-shorter c s n t r h q in
      let r' = Runs-Reach c s n t r q in
      let k = woken-IsWoken c t r' at in
      (
        omega (arith, le),
        rx_steps t t.rx refl k,
        proc_steps t w env t.proc refl k (Reach-IsRunning F c t v r').0,
      )
