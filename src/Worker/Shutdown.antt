-- ===== src/Worker/Shutdown.antt =====
-- Once `stop` has woken the workers, both threads end, whatever the order of their steps.
pub mod Ending
use high_performance_gaming.Common.{
  ℕ, zero, suc, ◌+◌, ◌-◌, ◌<◌, ◌≤◌, ◌≡◌, ◌≢◌, ◌⊎◌, inl, inr, refl, arith, false, true, Bool,
  Bool-cases, Option, none, some, ap, sym,
}
use high_performance_gaming.RingBuffer.Spsc
use high_performance_gaming.Scheduler.Float.{Float}
use high_performance_gaming.Pipeline.{PacketConsumer}
use high_performance_gaming.Worker.{
  StopAt, serving, halted, woken, RxAt, ProcAt, rx_loop, rx_poll, rx_read, rx_peek, rx_push,
  rx_signal, rx_ended, proc_loop, proc_pop, proc_poll, proc_read, proc_ended, WorkerState, Frame,
  copy_frame, queue_capacity, push_frame, process_frame, ThreadStep, OtherStep, Reach, new_worker,
  rx_enter, rx_leave, rx_stopped, rx_reads, rx_ready, rx_interrupted, rx_failed, rx_take, rx_none,
  rx_pushes, rx_signals, proc_enter, proc_leave, proc_takes, proc_drains, proc_stopped, proc_reads,
  proc_wakes, proc_interrupted, proc_failed, arrives, halts, wakes, started, by_thread, by_other,
}

-- One for a thread that is still to end.
abbrev pub rx_live : RxAt → ℕ
rx_live rx_loop = 1
rx_live rx_poll = 1
rx_live rx_read = 1
rx_live rx_peek = 1
rx_live (rx_push raw) = 1
rx_live rx_signal = 1
rx_live rx_ended = 0

abbrev pub proc_live : ProcAt → ℕ
proc_live proc_loop = 1
proc_live proc_pop = 1
proc_live proc_poll = 1
proc_live proc_read = 1
proc_live proc_ended = 0

-- What the steps of `stop` have done so far: the tokens are there once it has woken the workers, and no
-- token is read before.
abbrev pub Phase : StopAt → Bool → ℕ → RxAt → ProcAt → Type 0
Phase serving running tokens rx proc =
    (running ≡ true) × (tokens ≡ 0) × (rx ≢ rx_read) × (proc ≢ proc_read)
Phase halted running tokens rx proc =
    (running ≡ false) × (tokens ≡ 0) × (rx ≢ rx_read) × (proc ≢ proc_read)
Phase woken running tokens rx proc = (running ≡ false) × (rx_live rx + proc_live proc ≤ tokens)

rx_live-le : (rx : RxAt) → rx_live rx ≤ 1
rx_live-le rx_loop = omega arith
rx_live-le rx_poll = omega arith
rx_live-le rx_read = omega arith
rx_live-le rx_peek = omega arith
rx_live-le (rx_push raw) = omega arith
rx_live-le rx_signal = omega arith
rx_live-le rx_ended = omega arith

proc_live-le : (proc : ProcAt) → proc_live proc ≤ 1
proc_live-le proc_loop = omega arith
proc_live-le proc_pop = omega arith
proc_live-le proc_poll = omega arith
proc_live-le proc_read = omega arith
proc_live-le proc_ended = omega arith

-- A step of one thread, from a place where it is live to one where it does not read a token.
rx_moves :
    (at : StopAt) (running : Bool) (tokens : ℕ) (rx rx' : RxAt) (proc : ProcAt)
    → rx_live rx ≡ 1
    → rx' ≢ rx_read
    → Phase at running tokens rx proc
    → Phase at running tokens rx' proc
rx_moves serving running tokens rx rx' proc l h (r, t, a, b) = (r, t, h, b)
rx_moves halted running tokens rx rx' proc l h (r, t, a, b) = (r, t, h, b)
rx_moves woken running tokens rx rx' proc l h (r, t) = (r, omega (arith, t, l, rx_live-le rx'))

rx_finds :
    (at : StopAt) (running : Bool) (tokens : ℕ) (rx : RxAt) (proc : ProcAt)
    → rx_live rx ≡ 1
    → 0 < tokens
    → Phase at running tokens rx proc
    → Phase at running tokens rx_read proc
rx_finds serving running tokens rx proc l h (r, t, a, b) = absurd (omega (arith, h, t))
rx_finds halted running tokens rx proc l h (r, t, a, b) = absurd (omega (arith, h, t))
rx_finds woken running tokens rx proc l h (r, t) = (r, omega (arith, t, l))

rx_reads_one :
    (at : StopAt) (running : Bool) (tokens : ℕ) (rx : RxAt) (proc : ProcAt)
    → rx_live rx ≡ 1
    → 0 < tokens
    → Phase at running tokens rx proc
    → Phase at running (tokens - 1) rx_ended proc
rx_reads_one serving running tokens rx proc l h (r, t, a, b) = absurd (omega (arith, h, t))
rx_reads_one halted running tokens rx proc l h (r, t, a, b) = absurd (omega (arith, h, t))
rx_reads_one woken running tokens rx proc l h (r, t) = (r, omega (arith, t, l))

proc_moves :
    (at : StopAt) (running : Bool) (tokens : ℕ) (rx : RxAt) (proc proc' : ProcAt)
    → proc_live proc ≡ 1
    → proc' ≢ proc_read
    → Phase at running tokens rx proc
    → Phase at running tokens rx proc'
proc_moves serving running tokens rx proc proc' l h (r, t, a, b) = (r, t, a, h)
proc_moves halted running tokens rx proc proc' l h (r, t, a, b) = (r, t, a, h)
proc_moves woken running tokens rx proc proc' l h (r, t) =
    (r, omega (arith, t, l, proc_live-le proc'))

proc_finds :
    (at : StopAt) (running : Bool) (tokens : ℕ) (rx : RxAt) (proc : ProcAt)
    → proc_live proc ≡ 1
    → 0 < tokens
    → Phase at running tokens rx proc
    → Phase at running tokens rx proc_read
proc_finds serving running tokens rx proc l h (r, t, a, b) = absurd (omega (arith, h, t))
proc_finds halted running tokens rx proc l h (r, t, a, b) = absurd (omega (arith, h, t))
proc_finds woken running tokens rx proc l h (r, t) = (r, omega (arith, t, l))

proc_reads_one :
    (at : StopAt) (running : Bool) (tokens : ℕ) (rx : RxAt) (proc : ProcAt)
    → proc_live proc ≡ 1
    → 0 < tokens
    → Phase at running tokens rx proc
    → Phase at running (tokens - 1) rx proc_ended
proc_reads_one serving running tokens rx proc l h (r, t, a, b) = absurd (omega (arith, h, t))
proc_reads_one halted running tokens rx proc l h (r, t, a, b) = absurd (omega (arith, h, t))
proc_reads_one woken running tokens rx proc l h (r, t) = (r, omega (arith, t, l))

module _ (F : Float) where
  abbrev pub InPhase : WorkerState F → Type 0
  InPhase s = Phase s.stop_at s.running s.stop_efd s.rx s.proc

  push-InPhase :
      (s : WorkerState F) (raw : Frame)
      → s.rx ≡ rx_push raw
      → InPhase s
      → InPhase (push_frame F s raw)
  unfolding push_frame
  push-InPhase s raw h p =
      let live = ap rx_live h in
      elim (Bool-cases (Spsc.push queue_capacity s.frame_q (copy_frame raw)).0) [
        | inl done ↦ rw done (
            rx_moves s.stop_at s.running s.stop_efd s.rx rx_signal s.proc live
              (λ e. ground (arith, e)) p)
        | inr full ↦ rw full (
            rx_moves s.stop_at s.running s.stop_efd s.rx rx_peek s.proc live
              (λ e. ground (arith, e)) p)
      ]

  thread-InPhase : (s t : WorkerState F) → ThreadStep F s t → InPhase s → InPhase t
  unfolding process_frame
  thread-InPhase s _ (rx_enter h r) p =
      rx_moves s.stop_at s.running s.stop_efd s.rx rx_poll s.proc (ap rx_live h)
        (λ e. ground (arith, e)) p
  thread-InPhase s _ (rx_leave h r) p =
      rx_moves s.stop_at s.running s.stop_efd s.rx rx_ended s.proc (ap rx_live h)
        (λ e. ground (arith, e)) p
  thread-InPhase s _ (rx_stopped h r) p =
      rx_finds s.stop_at s.running s.stop_efd s.rx s.proc (ap rx_live h) r p
  thread-InPhase s _ (rx_reads h r) p =
      rx_reads_one s.stop_at s.running s.stop_efd s.rx s.proc (ap rx_live h) r p
  thread-InPhase s _ (rx_ready h r) p =
      rx_moves s.stop_at s.running s.stop_efd s.rx rx_peek s.proc (ap rx_live h)
        (λ e. ground (arith, e)) p
  thread-InPhase s _ (rx_interrupted h) p =
      rx_moves s.stop_at s.running s.stop_efd s.rx rx_loop s.proc (ap rx_live h)
        (λ e. ground (arith, e)) p
  thread-InPhase s _ (rx_failed h) p =
      rx_moves s.stop_at s.running s.stop_efd s.rx rx_ended s.proc (ap rx_live h)
        (λ e. ground (arith, e)) p
  thread-InPhase s _ (rx_take raw rest h r e) p =
      rx_moves s.stop_at s.running s.stop_efd s.rx (rx_push raw) s.proc (ap rx_live h)
        (λ e. ground (arith, e)) p
  thread-InPhase s _ (rx_none h r) p =
      rx_moves s.stop_at s.running s.stop_efd s.rx rx_loop s.proc (ap rx_live h)
        (λ e. ground (arith, e)) p
  thread-InPhase s _ (rx_pushes raw h) p = push-InPhase s raw h p
  thread-InPhase s _ (rx_signals h) p =
      rx_moves s.stop_at s.running s.stop_efd s.rx rx_peek s.proc (ap rx_live h)
        (λ e. ground (arith, e)) p
  thread-InPhase s _ (proc_enter h r) p =
      proc_moves s.stop_at s.running s.stop_efd s.rx s.proc proc_pop (ap proc_live h)
        (λ e. ground (arith, e)) p
  thread-InPhase s _ (proc_leave h r) p =
      proc_moves s.stop_at s.running s.stop_efd s.rx s.proc proc_ended (ap proc_live h)
        (λ e. ground (arith, e)) p
  thread-InPhase s _ (proc_takes w copy q h e) p = p
  thread-InPhase s _ (proc_drains env c h e k) p =
      proc_moves s.stop_at s.running s.stop_efd s.rx s.proc proc_poll (ap proc_live h)
        (λ e. ground (arith, e)) p
  thread-InPhase s _ (proc_stopped h r) p =
      proc_finds s.stop_at s.running s.stop_efd s.rx s.proc (ap proc_live h) r p
  thread-InPhase s _ (proc_reads h r) p =
      proc_reads_one s.stop_at s.running s.stop_efd s.rx s.proc (ap proc_live h) r p
  thread-InPhase s _ (proc_wakes h r e) p =
      proc_moves s.stop_at s.running s.stop_efd s.rx s.proc proc_loop (ap proc_live h)
        (λ e. ground (arith, e)) p
  thread-InPhase s _ (proc_interrupted h) p =
      proc_moves s.stop_at s.running s.stop_efd s.rx s.proc proc_loop (ap proc_live h)
        (λ e. ground (arith, e)) p
  thread-InPhase s _ (proc_failed h) p =
      proc_moves s.stop_at s.running s.stop_efd s.rx s.proc proc_ended (ap proc_live h)
        (λ e. ground (arith, e)) p

  other-InPhase : (s t : WorkerState F) → OtherStep F s t → InPhase s → InPhase t
  other-InPhase s _ (arrives raw) p = p
  other-InPhase s _ (halts h) p = let (r, t, a, b) = rw h at p in (refl, t, a, b)
  other-InPhase s _ (wakes h) p =
      let (r, t, a, b) = rw h at p in (r, omega (arith, t, rx_live-le s.rx, proc_live-le s.proc))

  pub Reach-InPhase : (c : PacketConsumer F) (s : WorkerState F) → Reach F c s → InPhase s
  Reach-InPhase c _ started = (refl, refl, (λ e. ground (arith, e)), (λ e. ground (arith, e)))
  Reach-InPhase c _ (by_thread r t) = thread-InPhase _ _ t (Reach-InPhase c _ r)
  Reach-InPhase c _ (by_other r t) = other-InPhase _ _ t (Reach-InPhase c _ r)
