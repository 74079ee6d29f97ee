-- ===== src/Worker/Wakeup.antt =====
-- No frame waits in the queue while the processing thread sleeps.
use high_performance_gaming.Common.{
  none, some, ◌==◌, ◌<◌, ◌≡◌, ◌≢◌, ◌⊎◌, inl, inr, refl, arith, Bool-cases, ap,
}
use high_performance_gaming.RingBuffer.Spsc
use high_performance_gaming.Scheduler.Float.{Float}
use high_performance_gaming.Pipeline.{PacketConsumer}
use high_performance_gaming.Worker.{
  WorkerState, queue_capacity, push_frame, process_frame, ThreadStep, OtherStep, Reach, rx_enter,
  rx_leave, rx_stopped, rx_reads, rx_ready, rx_interrupted, rx_failed, rx_take, rx_none, rx_pushes,
  rx_signals, proc_enter, proc_leave, proc_takes, proc_drains, proc_stopped, proc_reads, proc_wakes,
  proc_interrupted, proc_failed, arrives, halts, wakes, started, by_thread, by_other, rx_signal,
  proc_poll, Frame, copy_frame, rx_push,
}

some_not_none : {A : Type 0} {x : A} → some x ≢ none
some_not_none h = ground (arith, h)

module _ (F : Float) where
  -- The queue is empty, `frame_efd` is readable, or the receive thread is about to make it so.
  abbrev pub HasSignal : WorkerState F → Type 0
  HasSignal s = (s.frame_q.head ≡ s.frame_q.tail) ⊎ (0 < s.frame_efd) ⊎ (s.rx ≡ rx_signal)

  abbrev IsAwake : WorkerState F → Type 0
  IsAwake s = s.proc ≡ proc_poll → HasSignal s

  push-IsAwake :
      (s : WorkerState F) (raw : Frame)
      → IsAwake s
      → s.rx ≡ rx_push raw
      → IsAwake (push_frame F s raw)
  unfolding push_frame
  push-IsAwake s raw a h p =
      elim (Bool-cases (Spsc.push queue_capacity s.frame_q (copy_frame raw)).0) [
        | inl done ↦ rw done (inr (inr refl))
        | inr full ↦ ground (arith, a (rw full at p), h, full)
      ]

  popped_none :
      (s : WorkerState F)
      → Spsc.pop queue_capacity s.frame_q ≡ (none, s.frame_q)
      → s.frame_q.head ≡ s.frame_q.tail
  unfolding Spsc.pop
  popped_none s e = elim (Bool-cases (s.frame_q.head == s.frame_q.tail)) [
    | inl same ↦ ground (arith, same)
    | inr other ↦ absurd (some_not_none (ap (λ r. r.0) (rw other at e)))
  ]

  thread-IsAwake : (s t : WorkerState F) → ThreadStep F s t → IsAwake s → IsAwake t
  unfolding process_frame
  thread-IsAwake s _ (rx_enter h r) a p = ground (arith, a p, h)
  thread-IsAwake s _ (rx_leave h r) a p = ground (arith, a p, h)
  thread-IsAwake s _ (rx_stopped h r) a p = ground (arith, a p, h)
  thread-IsAwake s _ (rx_reads h r) a p = ground (arith, a p, h)
  thread-IsAwake s _ (rx_ready h r) a p = ground (arith, a p, h)
  thread-IsAwake s _ (rx_interrupted h) a p = ground (arith, a p, h)
  thread-IsAwake s _ (rx_failed h) a p = ground (arith, a p, h)
  thread-IsAwake s _ (rx_take raw rest h r e) a p = ground (arith, a p, h)
  thread-IsAwake s _ (rx_none h r) a p = ground (arith, a p, h)
  thread-IsAwake s _ (rx_pushes raw h) a p = push-IsAwake s raw a h p
  thread-IsAwake s _ (rx_signals h) a p = inr (inl (omega arith))
  thread-IsAwake s _ (proc_enter h r) a p = absurd (ground (arith, p))
  thread-IsAwake s _ (proc_leave h r) a p = absurd (ground (arith, p))
  thread-IsAwake s _ (proc_takes w copy q h e) a p = absurd (ground (arith, h, p))
  thread-IsAwake s _ (proc_drains env c h e d) a p = inl (popped_none s e)
  thread-IsAwake s _ (proc_stopped h r) a p = absurd (ground (arith, p))
  thread-IsAwake s _ (proc_reads h r) a p = absurd (ground (arith, p))
  thread-IsAwake s _ (proc_wakes h r e) a p = absurd (ground (arith, p))
  thread-IsAwake s _ (proc_interrupted h) a p = absurd (ground (arith, p))
  thread-IsAwake s _ (proc_failed h) a p = absurd (ground (arith, p))

  other-IsAwake : (s t : WorkerState F) → OtherStep F s t → IsAwake s → IsAwake t
  other-IsAwake s _ (arrives raw) a = a
  other-IsAwake s _ (halts h) a = a
  other-IsAwake s _ (wakes h) a = a

  Reach-IsAwake : (c : PacketConsumer F) (s : WorkerState F) → Reach F c s → IsAwake s
  Reach-IsAwake c _ started = λ p. absurd (ground (arith, p))
  Reach-IsAwake c _ (by_thread r t) = thread-IsAwake _ _ t (Reach-IsAwake c _ r)
  Reach-IsAwake c _ (by_other r t) = other-IsAwake _ _ t (Reach-IsAwake c _ r)

  -- Whatever the three threads have done since the start, in whatever order: where the processing thread
  -- sleeps in `poll` and a frame is in the queue, `frame_efd` is readable, or the receive thread is about
  -- to make it so.
  pub Reach-HasSignal :
      (c : PacketConsumer F) (s : WorkerState F) → Reach F c s → s.proc ≡ proc_poll → HasSignal s
  Reach-HasSignal c s r p = Reach-IsAwake c s r p
