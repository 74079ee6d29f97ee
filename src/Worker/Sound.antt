-- ===== src/Worker/Sound.antt =====
-- The engines stay valid while the worker runs.
use mathlib.Core.Path.{subst}
use high_performance_gaming.Common.{
  ℕ, ◌%◌, ◌+◌, ◌≡◌, inl, inr, refl, arith, Bool-cases, sym, ap, ◌==◌, Option, none, some, [], ◌∷◌,
}
use high_performance_gaming.Common.Array.{update}
use high_performance_gaming.Net.Bytes.{Memory, IsBytes}
use high_performance_gaming.Net.Packet.{Span, parse}
use high_performance_gaming.Net.Packet.Bounds.{raw_span-parse}
use high_performance_gaming.RingBuffer.Spsc
use high_performance_gaming.RingBuffer.Spsc.{SpscRingBuffer}
use high_performance_gaming.Scheduler.Float.{Float}
use high_performance_gaming.Scheduler.Shaper.{Shaper, Round}
use high_performance_gaming.Scheduler.Shaper.Order.{Ok, process_queue-Drained}
use high_performance_gaming.Pipeline.Callbacks.{dispatch_frame}
use high_performance_gaming.Pipeline.{World, PacketConsumer, on_packet_events}
use high_performance_gaming.Pipeline.Invariant.{
  OfSome, of_some, of_bytes, no_more, IsSound, on_packet_events-IsSound,
}
use high_performance_gaming.Worker.{
  Frame, RxFrameCopy, copy_frame, WorkerState, queue_capacity, push_frame, process_frame,
  drain_shaper, drained, ThreadStep, OtherStep, Reach, rx_enter, rx_leave, rx_stopped, rx_reads,
  rx_ready, rx_interrupted, rx_failed, rx_take, rx_none, rx_pushes, rx_signals, proc_enter,
  proc_leave, proc_takes, proc_drains, proc_stopped, proc_reads, proc_wakes, proc_interrupted,
  proc_failed, arrives, halts, wakes, started, by_thread, by_other,
}

abbrev data_of : Option RxFrameCopy → Memory
data_of none = λ i. 0
data_of (some copy) = copy.data_bytes

module _ (F : Float) where
  -- The engines are valid, and every slot of the queue holds bytes.
  abbrev pub IsRunning : WorkerState F → Type 0
  IsRunning s = IsSound F s.consumer × ((i : ℕ) → IsBytes (s.frame_q.buffer i).data_bytes)

  copy-IsBytes : (raw : Frame) → IsBytes (copy_frame raw).data_bytes
  unfolding copy_frame
  copy-IsBytes raw i = ground (arith, raw.bytes_ok i)

  written-IsBytes :
      (buffer : ℕ → RxFrameCopy) (copy : RxFrameCopy) (k i : ℕ)
      → ((i : ℕ) → IsBytes (buffer i).data_bytes)
      → IsBytes copy.data_bytes
      → IsBytes (update buffer k copy i).data_bytes
  written-IsBytes buffer copy k i b c = elim (Bool-cases (k == i)) [
    | inl here ↦ rw here c
    | inr there ↦ rw there (b i)
  ]

  buffer-IsBytes :
      (q : SpscRingBuffer RxFrameCopy) (copy : RxFrameCopy)
      → ((i : ℕ) → IsBytes (q.buffer i).data_bytes)
      → IsBytes copy.data_bytes
      → (i : ℕ) → IsBytes ((Spsc.push queue_capacity q copy).1.buffer i).data_bytes
  unfolding Spsc.push
  buffer-IsBytes q copy b c i = elim (Bool-cases ((q.tail + 1) % queue_capacity == q.head)) [
    | inl full ↦ rw full (b i)
    | inr room ↦ rw room (written-IsBytes q.buffer copy q.tail i b c)
  ]

  push-IsRunning : (s : WorkerState F) (raw : Frame) → IsRunning s → IsRunning (push_frame F s raw)
  unfolding push_frame
  push-IsRunning s raw (v, b) =
      elim (Bool-cases (Spsc.push queue_capacity s.frame_q (copy_frame raw)).0) [
        | inl done ↦ rw done (v, buffer-IsBytes s.frame_q (copy_frame raw) b (copy-IsBytes raw))
        | inr full ↦
            rw full (record { nat_ok = v.nat_ok; dhcp_ok = v.dhcp_ok; shaper_ok = v.shaper_ok }, b)
      ]

  popped-IsBytes :
      (s : WorkerState F) (copy : RxFrameCopy) (q : SpscRingBuffer RxFrameCopy)
      → Spsc.pop queue_capacity s.frame_q ≡ (some copy, q)
      → ((i : ℕ) → IsBytes (s.frame_q.buffer i).data_bytes)
      → IsBytes copy.data_bytes × ((i : ℕ) → IsBytes (q.buffer i).data_bytes)
  unfolding Spsc.pop
  popped-IsBytes s copy q e b = elim (Bool-cases (s.frame_q.head == s.frame_q.tail)) [
    | inl none_left ↦ absurd (ground (arith, ap (λ r. r.0) (rw none_left at e)))
    | inr some_left ↦
        let e' = rw some_left at e in
        (
          subst (λ o. IsBytes (data_of o)) (ap (λ r. r.0) e') (b s.frame_q.head),
          λ i. subst (λ q. IsBytes (q.buffer i).data_bytes) (ap (λ r. r.1) e') (b i),
        )
  ]

  -- The loop of the shaper always returns, and leaves the engines valid.
  pub drain_shaper-returns :
      (env : ℕ → Round F) (c : PacketConsumer F)
      → IsSound F c
      → (c' : PacketConsumer F) × (drain_shaper F env c.shaper c ≡ some c')
  unfolding drain_shaper
  drain_shaper-returns env c v = go c.shaper v.shaper_ok
    where
      go :
          (o : Option (Shaper F))
          → OfSome (Ok F) o
          → (c' : PacketConsumer F) × (drain_shaper F env o c ≡ some c')
      go none v = (c, refl)
      go (some s) (of_some _ ok) =
          let d = process_queue-Drained F env s ok in (_, ap (drained F c) d.returns)

  drain-OfSome :
      (env : ℕ → Round F) (o : Option (Shaper F)) (c : PacketConsumer F)
      → OfSome (Ok F) o
      → IsSound F c
      → OfSome (IsSound F) (drain_shaper F env o c)
  unfolding drain_shaper
  drain-OfSome env none c ok v = of_some _ v
  drain-OfSome env (some s) c (of_some _ ok) v =
      let d = process_queue-Drained F env s ok in
      rw d.returns
        (of_some _ (record { nat_ok = v.nat_ok; dhcp_ok = v.dhcp_ok; shaper_ok = of_some _ d.ok }))

  of_some_lem : (c : PacketConsumer F) → OfSome (IsSound F) (some c) → IsSound F c
  of_some_lem c (of_some _ v) = v

  process-IsRunning :
      (w : World) (s : WorkerState F) (copy : RxFrameCopy) (q : SpscRingBuffer RxFrameCopy)
      → IsSound F s.consumer
      → IsBytes copy.data_bytes
      → ((i : ℕ) → IsBytes (q.buffer i).data_bytes)
      → IsRunning (process_frame F w s q copy)
  unfolding process_frame on_packet_events
  process-IsRunning w s copy q v bytes rest =
      let frame : Span = record { size = copy.len; bytes = copy.data_bytes } in
      let parsed = subst (λ sp. IsBytes sp.bytes) (sym (raw_span-parse frame)) bytes in
      let c = s.consumer in
      (
        on_packet_events-IsSound F
            (record c { metrics = dispatch_frame c.callbacks frame c.metrics })
            ((w, parse frame) ∷ []) (of_bytes parsed no_more)
            (record { nat_ok = v.nat_ok; dhcp_ok = v.dhcp_ok; shaper_ok = v.shaper_ok }),
        rest,
      )

  thread-IsRunning : (s t : WorkerState F) → ThreadStep F s t → IsRunning s → IsRunning t
  unfolding process_frame
  thread-IsRunning s _ (rx_enter h r) v = v
  thread-IsRunning s _ (rx_leave h r) v = v
  thread-IsRunning s _ (rx_stopped h r) v = v
  thread-IsRunning s _ (rx_reads h r) v = v
  thread-IsRunning s _ (rx_ready h r) v = v
  thread-IsRunning s _ (rx_interrupted h) v = v
  thread-IsRunning s _ (rx_failed h) v = v
  thread-IsRunning s _ (rx_take raw rest h r e) v = v
  thread-IsRunning s _ (rx_none h r) v = v
  thread-IsRunning s _ (rx_pushes raw h) v = push-IsRunning s raw v
  thread-IsRunning s _ (rx_signals h) v = v
  thread-IsRunning s _ (proc_enter h r) v = v
  thread-IsRunning s _ (proc_leave h r) v = v
  thread-IsRunning s _ (proc_takes w copy q h e) (v, b) =
      let (bytes, rest) = popped-IsBytes s copy q e b in process-IsRunning w s copy q v bytes rest
  thread-IsRunning s _ (proc_drains env c h e k) (v, b) =
      (of_some_lem c (rw k at (drain-OfSome env s.consumer.shaper s.consumer v.shaper_ok v)), b)
  thread-IsRunning s _ (proc_stopped h r) v = v
  thread-IsRunning s _ (proc_reads h r) v = v
  thread-IsRunning s _ (proc_wakes h r e) v = v
  thread-IsRunning s _ (proc_interrupted h) v = v
  thread-IsRunning s _ (proc_failed h) v = v

  other-IsRunning : (s t : WorkerState F) → OtherStep F s t → IsRunning s → IsRunning t
  other-IsRunning s _ (arrives raw) v = v
  other-IsRunning s _ (halts h) v = v
  other-IsRunning s _ (wakes h) v = v

  -- From a sound consumer, whatever arrives and whatever the threads do, in whatever order, the NAT engine,
  -- the DHCP engine and the shaper stay valid, and the queue holds bytes.
  pub Reach-IsRunning :
      (c : PacketConsumer F) (s : WorkerState F) → IsSound F c → Reach F c s → IsRunning s
  Reach-IsRunning c _ v started = (v, λ i j. omega arith)
  Reach-IsRunning c _ v (by_thread r t) = thread-IsRunning _ _ t (Reach-IsRunning c _ v r)
  Reach-IsRunning c _ v (by_other r t) = other-IsRunning _ _ t (Reach-IsRunning c _ v r)
