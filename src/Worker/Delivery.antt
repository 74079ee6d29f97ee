-- ===== src/Worker/Delivery.antt =====
-- Every frame that is taken off the socket is processed, waits in the queue, or is counted as refused.
use mathlib.Core.List.{append_assoc}
use high_performance_gaming.Common.{
  ℕ, ◌+◌, ◌%◌, ◌^◌, ◌<◌, ◌≡◌, min, refl, inl, inr, arith, Bool, true, Bool-cases, ap, some, List,
  [], ◌∷◌, ◌++◌, ltb,
}
use high_performance_gaming.Common.Array.{length}
use high_performance_gaming.RingBuffer.Slots.{slots}
use high_performance_gaming.RingBuffer.Spsc
use high_performance_gaming.RingBuffer.Spsc.{SpscRingBuffer}
use high_performance_gaming.RingBuffer.Spsc.Refine.{
  IsValid, size, contents, push-IsValid, pop-IsValid, contents-push, contents-pop, bounded_push,
  queue_pop,
}
use high_performance_gaming.Scheduler.Float.{Float}
use high_performance_gaming.Pipeline.{PacketConsumer}
use high_performance_gaming.Worker.{
  Frame, RxFrameCopy, copy_frame, WorkerState, queue_capacity, push_frame, process_frame,
  ThreadStep, OtherStep, Reach, new_worker, rx_enter, rx_leave, rx_stopped, rx_reads, rx_ready,
  rx_interrupted, rx_failed, rx_take, rx_none, rx_pushes, rx_signals, proc_enter, proc_leave,
  proc_takes, proc_drains, proc_stopped, proc_reads, proc_wakes, proc_interrupted, proc_failed,
  arrives, halts, wakes, started, by_thread, by_other,
}

-- A copy has every byte of the frame, the first 2048 of a longer one.
pub record IsCopy (raw : Frame) (copy : RxFrameCopy) : Type 0 where
  pub whole : copy.len ≡ min raw.span.size 2048
  pub same : (i : ℕ) → i < copy.len → copy.data_bytes i ≡ raw.span.bytes i

copy_frame-IsCopy : (raw : Frame) → IsCopy raw (copy_frame raw)
unfolding copy_frame
copy_frame-IsCopy raw = record { whole = refl; same = λ i h. ground (arith, h) }

-- The first list has copies of the frames of the second, in their order, for all but `n` of them.
pub data Thinned : List RxFrameCopy → List Frame → ℕ → Type 0 where
  nothing_yet : Thinned [] [] 0
  keeps :
      {kept : List RxFrameCopy} {all : List Frame} {n : ℕ} (raw : Frame) (copy : RxFrameCopy)
      → IsCopy raw copy
      → Thinned kept all n
      → Thinned (kept ++ (copy ∷ [])) (all ++ (raw ∷ [])) n
  loses :
      {kept : List RxFrameCopy} {all : List Frame} {n : ℕ} (raw : Frame)
      → Thinned kept all n
      → Thinned kept (all ++ (raw ∷ [])) (n + 1)

pub accepts :
    {A : Type 0} (capacity : ℕ) (xs : List A) (x : A) (done : Bool) (ys : List A)
    → (done, ys) ≡ bounded_push capacity xs x
    → done ≡ true
    → ys ≡ xs ++ (x ∷ [])
unfolding bounded_push
accepts capacity xs x done ys e d = elim (Bool-cases (ltb (length xs + 1) capacity)) [
  | inl room ↦ ap (λ r. r.1) (rw room at e)
  | inr full ↦ absurd (ground (arith, d, ap (λ r. r.0) (rw full at e)))
]

pub takes :
    {A : Type 0} (xs : List A) (x : A) (ys : List A) → (some x, ys) ≡ queue_pop xs → xs ≡ x ∷ ys
unfolding queue_pop
takes [] x ys e = absurd (ground (arith, ap (λ r. r.0) e))
takes (x' ∷ xs) x ys e = ground (arith, ap (λ r. r.0) e, ap (λ r. r.1) e)

module _ (F : Float) where
  -- The queue is valid, and the frames that were processed, then those that wait, are the ones taken off
  -- the socket, in their order, less as many as `refused`.
  abbrev pub IsDelivering : WorkerState F → Type 0
  IsDelivering s =
      IsValid queue_capacity s.frame_q
      × Thinned (s.processed ++ contents queue_capacity s.frame_q) s.received s.refused

  push-IsDelivering :
      (s : WorkerState F) (raw : Frame) → IsDelivering s → IsDelivering (push_frame F s raw)
  unfolding push_frame
  push-IsDelivering s raw (v, t) =
      let copy = copy_frame raw in
      let pushed = Spsc.push queue_capacity s.frame_q copy in
      let old = contents queue_capacity s.frame_q in
      elim (Bool-cases pushed.0) [
        | inl done ↦
            let e =
              accepts queue_capacity old copy pushed.0 _
                (contents-push queue_capacity s.frame_q copy v) done in
            let kept = keeps raw copy (copy_frame-IsCopy raw) t in
            rw done (
              push-IsValid queue_capacity s.frame_q copy v,
              rw (e, ← append_assoc s.processed old (copy ∷ [])) kept,
            )
        | inr full ↦ rw full (v, loses raw t)
      ]

  take-IsDelivering :
      (s : WorkerState F) (copy : RxFrameCopy) (q : SpscRingBuffer RxFrameCopy)
      → Spsc.pop queue_capacity s.frame_q ≡ (some copy, q)
      → IsDelivering s
      → IsValid queue_capacity q
        × Thinned ((s.processed ++ (copy ∷ [])) ++ contents queue_capacity q) s.received s.refused
  take-IsDelivering s copy q e (v, t) =
      let v' = rw e at (pop-IsValid queue_capacity s.frame_q v) in
      let old =
        takes (contents queue_capacity s.frame_q) copy (contents queue_capacity q)
          (rw e at (contents-pop queue_capacity s.frame_q v)) in
      (v', rw (append_assoc s.processed (copy ∷ []) (contents queue_capacity q)) (rw old at t))

  thread-IsDelivering : (s t : WorkerState F) → ThreadStep F s t → IsDelivering s → IsDelivering t
  unfolding process_frame
  thread-IsDelivering s _ (rx_enter h r) d = d
  thread-IsDelivering s _ (rx_leave h r) d = d
  thread-IsDelivering s _ (rx_stopped h r) d = d
  thread-IsDelivering s _ (rx_reads h r) d = d
  thread-IsDelivering s _ (rx_ready h r) d = d
  thread-IsDelivering s _ (rx_interrupted h) d = d
  thread-IsDelivering s _ (rx_failed h) d = d
  thread-IsDelivering s _ (rx_take raw rest h r e) d = d
  thread-IsDelivering s _ (rx_none h r) d = d
  thread-IsDelivering s _ (rx_pushes raw h) d = push-IsDelivering s raw d
  thread-IsDelivering s _ (rx_signals h) d = d
  thread-IsDelivering s _ (proc_enter h r) d = d
  thread-IsDelivering s _ (proc_leave h r) d = d
  thread-IsDelivering s _ (proc_takes w copy q h e) d = take-IsDelivering s copy q e d
  thread-IsDelivering s _ (proc_drains env c h e k) d = d
  thread-IsDelivering s _ (proc_stopped h r) d = d
  thread-IsDelivering s _ (proc_reads h r) d = d
  thread-IsDelivering s _ (proc_wakes h r e) d = d
  thread-IsDelivering s _ (proc_interrupted h) d = d
  thread-IsDelivering s _ (proc_failed h) d = d

  other-IsDelivering : (s t : WorkerState F) → OtherStep F s t → IsDelivering s → IsDelivering t
  other-IsDelivering s _ (arrives raw) d = d
  other-IsDelivering s _ (halts h) d = d
  other-IsDelivering s _ (wakes h) d = d

  new-IsDelivering : (c : PacketConsumer F) → IsDelivering (new_worker F c)
  unfolding slots
  new-IsDelivering c = (record { head_in = omega arith; tail_in = omega arith }, nothing_yet)

  pub reached : (c : PacketConsumer F) (s : WorkerState F) → Reach F c s → IsDelivering s
  reached c _ started = new-IsDelivering c
  reached c _ (by_thread r t) = thread-IsDelivering _ _ t (reached c _ r)
  reached c _ (by_other r t) = other-IsDelivering _ _ t (reached c _ r)

  -- What the push of a frame comes to: its copy goes behind the others, or the queue holds 1023 copies, stays
  -- as it is, and the High drops of the worker's core go up by one, modulo 2 ^ 64.
  pub data Pushed (s : WorkerState F) (raw : Frame) (t : WorkerState F) : Type 0 where
    queued :
        (copy : RxFrameCopy)
        → IsCopy raw copy
        → contents queue_capacity t.frame_q ≡ contents queue_capacity s.frame_q ++ (copy ∷ [])
        → t.consumer ≡ s.consumer
        → t.refused ≡ s.refused
        → Pushed s raw t
    dropped_one :
        length (contents queue_capacity s.frame_q) ≡ 1023
        → t.frame_q ≡ s.frame_q
        → (t.consumer.dropped s.consumer.core_id).of_high
          ≡ ((s.consumer.dropped s.consumer.core_id).of_high + 1) % 2 ^ 64
        → (t.consumer.dropped s.consumer.core_id).of_normal
          ≡ (s.consumer.dropped s.consumer.core_id).of_normal
        → t.refused ≡ s.refused + 1
        → Pushed s raw t
