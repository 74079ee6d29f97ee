-- ===== src/Scheduler/Shaper/Enqueue.antt =====
-- What `enqueue_normal` does with a packet.
use high_performance_gaming.Common.{
  ◌+◌, ◌%◌, ◌≤◌, ◌<◌, ◌≡◌, [], ◌∷◌, ◌++◌, ltb, arith, Bool-cases, inl, inr, refl,
}
use high_performance_gaming.Common.Array.{length}
use high_performance_gaming.RingBuffer.ZeroAlloc
use high_performance_gaming.RingBuffer.ZeroAlloc.{ZeroAllocRingBuffer, Packet, front, empty}
use high_performance_gaming.RingBuffer.ZeroAlloc.Refine.{
  contents, push-IsValid, new_ring-IsValid, push_cases,
}
use high_performance_gaming.Scheduler.Float.{Float}
use high_performance_gaming.Telemetry.{u64_mod}
use high_performance_gaming.Scheduler.TokenBucket.{new_bucket-IsBounded}
use high_performance_gaming.Scheduler.Shaper.{Shaper, queue_capacity, enqueue_normal, new_shaper}
use high_performance_gaming.Scheduler.Shaper.Order.{Ok}

module _ (F : Float) where
  -- What `enqueue_normal` can make of a packet: put it behind the others, or count one drop.
  pub data Enqueued (s : Shaper F) (pkt : Packet) (s' : Shaper F) : Type 0 where
    queued :
        length pkt ≤ 2048
        → contents queue_capacity s'.normal_queue
          ≡ contents queue_capacity s.normal_queue ++ (pkt ∷ [])
        → s'.shaper_oversized_drops ≡ s.shaper_oversized_drops
        → s'.shaper_queue_overflow_drops ≡ s.shaper_queue_overflow_drops
        → Enqueued s pkt s'
    oversized :
        2048 < length pkt
        → s' ≡ record s { shaper_oversized_drops = (s.shaper_oversized_drops + 1) % u64_mod }
        → Enqueued s pkt s'
    overflow :
        length pkt ≤ 2048
        → length (contents queue_capacity s.normal_queue) ≡ queue_capacity
        → s'
          ≡ record s { shaper_queue_overflow_drops = (s.shaper_queue_overflow_drops + 1) % u64_mod }
        → Enqueued s pkt s'

  -- A new shaper is valid.
  pub new_shaper-Ok : (limit now : F.Num) → Ok F (new_shaper F limit now)
  unfolding new_shaper
  new_shaper-Ok limit now = record {
    queue_ok = new_ring-IsValid queue_capacity (omega arith);
    bucket_ok = new_bucket-IsBounded F limit now;
  }

  pub enqueue_normal-Ok : (s : Shaper F) (pkt : Packet) → Ok F s → Ok F (enqueue_normal F s pkt)
  unfolding enqueue_normal
  enqueue_normal-Ok s pkt o =
      elim (Bool-cases (ZeroAlloc.push queue_capacity s.normal_queue pkt).0) [
        | inl done ↦ rw done (record {
          queue_ok = push-IsValid queue_capacity s.normal_queue pkt o.queue_ok;
          bucket_ok = o.bucket_ok;
        })
        | inr drop ↦ rw drop (elim (Bool-cases (ltb 2048 (length pkt))) [
          | inl big ↦ rw big (record { queue_ok = o.queue_ok; bucket_ok = o.bucket_ok })
          | inr full ↦ rw full (record { queue_ok = o.queue_ok; bucket_ok = o.bucket_ok })
        ])
      ]

  enqueued : (s : Shaper F) (pkt : Packet) → Ok F s → Enqueued s pkt (enqueue_normal F s pkt)
  unfolding enqueue_normal
  enqueued s pkt o = elim (push_cases queue_capacity s.normal_queue pkt o.queue_ok) [
    | inl (done, small, behind) ↦ rw done (queued small behind refl refl)
    | inr (drop, same, why) ↦ rw drop (elim (Bool-cases (ltb 2048 (length pkt))) [
      | inl big ↦ rw big (oversized (ground arith) refl)
      | inr small ↦ rw small (overflow (ground arith) (ground arith) refl)
    ])
  ]

  -- On a valid shaper `enqueue_normal` puts a packet of at most 2048 bytes behind the others where
  -- the queue is not full. A longer packet is counted as oversized, one that finds the queue full as
  -- an overflow, the counts modulo 2 ^ 64, and nothing else changes then. The shaper is valid again.
  pub enqueue_normal-Enqueued :
      (s : Shaper F) (pkt : Packet)
      → Ok F s
      → Enqueued s pkt (enqueue_normal F s pkt) × Ok F (enqueue_normal F s pkt)
  enqueue_normal-Enqueued s pkt o = (enqueued s pkt o, enqueue_normal-Ok s pkt o)
