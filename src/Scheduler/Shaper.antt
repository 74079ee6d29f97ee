-- ===== src/Scheduler/Shaper.antt =====
-- `Shaper` (include/Scheduler_util.hpp, src/Scheduler_util.cpp): the Normal lane's queue behind its
-- token bucket. The spin lock makes each locked part one step. Its three counters are this
-- shaper's part of those of `Telemetry`: both shapers add to the same 64-bit words, which wrap.
pub mod Order
pub mod Enqueue
use high_performance_gaming.Common.{
  ℕ, zero, suc, ◌+◌, ◌%◌, Bool, true, false, List, [], ◌∷◌, ltb, if◌then◌else◌, Option, none, some,
}
use high_performance_gaming.Common.Array.{length}
use high_performance_gaming.RingBuffer.ZeroAlloc
use high_performance_gaming.RingBuffer.ZeroAlloc.{
  ZeroAllocRingBuffer, Packet, front, empty, new_ring,
}
use high_performance_gaming.Scheduler.Float.{Float}
use high_performance_gaming.Telemetry.{u64_mod}
use high_performance_gaming.Scheduler.TokenBucket.{
  TokenBucket, new_bucket, set_rate, try_consume, refund,
}
use high_performance_gaming.Scheduler.TxFrame.{
  Kernel, TxResult, success, congested, fatal, try_hardware_send,
}

abbrev pub queue_capacity : ℕ
queue_capacity = 8192

module _ (F : Float) where
  open F use {Num}

  pub record Shaper : Type 0 where
    pub normal_queue : ZeroAllocRingBuffer
    pub bucket : TokenBucket F
    pub shaper_normal_tx_complete : ℕ
    pub shaper_queue_overflow_drops : ℕ
    pub shaper_oversized_drops : ℕ

  unfoldable pub new_shaper : Num → Num → Shaper
  new_shaper limit now = record {
    normal_queue = new_ring;
    bucket = new_bucket F limit now;
    shaper_normal_tx_complete = 0;
    shaper_queue_overflow_drops = 0;
    shaper_oversized_drops = 0;
  }

  unfoldable pub set_rate_limit : Shaper → Num → Shaper
  set_rate_limit s limit = record s { bucket = set_rate F s.bucket limit }

  unfoldable pub enqueue_normal : Shaper → Packet → Shaper
  enqueue_normal s pkt =
      let (done, queue) = ZeroAlloc.push queue_capacity s.normal_queue pkt in
      if done
      then record s { normal_queue = queue }
      else if ltb 2048 (length pkt)
      then record s { shaper_oversized_drops = (s.shaper_oversized_drops + 1) % u64_mod }
      else record s { shaper_queue_overflow_drops = (s.shaper_queue_overflow_drops + 1) % u64_mod }

  -- `result_handlers_[res](sz)`
  unfoldable pub handle_result : Shaper → TxResult → ℕ → Shaper
  handle_result s success sz = record s {
    normal_queue = ZeroAlloc.pop queue_capacity s.normal_queue;
    shaper_normal_tx_complete = (s.shaper_normal_tx_complete + 1) % u64_mod;
  }
  handle_result s congested sz = record s { bucket = refund F s.bucket sz }
  handle_result s fatal sz = record s {
    bucket = refund F s.bucket sz;
    normal_queue = ZeroAlloc.pop queue_capacity s.normal_queue;
  }

  -- What one round of the loop meets: two readings of the clock and the kernel's answer.
  pub record Round : Type 0 where
    pub now : Num
    pub now' : Num
    pub kernel : Kernel

  -- The packets that were handed to the interface, with what became of each: what `tx_callback_` is
  -- called with, and the bytes.
  abbrev pub Sent : Type 0
  Sent = List (TxResult × Packet)

  abbrev pub Run : Type 0
  Run = Option (Shaper × Sent)

  -- The round's packet goes before those of the later rounds.
  abbrev pub sent_first : TxResult → Packet → Run → Run
  sent_first res pkt none = none
  sent_first res pkt (some (s, sent)) = some (s, (res, pkt) ∷ sent)

  -- The end of a round: the loop stops where the interface is busy.
  unfoldable pub after_send : TxResult → Packet → Shaper → Run → Run
  after_send success pkt s rest = sent_first success pkt rest
  after_send congested pkt s rest = some (s, (congested, pkt) ∷ [])
  after_send fatal pkt s rest = sent_first fatal pkt rest

  -- The loop of `process_queue` from round `k` on. `none` means that the fuel has run out.
  unfoldable pub process_rounds : ℕ → ℕ → (ℕ → Round) → Shaper → Run
  process_rounds zero k env s = none
  process_rounds (suc fuel) k env s =
      let pkt = front s.normal_queue in
      let (paid, bucket) = try_consume F s.bucket (length pkt) (env k).now (env k).now' in
      let s' = record s { bucket = bucket } in
      let res = try_hardware_send (length pkt) (env k).kernel in
      let s'' = handle_result s' res (length pkt) in
      let rest = process_rounds fuel (k + 1) env s'' in
      if empty s.normal_queue
      then some (s, [])
      else if paid
      then after_send res pkt s'' rest
      else some (s', [])

  -- One packet leaves the queue in every round that goes on, so this fuel is enough.
  unfoldable pub process_queue : (ℕ → Round) → Shaper → Run
  process_queue env s = process_rounds (suc s.normal_queue.count) 0 env s
