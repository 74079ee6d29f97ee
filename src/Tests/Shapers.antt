-- ===== src/Tests/Shapers.antt =====
-- Runs of the token bucket and of the shaper, over whole numbers in place of doubles.
use high_performance_gaming.Common.{ℕ, zero, suc, [], ◌∷◌}
use high_performance_gaming.Tests.Wholes.{whole, wholes}
use high_performance_gaming.Scheduler.TxFrame.{wrote, would_block}
use high_performance_gaming.Scheduler.TokenBucket.{
  TokenBucket, IsBounded, new_bucket, try_consume, new_bucket-IsBounded, try_consume-IsBounded,
}
use high_performance_gaming.Scheduler.Shaper.{
  Shaper, Round, new_shaper, enqueue_normal, process_queue,
}
use high_performance_gaming.Scheduler.Shaper.Order.{Ok, Drained, process_queue-Drained}
use high_performance_gaming.Scheduler.Shaper.Enqueue.{
  Enqueued, new_shaper-Ok, enqueue_normal-Ok, enqueue_normal-Enqueued,
}

abbrev bucket : TokenBucket wholes
bucket = new_bucket wholes (whole 8) (whole 0)

try_consume-IsBounded_example :
    IsBounded wholes (try_consume wholes bucket 1500 (whole 1) (whole 1)).1
try_consume-IsBounded_example =
    try_consume-IsBounded wholes bucket 1500 (whole 1) (whole 1)
      (new_bucket-IsBounded wholes (whole 8) (whole 0))

abbrev shaper : Shaper wholes
shaper = new_shaper wholes (whole 8) (whole 0)

abbrev loaded : Shaper wholes
loaded = enqueue_normal wholes (enqueue_normal wholes shaper (1 ∷ 2 ∷ [])) (3 ∷ [])

loaded-Ok : Ok wholes loaded
loaded-Ok =
    enqueue_normal-Ok wholes _ (3 ∷ [])
      (enqueue_normal-Ok wholes shaper (1 ∷ 2 ∷ []) (new_shaper-Ok wholes (whole 8) (whole 0)))

enqueue_normal-Enqueued_example :
    Enqueued wholes loaded (4 ∷ 5 ∷ []) (enqueue_normal wholes loaded (4 ∷ 5 ∷ []))
    × Ok wholes (enqueue_normal wholes loaded (4 ∷ 5 ∷ []))
enqueue_normal-Enqueued_example = enqueue_normal-Enqueued wholes loaded (4 ∷ 5 ∷ []) loaded-Ok

-- The first packet is sent after two interrupted calls, the second meets a busy interface.
abbrev rounds : ℕ → Round wholes
rounds zero = record {
  now = whole 1;
  now' = whole 1;
  kernel = record { interrupts = 2; result = wrote 2 };
}
rounds (suc k) = record {
  now = whole 2;
  now' = whole 2;
  kernel = record { interrupts = 0; result = would_block };
}

process_queue-Drained_example : Drained wholes loaded (process_queue wholes rounds loaded)
process_queue-Drained_example = process_queue-Drained wholes rounds loaded loaded-Ok
