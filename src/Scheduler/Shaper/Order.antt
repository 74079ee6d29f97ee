-- ===== src/Scheduler/Shaper/Order.antt =====
-- What `process_queue` does with the queue.
use high_performance_gaming.Common.{
  ℕ, zero, suc, ◌+◌, ◌<◌, ◌≡◌, false, List, [], ◌∷◌, ◌++◌, Option, some, arith, Bool-cases, inl,
  inr, refl, ap, sym, ◌∙◌,
}
use high_performance_gaming.Common.Array.{length}
use high_performance_gaming.RingBuffer.ZeroAlloc
use high_performance_gaming.RingBuffer.ZeroAlloc.{ZeroAllocRingBuffer, Packet, front, empty}
use high_performance_gaming.RingBuffer.ZeroAlloc.Refine.{IsValid, contents, pop-IsValid, front-pop}
use high_performance_gaming.Scheduler.Float.{Float}
use high_performance_gaming.Scheduler.TokenBucket.{
  IsBounded, try_consume, try_consume-IsBounded, refund-IsBounded,
}
use high_performance_gaming.Scheduler.TxFrame.{
  TxResult, success, congested, fatal, try_hardware_send,
}
use high_performance_gaming.Scheduler.Shaper.{
  Shaper, Round, Sent, queue_capacity, handle_result, process_rounds, after_send, sent_first,
  process_queue,
}

-- The packets that left the queue: all but one that the interface was too busy for.
abbrev pub taken : List (TxResult × Packet) → List Packet
taken [] = []
taken ((congested, pkt) ∷ sent) = taken sent
taken ((success, pkt) ∷ sent) = pkt ∷ taken sent
taken ((fatal, pkt) ∷ sent) = pkt ∷ taken sent

module _ (F : Float) where
  pub record Ok (s : Shaper F) : Type 0 where
    pub queue_ok : IsValid queue_capacity s.normal_queue
    pub bucket_ok : IsBounded F s.bucket

  -- What a run of the loop comes to.
  pub record Drained (s : Shaper F) (r : Option (Shaper F × Sent F)) : Type 0 where
    pub final : Shaper F
    pub sent : Sent F
    pub returns : r ≡ some (final, sent)
    pub ok : Ok final
    pub in_order :
        contents queue_capacity s.normal_queue
        ≡ taken sent ++ contents queue_capacity final.normal_queue

  count-pop :
      (q : ZeroAllocRingBuffer) → 0 < q.count → (ZeroAlloc.pop queue_capacity q).count + 1 ≡ q.count
  unfolding ZeroAlloc.pop
  count-pop q h = ground arith

  not_empty : (q : ZeroAllocRingBuffer) → empty q ≡ false → 0 < q.count
  unfolding empty
  not_empty q h = ground arith

  -- A round that hands the oldest packet over, successfully or in vain, and goes on.
  popped-Drained :
      (s s'' : Shaper F) (res : TxResult) (r : Option (Shaper F × Sent F))
      → (taken ((res, front s.normal_queue) ∷ []) ≡ front s.normal_queue ∷ [])
      → Ok s
      → 0 < s.normal_queue.count
      → s''.normal_queue ≡ ZeroAlloc.pop queue_capacity s.normal_queue
      → Drained s'' r
      → Drained s (sent_first F res (front s.normal_queue) r)
  popped-Drained s s'' success r t o h e d = record {
    final = d.final;
    sent = (success, front s.normal_queue) ∷ d.sent;
    returns = rw d.returns;
    ok = d.ok;
    in_order =
        front-pop queue_capacity s.normal_queue o.queue_ok h
        ∙ ap (λ xs. front s.normal_queue ∷ xs) (ap (contents queue_capacity) (sym e) ∙ d.in_order);
  }
  popped-Drained s s'' congested r t o h e d = absurd (cc t)
  popped-Drained s s'' fatal r t o h e d = record {
    final = d.final;
    sent = (fatal, front s.normal_queue) ∷ d.sent;
    returns = rw d.returns;
    ok = d.ok;
    in_order =
        front-pop queue_capacity s.normal_queue o.queue_ok h
        ∙ ap (λ xs. front s.normal_queue ∷ xs) (ap (contents queue_capacity) (sym e) ∙ d.in_order);
  }

  handle_result-Ok : (s : Shaper F) (res : TxResult) (sz : ℕ) → Ok s → Ok (handle_result F s res sz)
  unfolding handle_result
  handle_result-Ok s success sz o = record {
    queue_ok = pop-IsValid queue_capacity s.normal_queue o.queue_ok;
    bucket_ok = o.bucket_ok;
  }
  handle_result-Ok s congested sz o = record {
    queue_ok = o.queue_ok;
    bucket_ok = refund-IsBounded F s.bucket sz;
  }
  handle_result-Ok s fatal sz o = record {
    queue_ok = pop-IsValid queue_capacity s.normal_queue o.queue_ok;
    bucket_ok = refund-IsBounded F s.bucket sz;
  }

  -- The end of a round, whatever the interface answered.
  after_send-Drained :
      (s : Shaper F) (res : TxResult) (run : Shaper F → Option (Shaper F × Sent F))
      → Ok s
      → 0 < s.normal_queue.count
      → ((t : Shaper F)
          → Ok t
          → t.normal_queue.count + 1 ≡ s.normal_queue.count
          → Drained t (run t))
      → let s' = handle_result F s res (length (front s.normal_queue)) in
        Drained s (after_send F res (front s.normal_queue) s' (run s'))
  unfolding after_send handle_result
  after_send-Drained s success run o h d =
      popped-Drained s (handle_result F s success (length (front s.normal_queue))) success _ refl o
        h refl
        (d _ (handle_result-Ok s success (length (front s.normal_queue)) o)
          (count-pop s.normal_queue h))
  after_send-Drained s congested run o h d = record {
    final = handle_result F s congested (length (front s.normal_queue));
    sent = (congested, front s.normal_queue) ∷ [];
    returns = refl;
    ok = handle_result-Ok s congested (length (front s.normal_queue)) o;
    in_order = refl;
  }
  after_send-Drained s fatal run o h d =
      popped-Drained s (handle_result F s fatal (length (front s.normal_queue))) fatal _ refl o h
        refl
        (d _ (handle_result-Ok s fatal (length (front s.normal_queue)) o)
          (count-pop s.normal_queue h))

  -- A run that starts from another shaper with the same queue.
  Drained-same_queue :
      (s t : Shaper F) (r : Option (Shaper F × Sent F))
      → t.normal_queue ≡ s.normal_queue
      → Drained t r
      → Drained s r
  Drained-same_queue s t r e d = record {
    final = d.final;
    sent = d.sent;
    returns = d.returns;
    ok = d.ok;
    in_order = ap (contents queue_capacity) (sym e) ∙ d.in_order;
  }

  process_rounds-Drained :
      (fuel k : ℕ) (env : ℕ → Round F) (s : Shaper F)
      → Ok s
      → s.normal_queue.count < fuel
      → Drained s (process_rounds F fuel k env s)
  unfolding process_rounds
  process_rounds-Drained zero k env s o h = absurd (omega arith)
  process_rounds-Drained (suc fuel) k env s o h =
      let pkt = front s.normal_queue in
      let paid = try_consume F s.bucket (length pkt) (env k).now (env k).now' in
      let s' = record s { bucket = paid.1 } in
      let o' : Ok s' = record {
        queue_ok = o.queue_ok;
        bucket_ok =
            try_consume-IsBounded F s.bucket (length pkt) (env k).now (env k).now' o.bucket_ok;
      } in
      elim (Bool-cases (empty s.normal_queue)) [
        | inl e ↦ rw e (record { final = s; sent = []; returns = refl; ok = o; in_order = refl })
        | inr ne ↦ elim (Bool-cases paid.0) [
          | inr no_tokens ↦
              rw (ne, no_tokens)
                (record { final = s'; sent = []; returns = refl; ok = o'; in_order = refl })
          | inl tokens ↦
              rw (ne, tokens)
                (Drained-same_queue s s' _ refl (
                  after_send-Drained s' (try_hardware_send (length pkt) (env k).kernel)
                    (process_rounds F fuel (k + 1) env) o' (not_empty s.normal_queue ne)
                    (λ t ot et. process_rounds-Drained fuel (k + 1) env t ot (omega arith))))
        ]
      ]

  -- From a valid shaper, whatever the clock and the kernel answer, `process_queue` comes to an end,
  -- with a valid shaper whose bucket is within its capacity; the packets that it took from the queue,
  -- those sent and those that failed for good, are the oldest of it in their order, and the others
  -- are left in it: none is lost, sent twice or overtaken, and one that the interface is too busy
  -- for stays at the head.
  pub process_queue-Drained :
      (env : ℕ → Round F) (s : Shaper F) → Ok s → Drained s (process_queue F env s)
  unfolding process_queue
  process_queue-Drained env s o =
      process_rounds-Drained (suc s.normal_queue.count) 0 env s o (omega arith)
