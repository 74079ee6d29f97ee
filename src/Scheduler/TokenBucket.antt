-- ===== src/Scheduler/TokenBucket.antt =====
-- `TokenBucket` of include/Scheduler_util.hpp. The clock is an argument: each call of `now` that an
-- operation may make has its own reading.
use high_performance_gaming.Common.{
  ℕ, ◌≡◌, Bool, true, false, if◌then◌else◌, Bool-cases, inl, inr, refl,
}
use high_performance_gaming.Scheduler.Float.{Float}

module _ (F : Float) where
  open F use {Num}

  pub record TokenBucket : Type 0 where
    pub tokens : Num
    pub capacity : Num
    pub rate_bytes_per_sec : Num
    pub last_refill : Num
    pub requested_limit : Num

  -- `std::min` and `std::max`, by `<` as the standard defines them.
  unfoldable pub std_min : Num → Num → Num
  std_min a b = if F.lt b a then b else a

  unfoldable pub std_max : Num → Num → Num
  std_max a b = if F.lt a b then b else a

  unfoldable pub apply_new_rate : TokenBucket → Num → Num → TokenBucket
  apply_new_rate b limit now =
      let rate = F.bytes_per_second limit in
      let room = std_max F.floor_capacity (F.mul rate F.tenth) in
      record b { tokens = room; capacity = room; rate_bytes_per_sec = rate; last_refill = now }

  unfoldable pub new_bucket : Num → Num → TokenBucket
  unfolding apply_new_rate
  new_bucket limit now =
      apply_new_rate
        (record {
          tokens = F.of_u32 0;
          capacity = F.of_u32 0;
          rate_bytes_per_sec = F.of_u32 0;
          last_refill = now;
          requested_limit = F.minus_one;
        })
        limit now

  unfoldable pub set_rate : TokenBucket → Num → TokenBucket
  set_rate b limit = record b { requested_limit = limit }

  -- `requested_limit.exchange(-1.0)`, and the new rate if there was one.
  unfoldable pub take_request : TokenBucket → Num → TokenBucket
  take_request b now =
      let b' = record b { requested_limit = F.minus_one } in
      if F.ge b.requested_limit (F.of_u32 0) then apply_new_rate b' b.requested_limit now else b'

  -- What has come in since the last refill.
  unfoldable pub add_tokens : TokenBucket → Num → TokenBucket
  add_tokens b now =
      let new_tokens = F.mul (F.sub now b.last_refill) b.rate_bytes_per_sec in
      if F.lt (F.of_u32 0) new_tokens
      then record b { tokens = std_min b.capacity (F.add b.tokens new_tokens); last_refill = now }
      else b

  unfoldable pub refill : TokenBucket → Num → Num → TokenBucket
  refill b now now' = add_tokens (take_request b now) now'

  unfoldable pub try_consume : TokenBucket → ℕ → Num → Num → Bool × TokenBucket
  try_consume b bytes now now' =
      let b' = refill b now now' in
      if F.ge b'.tokens (F.of_u32 bytes)
      then (true, record b' { tokens = F.sub b'.tokens (F.of_u32 bytes) })
      else (false, b')

  unfoldable pub refund : TokenBucket → ℕ → TokenBucket
  refund b bytes = record b { tokens = std_min b.capacity (F.add b.tokens (F.of_u32 bytes)) }

  -- The bucket holds no more than its capacity.
  abbrev pub IsBounded : TokenBucket → Type 0
  IsBounded b = F.lt b.capacity b.tokens ≡ false

  std_min-le : (a b : Num) → F.lt a (std_min a b) ≡ false
  unfolding std_min
  std_min-le a b = elim (Bool-cases (F.lt b a)) [
    | inl e ↦ rw e (F.lt_asymm b a e)
    | inr e ↦ rw e (F.lt_irrefl a)
  ]

  pub new_bucket-IsBounded : (limit now : Num) → IsBounded (new_bucket limit now)
  unfolding new_bucket
  new_bucket-IsBounded limit now = F.lt_irrefl _

  take_request-IsBounded :
      (b : TokenBucket) (now : Num) → IsBounded b → IsBounded (take_request b now)
  unfolding take_request apply_new_rate
  take_request-IsBounded b now h = elim (Bool-cases (F.ge b.requested_limit (F.of_u32 0))) [
    | inl e ↦ rw e (F.lt_irrefl _)
    | inr e ↦ rw e h
  ]

  add_tokens-IsBounded : (b : TokenBucket) (now : Num) → IsBounded b → IsBounded (add_tokens b now)
  unfolding add_tokens
  add_tokens-IsBounded b now h =
      elim (Bool-cases (F.lt (F.of_u32 0) (F.mul (F.sub now b.last_refill) b.rate_bytes_per_sec))) [
        | inl e ↦ rw e (std_min-le _ _)
        | inr e ↦ rw e h
      ]

  pub refill-IsBounded :
      (b : TokenBucket) (now now' : Num) → IsBounded b → IsBounded (refill b now now')
  unfolding refill
  refill-IsBounded b now now' h = add_tokens-IsBounded _ now' (take_request-IsBounded b now h)

  -- A bucket that holds no more than its capacity does so after `try_consume`, whatever the
  -- clock reads, whatever rate was asked for, and whether the bytes are granted or not.
  pub try_consume-IsBounded :
      (b : TokenBucket) (bytes : ℕ) (now now' : Num)
      → IsBounded b
      → IsBounded (try_consume b bytes now now').1
  unfolding try_consume
  try_consume-IsBounded b bytes now now' h =
      let b' = refill b now now' in
      let h' = refill-IsBounded b now now' h in
      elim (Bool-cases (F.ge b'.tokens (F.of_u32 bytes))) [
        | inl e ↦ rw e (F.sub_le b'.capacity b'.tokens bytes h')
        | inr e ↦ rw e h'
      ]

  pub refund-IsBounded : (b : TokenBucket) (bytes : ℕ) → IsBounded (refund b bytes)
  unfolding refund
  refund-IsBounded b bytes = std_min-le _ _

  add_tokens_kept :
      (b : TokenBucket) (now : Num)
      → ((add_tokens b now).rate_bytes_per_sec ≡ b.rate_bytes_per_sec)
        × ((add_tokens b now).capacity ≡ b.capacity)
        × ((add_tokens b now).requested_limit ≡ b.requested_limit)
  unfolding add_tokens
  add_tokens_kept b now =
      elim (Bool-cases (F.lt (F.of_u32 0) (F.mul (F.sub now b.last_refill) b.rate_bytes_per_sec))) [
        | inl e ↦ rw e (refl, refl, refl)
        | inr e ↦ rw e (refl, refl, refl)
      ]

  taken :
      (b : TokenBucket) (limit now : Num)
      → F.ge limit (F.of_u32 0) ≡ true
      → take_request (set_rate b limit) now
        ≡ apply_new_rate (record b { requested_limit = F.minus_one }) limit now
  unfolding take_request set_rate
  taken b limit now h = rw h

  applied :
      (b : TokenBucket) (limit now : Num)
      → let b' = apply_new_rate (record b { requested_limit = F.minus_one }) limit now in
        (b'.rate_bytes_per_sec ≡ F.bytes_per_second limit)
        × (b'.capacity ≡ std_max F.floor_capacity (F.mul (F.bytes_per_second limit) F.tenth))
        × (b'.requested_limit ≡ F.minus_one)
  unfolding apply_new_rate
  applied b limit now = (refl, refl, refl)

  -- A rate of at least 0 that is asked for is in force once the bucket is next refilled, with
  -- the capacity that goes with it, and no request is pending then: a later refill does not
  -- apply it again.
  pub set_rate-refill :
      (b : TokenBucket) (limit now now' : Num)
      → F.ge limit (F.of_u32 0) ≡ true
      → let b' = refill (set_rate b limit) now now' in
        (b'.rate_bytes_per_sec ≡ F.bytes_per_second limit)
        × (b'.capacity ≡ std_max F.floor_capacity (F.mul (F.bytes_per_second limit) F.tenth))
        × (F.ge b'.requested_limit (F.of_u32 0) ≡ false)
  unfolding refill
  set_rate-refill b limit now now' h =
      let kept = add_tokens_kept (take_request (set_rate b limit) now) now' in
      let new = applied b limit now in
      rw (kept.0, kept.1, kept.2, taken b limit now h) (new.0, new.1, rw new.2 F.minus_one_negative)
