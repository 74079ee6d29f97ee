-- ===== src/RingBuffer/ZeroAlloc/Refine.antt =====
-- A `ZeroAllocRingBuffer` behaves as a queue of at most `capacity` packets.
use high_performance_gaming.Common.{
  ℕ, suc, ◌+◌, ◌-◌, ◌%◌, ◌≤◌, ◌<◌, ◌≡◌, ◌⊎◌, arith, Bool, true, false, ◌==◌, ◌||◌, ltb,
  if◌then◌else◌, List, [], ◌∷◌, ◌++◌,
}
use native.Mathlib.Numerals.{add-one}
use high_performance_gaming.Common.Array.{length}
use high_performance_gaming.RingBuffer.Slots.{slots, slots-push, slots-pop, length-slots, mod_cases}
use high_performance_gaming.RingBuffer.ZeroAlloc.{
  ZeroAllocRingBuffer, Packet, slot_bytes, new_ring, push, pop, front,
}

pub record IsValid (capacity : ℕ) (r : ZeroAllocRingBuffer) : Type 0 where
  pub head_in : r.head < capacity
  pub count_in : r.count ≤ capacity
  pub tail_at : (r.head + r.count) % capacity ≡ r.tail
  pub small : (i : ℕ) → length (r.pool i) ≤ slot_bytes

-- The queue that it stands for: one packet too many is refused, and so is one over 2048 bytes.
pub queue_push : ℕ → List Packet → Packet → Bool × List Packet
queue_push capacity xs pkt =
    if (length xs == capacity) || ltb slot_bytes (length pkt)
    then (false, xs)
    else (true, xs ++ (pkt ∷ []))

module _ (capacity : ℕ) where
  -- Its packets, oldest first.
  abbrev pub contents : ZeroAllocRingBuffer → List Packet
  contents r = slots r.pool capacity r.head 0 r.count

  pub new_ring-IsValid : 0 < capacity → IsValid capacity new_ring
  new_ring-IsValid h = record {
    head_in = h;
    count_in = omega arith;
    tail_at = grind arith;
    small = λ i. omega arith;
  }

  pub push-IsValid :
      (r : ZeroAllocRingBuffer) (pkt : Packet)
      → IsValid capacity r
      → IsValid capacity (push capacity r pkt).1
  unfolding push
  push-IsValid r pkt v =
      let next = mod_cases (r.tail + 1) capacity in
      let place = mod_cases (r.head + r.count) capacity (omega arith) in
      let place' = mod_cases (r.head + (r.count + 1)) capacity in
      record {
        head_in = ground (arith, v.head_in);
        count_in = ground (arith, v.count_in);
        tail_at = ground (arith, v.head_in, v.count_in, v.tail_at, next, place, place');
        small = λ i. ground (arith, v.small i);
      }

  pub pop-IsValid :
      (r : ZeroAllocRingBuffer) → IsValid capacity r → IsValid capacity (pop capacity r)
  unfolding pop
  pop-IsValid r v =
      let next = mod_cases (r.head + 1) capacity in
      let place = mod_cases (r.head + r.count) capacity (omega arith) in
      let place' = mod_cases ((r.head + 1) % capacity + (r.count - 1)) capacity in
      record {
        head_in = ground (arith, v.head_in, next);
        count_in = ground (arith, v.count_in);
        tail_at = ground (arith, v.head_in, v.count_in, v.tail_at, next, place, place');
        small = v'small;
      }
    where
      v'small : (i : ℕ) → length ((pop capacity r).pool i) ≤ slot_bytes
      v'small i = ground (arith, v.small i)

  contents-push :
      (r : ZeroAllocRingBuffer) (pkt : Packet)
      → IsValid capacity r
      → let (done, r') = push capacity r pkt in
        (done, contents r') ≡ queue_push capacity (contents r) pkt
  unfolding push queue_push
  contents-push r pkt v = ground (
    arith,
    length-slots r.pool capacity r.head 0 r.count,
    slots-push r.pool capacity r.head r.count r.tail pkt,
    v.tail_at,
    v.head_in,
    v.count_in,
    add-one r.count,
  )

  -- On a valid ring `push` is refused exactly when the ring holds `capacity` packets or the packet is
  -- longer than a slot, and leaves the packets as they are then; otherwise the packet goes behind the
  -- others. The ring is valid again: its tail is the place behind the last packet.
  pub push-queue_push :
      (r : ZeroAllocRingBuffer) (pkt : Packet)
      → IsValid capacity r
      → let (done, r') = push capacity r pkt in
        ((done, contents r') ≡ queue_push capacity (contents r) pkt) × IsValid capacity r'
  push-queue_push r pkt v = (contents-push r pkt v, push-IsValid r pkt v)

  -- The two ways of `push`, as its caller sees them.
  pub push_cases :
      (r : ZeroAllocRingBuffer) (pkt : Packet)
      → IsValid capacity r
      → let (done, r') = push capacity r pkt in
        ((done ≡ true) × (length pkt ≤ slot_bytes) × (contents r' ≡ contents r ++ (pkt ∷ [])))
        ⊎ ((done ≡ false)
            × (r' ≡ r)
            × ((slot_bytes < length pkt) ⊎ (length (contents r) ≡ capacity)))
  unfolding push
  push_cases r pkt v = ground (
    arith,
    length-slots r.pool capacity r.head 0 r.count,
    slots-push r.pool capacity r.head r.count r.tail pkt,
    v.tail_at,
    v.head_in,
    v.count_in,
    add-one r.count,
  )

  -- On a valid ring that is not empty `front` is the oldest packet, and `pop` takes it out.
  pub front-pop :
      (r : ZeroAllocRingBuffer)
      → IsValid capacity r
      → 0 < r.count
      → contents r ≡ front r ∷ contents (pop capacity r)
  unfolding front pop
  front-pop r v h =
      let e : r.count ≡ suc (r.count - 1) = omega arith in
      ground (arith, e, slots-pop r.pool capacity r.head (r.count - 1) v.head_in)
