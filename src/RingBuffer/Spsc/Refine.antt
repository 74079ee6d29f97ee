-- ===== src/RingBuffer/Spsc/Refine.antt =====
-- An `SpscRingBuffer` behaves as a queue of at most `capacity - 1` items.
use high_performance_gaming.Common.{
  ℕ, suc, ◌+◌, ◌-◌, ◌%◌, ◌<◌, ◌≡◌, ◌≢◌, ◌⊎◌, arith, Bool, true, false, Option, none, some, ltb,
  if◌then◌else◌, List, [], ◌∷◌, ◌++◌, refl,
}
use high_performance_gaming.Common.Array.{length}
use high_performance_gaming.RingBuffer.Slots.{slots, slots-push, slots-pop, length-slots, mod_cases}
use high_performance_gaming.RingBuffer.Spsc.{SpscRingBuffer, push, pop}

pub record IsValid {A : Type 0} (capacity : ℕ) (r : SpscRingBuffer A) : Type 0 where
  pub head_in : r.head < capacity
  pub tail_in : r.tail < capacity

module _ {A : Type 0} where
  -- A queue of fewer than `capacity` items: `push` refuses one too many.
  unfoldable pub bounded_push : ℕ → List A → A → Bool × List A
  bounded_push capacity xs x =
      if ltb (length xs + 1) capacity then (true, xs ++ (x ∷ [])) else (false, xs)

  unfoldable pub queue_pop : List A → Option A × List A
  queue_pop [] = (none, [])
  queue_pop (x ∷ xs) = (some x, xs)

module _ {A : Type 0} (capacity : ℕ) where
  -- How many slots are occupied.
  abbrev pub size : SpscRingBuffer A → ℕ
  size r = (r.tail + capacity - r.head) % capacity

  -- Its items, oldest first.
  abbrev pub contents : SpscRingBuffer A → List A
  contents r = slots r.buffer capacity r.head 0 (size r)

  tail_place : (r : SpscRingBuffer A) → IsValid capacity r → (r.head + size r) % capacity ≡ r.tail
  tail_place r v = grind (arith, v)

  size-push :
      (r : SpscRingBuffer A)
      → IsValid capacity r
      → ((r.tail + 1) % capacity ≡ r.head) × (size r + 1 ≡ capacity)
        ⊎ ((r.tail + 1) % capacity ≢ r.head)
          × (size r + 1 < capacity)
          × (((r.tail + 1) % capacity + capacity - r.head) % capacity ≡ suc (size r))
  size-push r v =
      let next = (r.tail + 1) % capacity in
      ground (
        arith,
        mod_cases (r.tail + 1) capacity (omega arith),
        mod_cases (r.tail + capacity - r.head) capacity (omega arith),
        mod_cases (next + capacity - r.head) capacity,
      )

  size-pop :
      (r : SpscRingBuffer A)
      → IsValid capacity r
      → ((r.head ≡ r.tail) × (size r ≡ 0))
        ⊎ ((r.head ≢ r.tail)
            × (size r ≡ suc ((r.tail + capacity - (r.head + 1) % capacity) % capacity)))
  size-pop r v =
      let next = (r.head + 1) % capacity in
      ground (
        arith,
        mod_cases (r.head + 1) capacity (omega arith),
        mod_cases (r.tail + capacity - r.head) capacity (omega arith),
        mod_cases (r.tail + capacity - next) capacity,
      )

  -- A valid ring of more than one slot stays valid under both operations.
  pub push-IsValid :
      (r : SpscRingBuffer A) (x : A) → IsValid capacity r → IsValid capacity (push capacity r x).1
  unfolding push
  push-IsValid r x v = ground (arith, v)

  pub pop-IsValid :
      (r : SpscRingBuffer A) → IsValid capacity r → IsValid capacity (pop capacity r).1
  unfolding pop
  pop-IsValid r v = ground (arith, v)

  pub contents-push :
      (r : SpscRingBuffer A) (x : A)
      → IsValid capacity r
      → let (done, r') = push capacity r x in
        (done, contents r') ≡ bounded_push capacity (contents r) x
  unfolding push bounded_push
  contents-push r x v = ground (
    arith,
    size-push r v,
    length-slots r.buffer capacity r.head 0 (size r),
    slots-push r.buffer capacity r.head (size r) r.tail x,
    tail_place r v,
  )

  pop_slots :
      (r : SpscRingBuffer A)
      → IsValid capacity r
      → let n = (r.tail + capacity - (r.head + 1) % capacity) % capacity in
        (slots r.buffer capacity r.head 0 (suc n)
          ≡ r.buffer r.head ∷ slots r.buffer capacity ((r.head + 1) % capacity) 0 n)
        × (slots r.buffer capacity r.head 0 0 ≡ [])
  unfolding slots
  pop_slots r v = (slots-pop r.buffer capacity r.head _ v.head_in, refl)

  pub contents-pop :
      (r : SpscRingBuffer A)
      → IsValid capacity r
      → let (out, r') = pop capacity r in (out, contents r') ≡ queue_pop (contents r)
  unfolding pop queue_pop
  contents-pop r v = ground (arith, size-pop r v, pop_slots r v)

  -- On a valid ring `push` is refused exactly when the queue of its items has `capacity - 1` of them,
  -- and otherwise puts the item behind the others. The ring is valid again: its two places are
  -- places of the buffer.
  pub push_refines :
      (r : SpscRingBuffer A) (x : A)
      → IsValid capacity r
      → let (done, r') = push capacity r x in
        ((done, contents r') ≡ bounded_push capacity (contents r) x) × IsValid capacity r'
  push_refines r x v = (contents-push r x v, push-IsValid r x v)

  -- On a valid ring `pop` takes the oldest item, or reports that there is none. The ring is valid
  -- again: its two places are places of the buffer.
  pub pop_refines :
      (r : SpscRingBuffer A)
      → IsValid capacity r
      → let (out, r') = pop capacity r in
        ((out, contents r') ≡ queue_pop (contents r)) × IsValid capacity r'
  pop_refines r v = (contents-pop r v, pop-IsValid r v)
