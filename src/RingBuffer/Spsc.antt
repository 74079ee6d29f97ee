-- ===== src/RingBuffer/Spsc.antt =====
-- `SpscRingBuffer<T, Capacity>`: frames from the receive to the processing thread, and DHCP requests
-- from the data plane to the control plane. One slot stays free, to tell full from empty.
pub mod Refine
use high_performance_gaming.Common.{
  ℕ, ◌+◌, ◌-◌, ◌%◌, ◌≤◌, ◌<◌, ◌≡◌, arith, Bool, true, false, Option, none, some, ◌==◌,
  if◌then◌else◌,
}
use high_performance_gaming.Common.Array.{update}

pub record SpscRingBuffer {ℓ} (A : Type ℓ) : Type ℓ where
  pub buffer : ℕ → A
  pub head : ℕ
  pub tail : ℕ

module _ {ℓ} {A : Type ℓ} (capacity : ℕ) where
  -- A full ring refuses the item.
  unfoldable pub push : SpscRingBuffer A → A → Bool × SpscRingBuffer A
  push r item =
      let next_tail = (r.tail + 1) % capacity in
      if next_tail == r.head
      then (false, r)
      else (true, record r { buffer = update r.buffer r.tail item; tail = next_tail })

  unfoldable pub pop : SpscRingBuffer A → Option A × SpscRingBuffer A
  pop r =
      if r.head == r.tail
      then (none, r)
      else (some (r.buffer r.head), record r { head = (r.head + 1) % capacity })
