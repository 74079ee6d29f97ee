-- ===== src/RingBuffer/ZeroAlloc.antt =====
-- `ZeroAllocRingBuffer<Capacity>`: the Normal lane's packets, in slots of 2048 bytes.
pub mod Refine
use high_performance_gaming.Common.{
  ℕ, ◌+◌, ◌-◌, ◌%◌, Bool, true, false, ◌||◌, List, [], ◌==◌, ltb, if◌then◌else◌,
}
use high_performance_gaming.Common.Array.{update, length}

-- `std::span<const uint8_t>`, as the bytes it shows.
abbrev pub Packet : Type 0
Packet = List ℕ

abbrev pub slot_bytes : ℕ
slot_bytes = 2048

-- A slot's `size` is the length of its packet: at most 2048, it fits the `uint16_t`.
pub record ZeroAllocRingBuffer : Type 0 where
  pub pool : ℕ → Packet
  pub head : ℕ
  pub tail : ℕ
  pub count : ℕ

abbrev pub new_ring : ZeroAllocRingBuffer
new_ring = record { pool = λ i. []; head = 0; tail = 0; count = 0 }

module _ (capacity : ℕ) where
  unfoldable pub push : ZeroAllocRingBuffer → Packet → Bool × ZeroAllocRingBuffer
  push r pkt = if (r.count == capacity) || ltb slot_bytes (length pkt) then (false, r) else (
    true,
    record r {
      pool = update r.pool r.tail pkt;
      tail = (r.tail + 1) % capacity;
      count = r.count + 1;
    },
  )

  unfoldable pub pop : ZeroAllocRingBuffer → ZeroAllocRingBuffer
  pop r =
      if ltb 0 r.count then record r { head = (r.head + 1) % capacity; count = r.count - 1 } else r

unfoldable pub front : ZeroAllocRingBuffer → Packet
front r = if r.count == 0 then [] else r.pool r.head

unfoldable pub empty : ZeroAllocRingBuffer → Bool
empty r = r.count == 0
