-- ===== src/Tests/Rings.antt =====
-- Runs of the two rings.
use high_performance_gaming.Common.{ℕ, ◌+◌, ◌%◌, ◌≡◌, arith, [], ◌∷◌}
use high_performance_gaming.RingBuffer.Spsc as Spsc
use high_performance_gaming.RingBuffer.Spsc.{SpscRingBuffer}
use high_performance_gaming.RingBuffer.Spsc.Refine as SpscRefine
use high_performance_gaming.RingBuffer.Spsc.Refine.{
  bounded_push, queue_pop, push_refines, pop_refines,
}
use high_performance_gaming.RingBuffer.ZeroAlloc as ZeroAlloc
use high_performance_gaming.RingBuffer.ZeroAlloc.{ZeroAllocRingBuffer, new_ring, front}
use high_performance_gaming.RingBuffer.ZeroAlloc.Refine as ZeroAllocRefine
use high_performance_gaming.RingBuffer.ZeroAlloc.Refine.{queue_push, push-queue_push, front-pop}

-- Four slots, from the last one round to the first two: 0, then 8.
abbrev ring : SpscRingBuffer ℕ
ring = record { buffer = λ i. (i + 8) % 11; head = 3; tail = 1 }

ring-IsValid : SpscRefine.IsValid 4 ring
ring-IsValid = record { head_in = omega arith; tail_in = omega arith }

push_refines_example :
    let (done, r') = Spsc.push 4 ring 10 in
    ((done, SpscRefine.contents 4 r') ≡ bounded_push 4 (SpscRefine.contents 4 ring) 10)
    × SpscRefine.IsValid 4 r'
push_refines_example = push_refines 4 ring 10 ring-IsValid

pop_refines_example :
    let (out, r') = Spsc.pop 4 ring in
    ((out, SpscRefine.contents 4 r') ≡ queue_pop (SpscRefine.contents 4 ring))
    × SpscRefine.IsValid 4 r'
pop_refines_example = pop_refines 4 ring ring-IsValid

abbrev packets : ZeroAllocRingBuffer
packets = (ZeroAlloc.push 3 new_ring (1 ∷ 2 ∷ [])).1

packets-IsValid : ZeroAllocRefine.IsValid 3 packets
packets-IsValid =
    ZeroAllocRefine.push-IsValid 3 new_ring (1 ∷ 2 ∷ [])
      (ZeroAllocRefine.new_ring-IsValid 3 (omega arith))

push-queue_push_example :
    let (done, r') = ZeroAlloc.push 3 packets (3 ∷ []) in
    ((done, ZeroAllocRefine.contents 3 r')
      ≡ queue_push 3 (ZeroAllocRefine.contents 3 packets) (3 ∷ []))
    × ZeroAllocRefine.IsValid 3 r'
push-queue_push_example = push-queue_push 3 packets (3 ∷ []) packets-IsValid
