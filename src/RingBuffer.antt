-- ===== src/RingBuffer.antt =====
-- The two ring buffers: `SpscRingBuffer` of include/Headers_util.hpp and `ZeroAllocRingBuffer` of
-- include/Scheduler_util.hpp.
pub mod Slots
pub mod Spsc
pub mod ZeroAlloc
