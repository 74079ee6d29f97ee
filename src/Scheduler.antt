-- ===== src/Scheduler.antt =====
-- include/Scheduler_util.hpp, src/Scheduler_util.cpp and src/TxFrameOutput_util.cpp: the rate-limited
-- Normal lane.
pub mod Float
pub mod TxFrame
pub mod TokenBucket
pub mod Shaper
