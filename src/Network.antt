-- ===== src/Network.antt =====
-- The arithmetic of `Network_util` (src/Network_util.cpp) on addresses and prefixes. What its other
-- functions ask the system is an argument of those that use the answer.
pub mod Masks
pub mod Subnet
pub mod LanSync
