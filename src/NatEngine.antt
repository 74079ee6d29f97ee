-- ===== src/NatEngine.antt =====
-- include/NatEngine.hpp and src/NatEngine.cpp: the user-space NAT.
pub mod Checksum
pub mod State
pub mod Sessions
pub mod Icmp
pub mod Engine
