-- ===== src/DhcpEngine.antt =====
-- `DhcpEngine` (src/DhcpEngine.cpp, include/DhcpEngine.hpp).
pub mod Pool
pub mod Options
pub mod Request
pub mod Service
