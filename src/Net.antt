-- ===== src/Net.antt =====
-- include/Types_util.hpp, src/Types_util.cpp, include/Headers_util.hpp: what crosses the wire.
pub mod Bytes
pub mod Packet
