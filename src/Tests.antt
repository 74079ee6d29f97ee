-- ===== src/Tests.antt =====
-- Runs at concrete inputs, for the parts' theorems.
pub mod Frames
pub mod Wholes
mod Packets
mod Translations
mod Sessions
mod Rings
mod Shapers
pub mod Leases
mod Counters
pub mod Hops
mod Pipelines
mod Workers
mod Subnets
mod Planes
mod Files
mod Ends
