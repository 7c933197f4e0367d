-- ===== src/Examples.antt =====
-- Concrete instances, and the theorems at concrete inputs.
pub mod Instances
mod Pools
mod Transfers
mod Threads
pub mod Packets
mod Network
