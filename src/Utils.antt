-- ===== src/Utils.antt =====
-- Shared utilities (utils/).
pub mod Register
pub mod RegisterPorts
pub mod AdaptiveBuffer
pub mod BufferShape
pub mod Rng
pub mod PortReference
