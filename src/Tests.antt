-- ===== src/Tests.antt =====
-- Tests, and the theorems at concrete inputs.
pub mod Parity
mod TapeTests
mod PortTests
mod LoweringTests
mod GraphTests
mod AutodiffTests
mod ConnectionTests
mod ExactTests
