-- ===== src/Op.antt =====
-- ssa/op.rs: the vocabulary of scalar operations and their meaning.
pub mod Kinds
pub mod Apply
pub mod Code
pub mod Opcode
pub mod CName
pub mod Lanes
pub mod Avx
