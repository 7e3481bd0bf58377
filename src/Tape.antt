-- ===== src/Tape.antt =====
-- ssa/tape.rs: the flat tape, its lowering from a graph, and its evaluation.
pub mod Alloc
pub mod Build
pub mod Eval
pub mod CallInto
pub mod OpSound
pub mod Liveness
pub mod Slots
pub mod AllocSound
pub mod SlotsStay
pub mod PoolsGrow
pub mod EmitSound
pub mod Simulation
pub mod Refines
pub mod Params
