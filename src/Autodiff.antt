-- ===== src/Autodiff.antt =====
-- ssa/autodiff.rs: derivatives of a graph, built as nodes of the graph.
pub mod Rules
pub mod Diff
pub mod Tangent
pub mod RunSound
pub mod Prepared
pub mod Steps
pub mod Loops
pub mod Running
pub mod DiffSound
pub mod Chain
pub mod Correct
pub mod Jacobian
pub mod Reach
pub mod Independent
