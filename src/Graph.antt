-- ===== src/Graph.antt =====
-- ssa/graph.rs: the hash-consed graph of scalar operations.
pub mod Node
pub mod Signature
pub mod Build
pub mod Eval
pub mod Meaning
pub mod HashCons
pub mod AddValue
