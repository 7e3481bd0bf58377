-- ===== src/Graph/Meaning.antt =====
-- ssa/graph.rs: what `interpret` computes, as a fixed point.
--
-- In a graph whose operands stand before their users the values are the one list in which each
-- entry is the value of its node. The passes of the optimizer are proved against that equation.
pub mod Operands
pub mod Values
pub mod Interpret
