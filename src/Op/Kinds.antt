-- ===== src/Op/Kinds.antt =====
-- ssa/op.rs: the four enums of operations.
pub data BinOp : Type 0 where
  add sub mul div pow modulo min max atan2 hypot : BinOp

pub data UnaryOp : Type 0 where
  neg sin cos tan atan sinh cosh tanh : UnaryOp
  exp log log10 abs sqrt sign floor : UnaryOp
  asin acos asinh acosh atanh : UnaryOp
  ceil round trunc : UnaryOp
  log2 log1p expm1 cbrt : UnaryOp
  erf erfc lgamma tgamma : UnaryOp
  digamma : UnaryOp
  rand_uniform : UnaryOp

pub data CmpOp : Type 0 where
  gt ge lt le eq ne : CmpOp

pub data ReduceOp : Type 0 where
  sum product min max : ReduceOp
