-- ===== src/Op/Opcode.antt =====
-- ssa/op.rs: the maps from the kinds of operations to the tape's opcodes.
use fastsim.Common.{ℕ}
use fastsim.Op.Code
use fastsim.Op.Kinds.{BinOp, UnaryOp, CmpOp, ReduceOp}

unfoldable pub binary_opcode : BinOp → ℕ
binary_opcode BinOp.add = Code.add
binary_opcode BinOp.sub = Code.sub
binary_opcode BinOp.mul = Code.mul
binary_opcode BinOp.div = Code.div
binary_opcode BinOp.pow = Code.pow
binary_opcode BinOp.modulo = Code.modulo
binary_opcode BinOp.min = Code.min
binary_opcode BinOp.max = Code.max
binary_opcode BinOp.atan2 = Code.atan2
binary_opcode BinOp.hypot = Code.hypot

unfoldable pub unary_opcode : UnaryOp → ℕ
unary_opcode UnaryOp.neg = Code.neg
unary_opcode UnaryOp.sin = Code.sin
unary_opcode UnaryOp.cos = Code.cos
unary_opcode UnaryOp.tan = Code.tan
unary_opcode UnaryOp.atan = Code.atan
unary_opcode UnaryOp.sinh = Code.sinh
unary_opcode UnaryOp.cosh = Code.cosh
unary_opcode UnaryOp.tanh = Code.tanh
unary_opcode UnaryOp.exp = Code.exp
unary_opcode UnaryOp.log = Code.log
unary_opcode UnaryOp.log10 = Code.log10
unary_opcode UnaryOp.abs = Code.abs
unary_opcode UnaryOp.sqrt = Code.sqrt
unary_opcode UnaryOp.sign = Code.sign
unary_opcode UnaryOp.floor = Code.floor
unary_opcode UnaryOp.asin = Code.asin
unary_opcode UnaryOp.acos = Code.acos
unary_opcode UnaryOp.asinh = Code.asinh
unary_opcode UnaryOp.acosh = Code.acosh
unary_opcode UnaryOp.atanh = Code.atanh
unary_opcode UnaryOp.ceil = Code.ceil
unary_opcode UnaryOp.round = Code.round
unary_opcode UnaryOp.trunc = Code.trunc
unary_opcode UnaryOp.log2 = Code.log2
unary_opcode UnaryOp.log1p = Code.log1p
unary_opcode UnaryOp.expm1 = Code.expm1
unary_opcode UnaryOp.cbrt = Code.cbrt
unary_opcode UnaryOp.erf = Code.erf
unary_opcode UnaryOp.erfc = Code.erfc
unary_opcode UnaryOp.lgamma = Code.lgamma
unary_opcode UnaryOp.tgamma = Code.tgamma
unary_opcode UnaryOp.digamma = Code.digamma
unary_opcode UnaryOp.rand_uniform = Code.rand_uniform

unfoldable pub cmp_opcode : CmpOp → ℕ
cmp_opcode CmpOp.gt = Code.cmp_gt
cmp_opcode CmpOp.ge = Code.cmp_ge
cmp_opcode CmpOp.lt = Code.cmp_lt
cmp_opcode CmpOp.le = Code.cmp_le
cmp_opcode CmpOp.eq = Code.cmp_eq
cmp_opcode CmpOp.ne = Code.cmp_ne

unfoldable pub reduce_code : ReduceOp → ℕ
reduce_code ReduceOp.sum = Code.reduce_sum
reduce_code ReduceOp.product = Code.reduce_product
reduce_code ReduceOp.min = Code.reduce_min
reduce_code ReduceOp.max = Code.reduce_max
