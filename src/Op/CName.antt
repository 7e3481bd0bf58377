-- ===== src/Op/CName.antt =====
-- ssa/op.rs: the C function of each operation, for the code generator.
use Prim.Native.String.{String}
use fastsim.Common.{Option, none, some}
use fastsim.Op.Kinds.{BinOp, UnaryOp}

-- `none` for the operations that C writes as an infix operator.
unfoldable pub binary_c_fn : BinOp → Option String
binary_c_fn BinOp.add = none
binary_c_fn BinOp.sub = none
binary_c_fn BinOp.mul = none
binary_c_fn BinOp.div = none
binary_c_fn BinOp.pow = some "pow"
binary_c_fn BinOp.modulo = some "fmod"
binary_c_fn BinOp.min = some "fmin"
binary_c_fn BinOp.max = some "fmax"
binary_c_fn BinOp.atan2 = some "atan2"
binary_c_fn BinOp.hypot = some "hypot"

-- `none` for the operations that the generator writes by hand.
unfoldable pub unary_c_fn : UnaryOp → Option String
unary_c_fn UnaryOp.neg = none
unary_c_fn UnaryOp.sin = some "sin"
unary_c_fn UnaryOp.cos = some "cos"
unary_c_fn UnaryOp.tan = some "tan"
unary_c_fn UnaryOp.atan = some "atan"
unary_c_fn UnaryOp.sinh = some "sinh"
unary_c_fn UnaryOp.cosh = some "cosh"
unary_c_fn UnaryOp.tanh = some "tanh"
unary_c_fn UnaryOp.exp = some "exp"
unary_c_fn UnaryOp.log = some "log"
unary_c_fn UnaryOp.log10 = some "log10"
unary_c_fn UnaryOp.abs = some "fabs"
unary_c_fn UnaryOp.sqrt = some "sqrt"
unary_c_fn UnaryOp.sign = none
unary_c_fn UnaryOp.floor = some "floor"
unary_c_fn UnaryOp.asin = some "asin"
unary_c_fn UnaryOp.acos = some "acos"
unary_c_fn UnaryOp.asinh = some "asinh"
unary_c_fn UnaryOp.acosh = some "acosh"
unary_c_fn UnaryOp.atanh = some "atanh"
unary_c_fn UnaryOp.ceil = some "ceil"
unary_c_fn UnaryOp.round = some "round"
unary_c_fn UnaryOp.trunc = some "trunc"
unary_c_fn UnaryOp.log2 = some "log2"
unary_c_fn UnaryOp.log1p = some "log1p"
unary_c_fn UnaryOp.expm1 = some "expm1"
unary_c_fn UnaryOp.cbrt = some "cbrt"
unary_c_fn UnaryOp.erf = some "erf"
unary_c_fn UnaryOp.erfc = some "erfc"
unary_c_fn UnaryOp.lgamma = some "lgamma"
unary_c_fn UnaryOp.tgamma = some "tgamma"
unary_c_fn UnaryOp.digamma = none
unary_c_fn UnaryOp.rand_uniform = none
