-- ===== src/Autodiff/Rules.antt =====
-- ssa/autodiff.rs: the rules of `diff_node` for the operations, as the calls that build the derivative.
--
-- A rule is the list of the calls on the graph, in the order of the source. An argument of a call is a
-- position: first the operands and their derivatives, then the results of the calls so far.
use fastsim.Common.{ℕ, List, [], ◌∷◌, ◌++◌, Option, none, some, get_or}
use fastsim.F64.{F64, zero_f, one_f, two_f, three_f}
use fastsim.Op.Kinds.{BinOp, UnaryOp, CmpOp}
use fastsim.Graph.Node.{Node, NodeId}
use fastsim.Graph.Build.{Graph, add}

pub data Call (F : Type 0) : Type 0 where
  constant : F → Call F
  unary : UnaryOp → ℕ → Call F
  binary : BinOp → ℕ → ℕ → Call F
  cmp : CmpOp → ℕ → ℕ → Call F
  select : ℕ → ℕ → ℕ → Call F

-- The operands of a unary operation, and the results.
abbrev a : ℕ
a = 0

abbrev da : ℕ
da = 1

abbrev s1 : ℕ
s1 = 2

abbrev s2 : ℕ
s2 = 3

abbrev s3 : ℕ
s3 = 4

abbrev s4 : ℕ
s4 = 5

abbrev s5 : ℕ
s5 = 6

-- The further operands of a binary operation, and the results.
abbrev b : ℕ
b = 2

abbrev db : ℕ
db = 3

abbrev t1 : ℕ
t1 = 4

abbrev t2 : ℕ
t2 = 5

abbrev t3 : ℕ
t3 = 6

abbrev t4 : ℕ
t4 = 7

abbrev t5 : ℕ
t5 = 8

abbrev t6 : ℕ
t6 = 9

module _ (R : F64) where
  -- `std::f64::consts::{PI, LN_2, LN_10}`
  abbrev pub pi : R.F
  pi = R.from_bits 0x400921FB54442D18

  abbrev pub ln_2 : R.F
  ln_2 = R.from_bits 0x3FE62E42FEFA39EF

  abbrev pub ln_10 : R.F
  ln_10 = R.from_bits 0x40026BB1BBB55516

  abbrev pub neg_two_f : R.F
  neg_two_f = R.from_bits 0xC000000000000000

  -- The rules of the inverse and the special functions, as `unary_rule`.
  unfoldable pub inverse_rule : UnaryOp → Option (List (Call R.F))
  inverse_rule UnaryOp.asin = some (
      binary BinOp.mul a a
      ∷ constant (one_f R)
      ∷ binary BinOp.sub s2 s1
      ∷ unary UnaryOp.sqrt s3
      ∷ binary BinOp.div da s4
      ∷ [])
  inverse_rule UnaryOp.acos = some (
      binary BinOp.mul a a
      ∷ constant (one_f R)
      ∷ binary BinOp.sub s2 s1
      ∷ unary UnaryOp.sqrt s3
      ∷ binary BinOp.div da s4
      ∷ unary UnaryOp.neg s5
      ∷ [])
  inverse_rule UnaryOp.asinh = some (
      binary BinOp.mul a a
      ∷ constant (one_f R)
      ∷ binary BinOp.add s2 s1
      ∷ unary UnaryOp.sqrt s3
      ∷ binary BinOp.div da s4
      ∷ [])
  inverse_rule UnaryOp.acosh = some (
      binary BinOp.mul a a
      ∷ constant (one_f R)
      ∷ binary BinOp.sub s1 s2
      ∷ unary UnaryOp.sqrt s3
      ∷ binary BinOp.div da s4
      ∷ [])
  inverse_rule UnaryOp.atanh = some (
      binary BinOp.mul a a
      ∷ constant (one_f R)
      ∷ binary BinOp.sub s2 s1
      ∷ binary BinOp.div da s3
      ∷ [])
  inverse_rule UnaryOp.log2 =
      some (constant ln_2 ∷ binary BinOp.mul a s1 ∷ binary BinOp.div da s2 ∷ [])
  inverse_rule UnaryOp.log1p =
      some (constant (one_f R) ∷ binary BinOp.add s1 a ∷ binary BinOp.div da s2 ∷ [])
  inverse_rule UnaryOp.expm1 = some (unary UnaryOp.exp a ∷ binary BinOp.mul s1 da ∷ [])
  inverse_rule UnaryOp.cbrt = some (
      unary UnaryOp.cbrt a
      ∷ binary BinOp.mul s1 s1
      ∷ constant (three_f R)
      ∷ binary BinOp.mul s3 s2
      ∷ binary BinOp.div da s4
      ∷ [])
  inverse_rule UnaryOp.erf = some (
      binary BinOp.mul a a
      ∷ unary UnaryOp.neg s1
      ∷ unary UnaryOp.exp s2
      ∷ constant (R.div (two_f R) (R.sqrt pi))
      ∷ binary BinOp.mul s4 s3
      ∷ binary BinOp.mul s5 da
      ∷ [])
  inverse_rule UnaryOp.erfc = some (
      binary BinOp.mul a a
      ∷ unary UnaryOp.neg s1
      ∷ unary UnaryOp.exp s2
      ∷ constant (R.div neg_two_f (R.sqrt pi))
      ∷ binary BinOp.mul s4 s3
      ∷ binary BinOp.mul s5 da
      ∷ [])
  inverse_rule UnaryOp.lgamma = some (unary UnaryOp.digamma a ∷ binary BinOp.mul s1 da ∷ [])
  inverse_rule UnaryOp.tgamma = some (
      unary UnaryOp.digamma a
      ∷ unary UnaryOp.tgamma a
      ∷ binary BinOp.mul s2 s1
      ∷ binary BinOp.mul s3 da
      ∷ [])
  inverse_rule UnaryOp.digamma = none
  inverse_rule op = none

  -- Positions 0 and 1 are the operand and its derivative; `none` where the derivative is zero and
  -- that of the operand is not taken.
  unfoldable pub unary_rule : UnaryOp → Option (List (Call R.F))
  unfolding inverse_rule
  unary_rule UnaryOp.neg = some (unary UnaryOp.neg da ∷ [])
  unary_rule UnaryOp.sin = some (unary UnaryOp.cos a ∷ binary BinOp.mul s1 da ∷ [])
  unary_rule UnaryOp.cos =
      some (unary UnaryOp.sin a ∷ unary UnaryOp.neg s1 ∷ binary BinOp.mul s2 da ∷ [])
  unary_rule UnaryOp.tan = some (
      unary UnaryOp.tan a
      ∷ binary BinOp.mul s1 s1
      ∷ constant (one_f R)
      ∷ binary BinOp.add s3 s2
      ∷ binary BinOp.mul s4 da
      ∷ [])
  unary_rule UnaryOp.atan = some (
      binary BinOp.mul a a
      ∷ constant (one_f R)
      ∷ binary BinOp.add s2 s1
      ∷ binary BinOp.div da s3
      ∷ [])
  unary_rule UnaryOp.sinh = some (unary UnaryOp.cosh a ∷ binary BinOp.mul s1 da ∷ [])
  unary_rule UnaryOp.cosh = some (unary UnaryOp.sinh a ∷ binary BinOp.mul s1 da ∷ [])
  unary_rule UnaryOp.tanh = some (
      unary UnaryOp.tanh a
      ∷ binary BinOp.mul s1 s1
      ∷ constant (one_f R)
      ∷ binary BinOp.sub s3 s2
      ∷ binary BinOp.mul s4 da
      ∷ [])
  unary_rule UnaryOp.exp = some (unary UnaryOp.exp a ∷ binary BinOp.mul s1 da ∷ [])
  unary_rule UnaryOp.log = some (binary BinOp.div da a ∷ [])
  unary_rule UnaryOp.log10 =
      some (constant ln_10 ∷ binary BinOp.mul a s1 ∷ binary BinOp.div da s2 ∷ [])
  unary_rule UnaryOp.abs = some (unary UnaryOp.sign a ∷ binary BinOp.mul s1 da ∷ [])
  unary_rule UnaryOp.sqrt = some (
      unary UnaryOp.sqrt a
      ∷ constant (two_f R)
      ∷ binary BinOp.mul s2 s1
      ∷ binary BinOp.div da s3
      ∷ [])
  unary_rule UnaryOp.sign = none
  unary_rule UnaryOp.floor = none
  unary_rule UnaryOp.ceil = none
  unary_rule UnaryOp.round = none
  unary_rule UnaryOp.trunc = none
  unary_rule UnaryOp.rand_uniform = none
  unary_rule op = inverse_rule op

  -- Positions 0 to 3 are the first operand and its derivative, and the second and its own. `Pow` with
  -- a constant exponent and `Mod` have code of their own.
  unfoldable pub binary_rule : BinOp → List (Call R.F)
  binary_rule BinOp.add = binary BinOp.add da db ∷ []
  binary_rule BinOp.sub = binary BinOp.sub da db ∷ []
  binary_rule BinOp.mul =
      binary BinOp.mul a db ∷ binary BinOp.mul b da ∷ binary BinOp.add t1 t2 ∷ []
  binary_rule BinOp.div =
      binary BinOp.mul b da
      ∷ binary BinOp.mul a db
      ∷ binary BinOp.sub t1 t2
      ∷ binary BinOp.mul b b
      ∷ binary BinOp.div t3 t4
      ∷ []
  binary_rule BinOp.pow =
      binary BinOp.pow a b
      ∷ unary UnaryOp.log a
      ∷ binary BinOp.mul db t2
      ∷ binary BinOp.div da a
      ∷ binary BinOp.mul b t4
      ∷ binary BinOp.add t3 t5
      ∷ binary BinOp.mul t1 t6
      ∷ []
  binary_rule BinOp.modulo = constant (zero_f R) ∷ []
  binary_rule BinOp.min = cmp CmpOp.lt a b ∷ select t1 da db ∷ []
  binary_rule BinOp.max = cmp CmpOp.gt a b ∷ select t1 da db ∷ []
  binary_rule BinOp.atan2 =
      binary BinOp.mul b da
      ∷ binary BinOp.mul a db
      ∷ binary BinOp.sub t1 t2
      ∷ binary BinOp.mul a a
      ∷ binary BinOp.mul b b
      ∷ binary BinOp.add t4 t5
      ∷ binary BinOp.div t3 t6
      ∷ []
  binary_rule BinOp.hypot =
      binary BinOp.mul a da
      ∷ binary BinOp.mul b db
      ∷ binary BinOp.add t1 t2
      ∷ binary BinOp.hypot a b
      ∷ binary BinOp.div t3 t4
      ∷ []

  -- `Pow` with the constant exponent `c`, from the base and its derivative.
  unfoldable pub power_rule : R.F → List (Call R.F)
  power_rule c =
      constant c
      ∷ constant (R.sub c (one_f R))
      ∷ binary BinOp.pow a s2
      ∷ binary BinOp.mul s1 s3
      ∷ binary BinOp.mul s4 da
      ∷ []

  -- From the two factors with their derivatives, and, at position 4, the derivative of the summand.
  unfoldable pub fma_rule : List (Call R.F)
  fma_rule =
      binary BinOp.mul a db
      ∷ binary BinOp.mul b da
      ∷ binary BinOp.add t2 t3
      ∷ binary BinOp.add t4 t1
      ∷ []

  -- The node that a call adds, the arguments being the ids in `env`.
  unfoldable pub node_of : List NodeId → Call R.F → Node
  node_of env (constant v) = Node.const (R.to_bits v)
  node_of env (unary op x) = Node.unary op (get_or env x 0)
  node_of env (binary op x y) = Node.binary op (get_or env x 0) (get_or env y 0)
  node_of env (cmp op x y) = Node.cmp op (get_or env x 0) (get_or env y 0)
  node_of env (select c x y) = Node.select (get_or env c 0) (get_or env x 0) (get_or env y 0)

  -- The result of the last call.
  unfoldable pub run_rule : List (Call R.F) → List NodeId → Graph R → NodeId → Graph R × NodeId
  unfolding node_of add
  run_rule [] env g last = (g, last)
  run_rule (c ∷ calls) env g last =
      let (g', id) = add R g (node_of env c) in run_rule calls (env ++ id ∷ []) g' id
