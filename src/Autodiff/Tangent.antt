-- ===== src/Autodiff/Tangent.antt =====
-- The chain rule: the derivative of each operation, as a formula in its operands and their derivatives.
--
-- This is the reference for ssa/autodiff.rs. It uses nothing of that code: it has its own constants and
-- its own tests, and says nothing of graphs, of their construction or of the memo.
use fastsim.Common.{
  ℕ, zero, suc, List, [], ◌∷◌, ◌++◌, map, take, drop, Bool, false, Option, none, some, get_elem?,
  ◌==◌, if◌then◌else◌,
}
use fastsim.F64.{F64, zero_f, one_f, two_f, three_f}
use fastsim.Op.Kinds.{BinOp, UnaryOp, CmpOp, ReduceOp}
use fastsim.Graph.Node.{Node, NodeId}
use fastsim.Op.Lanes.{reduce_scalar}
use fastsim.Op.Apply.{apply_unary, apply_binary, apply_cmp}

-- The node is the input, or the parameter, that a derivative is taken towards.
unfoldable pub is_same_leaf : Node → Node → Bool
is_same_leaf (Node.input i) (Node.input j) = j == i
is_same_leaf (Node.param i) (Node.param j) = j == i
is_same_leaf _ _ = false

-- A list without its element at position `i`.
abbrev pub without : ℕ → List NodeId → List NodeId
without i xs = take i xs ++ drop (suc i) xs

module _ (R : F64) where
  -- The f64 nearest to the circle constant, to the logarithms of 2 and 10, and to -2.
  abbrev circle : R.F
  circle = R.from_bits 4614256656552045848

  abbrev log_of_two : R.F
  log_of_two = R.from_bits 4604418534313441775

  abbrev log_of_ten : R.F
  log_of_ten = R.from_bits 4612367379483415830

  abbrev minus_two : R.F
  minus_two = R.from_bits 13835058055282163712

  -- The derivative of `op x`, where that of `x` is `dx`. That of `Digamma` is not used.
  unfoldable pub tangent_unary : UnaryOp → R.F → R.F → R.F
  unfolding apply_unary
  tangent_unary UnaryOp.neg x dx = R.neg dx
  tangent_unary UnaryOp.sin x dx = R.mul (R.cos x) dx
  tangent_unary UnaryOp.cos x dx = R.mul (R.neg (R.sin x)) dx
  tangent_unary UnaryOp.tan x dx = R.mul (R.add (one_f R) (R.mul (R.tan x) (R.tan x))) dx
  tangent_unary UnaryOp.atan x dx = R.div dx (R.add (one_f R) (R.mul x x))
  tangent_unary UnaryOp.sinh x dx = R.mul (R.cosh x) dx
  tangent_unary UnaryOp.cosh x dx = R.mul (R.sinh x) dx
  tangent_unary UnaryOp.tanh x dx = R.mul (R.sub (one_f R) (R.mul (R.tanh x) (R.tanh x))) dx
  tangent_unary UnaryOp.exp x dx = R.mul (R.exp x) dx
  tangent_unary UnaryOp.log x dx = R.div dx x
  tangent_unary UnaryOp.log10 x dx = R.div dx (R.mul x log_of_ten)
  tangent_unary UnaryOp.abs x dx = R.mul (apply_unary R UnaryOp.sign x) dx
  tangent_unary UnaryOp.sqrt x dx = R.div dx (R.mul (two_f R) (R.sqrt x))
  tangent_unary UnaryOp.asin x dx = R.div dx (R.sqrt (R.sub (one_f R) (R.mul x x)))
  tangent_unary UnaryOp.acos x dx = R.neg (R.div dx (R.sqrt (R.sub (one_f R) (R.mul x x))))
  tangent_unary UnaryOp.asinh x dx = R.div dx (R.sqrt (R.add (one_f R) (R.mul x x)))
  tangent_unary UnaryOp.acosh x dx = R.div dx (R.sqrt (R.sub (R.mul x x) (one_f R)))
  tangent_unary UnaryOp.atanh x dx = R.div dx (R.sub (one_f R) (R.mul x x))
  tangent_unary UnaryOp.log2 x dx = R.div dx (R.mul x log_of_two)
  tangent_unary UnaryOp.log1p x dx = R.div dx (R.add (one_f R) x)
  tangent_unary UnaryOp.expm1 x dx = R.mul (R.exp x) dx
  tangent_unary UnaryOp.cbrt x dx = R.div dx (R.mul (three_f R) (R.mul (R.cbrt x) (R.cbrt x)))
  tangent_unary UnaryOp.erf x dx =
      R.mul (R.mul (R.div (two_f R) (R.sqrt circle)) (R.exp (R.neg (R.mul x x)))) dx
  tangent_unary UnaryOp.erfc x dx =
      R.mul (R.mul (R.div minus_two (R.sqrt circle)) (R.exp (R.neg (R.mul x x)))) dx
  tangent_unary UnaryOp.lgamma x dx = R.mul (apply_unary R UnaryOp.digamma x) dx
  tangent_unary UnaryOp.tgamma x dx =
      R.mul (R.mul (R.tgamma x) (apply_unary R UnaryOp.digamma x)) dx
  tangent_unary UnaryOp.sign x dx = zero_f R
  tangent_unary UnaryOp.floor x dx = zero_f R
  tangent_unary UnaryOp.ceil x dx = zero_f R
  tangent_unary UnaryOp.round x dx = zero_f R
  tangent_unary UnaryOp.trunc x dx = zero_f R
  tangent_unary UnaryOp.digamma x dx = zero_f R
  tangent_unary UnaryOp.rand_uniform x dx = zero_f R

  -- The derivative of `op x y`. That of `Mod` is not used.
  unfoldable pub tangent_binary : BinOp → R.F → R.F → R.F → R.F → R.F
  unfolding apply_binary apply_cmp
  tangent_binary BinOp.add x dx y dy = R.add dx dy
  tangent_binary BinOp.sub x dx y dy = R.sub dx dy
  tangent_binary BinOp.mul x dx y dy = R.add (R.mul x dy) (R.mul y dx)
  tangent_binary BinOp.div x dx y dy = R.div (R.sub (R.mul y dx) (R.mul x dy)) (R.mul y y)
  tangent_binary BinOp.pow x dx y dy =
      R.mul (apply_binary R BinOp.pow x y) (R.add (R.mul dy (R.ln x)) (R.mul y (R.div dx x)))
  tangent_binary BinOp.modulo x dx y dy = zero_f R
  tangent_binary BinOp.min x dx y dy = if R.eq (apply_cmp R CmpOp.lt x y) (zero_f R) then dy else dx
  tangent_binary BinOp.max x dx y dy = if R.eq (apply_cmp R CmpOp.gt x y) (zero_f R) then dy else dx
  tangent_binary BinOp.atan2 x dx y dy =
      R.div (R.sub (R.mul y dx) (R.mul x dy)) (R.add (R.mul x x) (R.mul y y))
  tangent_binary BinOp.hypot x dx y dy =
      R.div (R.add (R.mul x dx) (R.mul y dy)) (apply_binary R BinOp.hypot x y)

  -- The derivative of `x ^ c` for a constant `c`.
  unfoldable pub tangent_power : R.F → R.F → R.F → R.F
  tangent_power c x dx = R.mul (R.mul c (apply_binary R BinOp.pow x (R.sub c (one_f R)))) dx

  -- The exponent, where it is written out.
  unfoldable pub exponent_of : Option Node → Option R.F
  exponent_of (some (Node.const bits)) = some (R.from_bits bits)
  exponent_of _ = none

  unfoldable pub tangent_pow : Option R.F → R.F → R.F → R.F → R.F → R.F
  unfolding tangent_binary tangent_power
  tangent_pow (some c) x dx y dy = tangent_power c x dx
  tangent_pow none x dx y dy = tangent_binary BinOp.pow x dx y dy

  -- A reduction of at least two operands; one operand stands for itself.
  unfoldable pub collapsed : ReduceOp → List R.F → R.F → R.F
  collapsed op [] identity = identity
  collapsed op (y ∷ []) identity = y
  collapsed op ys identity = reduce_scalar R op ys

  -- The loops over the operands, which have the values `x` and the derivatives `t`.
  module _ (x t : NodeId → R.F) where
    -- dx_i times the product of the others, for the operands from position `i` on
    unfoldable pub product_tangents : List NodeId → ℕ → List NodeId → List R.F
    unfolding collapsed
    product_tangents args i [] = []
    product_tangents args i (a ∷ later) =
        R.mul (t a) (collapsed ReduceOp.product (map x (without i args)) (one_f R))
        ∷ product_tangents args (suc i) later

    -- The derivative of the operand that wins, from the extremum so far and its derivative.
    unfoldable pub tangent_extremum : CmpOp → BinOp → List NodeId → R.F → R.F → R.F
    unfolding apply_cmp apply_binary
    tangent_extremum cmp_op bin_op [] running d = d
    tangent_extremum cmp_op bin_op (a ∷ args) running d =
        tangent_extremum cmp_op bin_op args (apply_binary R bin_op running (x a))
          (if R.eq (apply_cmp R cmp_op (x a) running) (zero_f R) then d else t a)

    unfoldable pub dot_term : NodeId → NodeId → R.F
    dot_term a b = R.add (R.mul (x a) (t b)) (R.mul (t a) (x b))

    unfoldable pub tangent_dot_from : R.F → List NodeId → List NodeId → R.F
    unfolding dot_term
    tangent_dot_from acc (a ∷ xs) (b ∷ ys) = tangent_dot_from (R.add acc (dot_term a b)) xs ys
    tangent_dot_from acc xs ys = acc

    unfoldable pub tangent_dot : List NodeId → List NodeId → R.F
    unfolding dot_term tangent_dot_from
    tangent_dot (a ∷ xs) (b ∷ ys) = tangent_dot_from (dot_term a b) xs ys
    tangent_dot xs ys = zero_f R

    unfoldable pub tangent_reduce : ReduceOp → List NodeId → R.F
    unfolding collapsed product_tangents tangent_extremum
    tangent_reduce ReduceOp.sum args = collapsed ReduceOp.sum (map t args) (zero_f R)
    tangent_reduce ReduceOp.product args =
        collapsed ReduceOp.sum (product_tangents args 0 args) (zero_f R)
    tangent_reduce ReduceOp.min [] = zero_f R
    tangent_reduce ReduceOp.min (a ∷ args) = tangent_extremum CmpOp.lt BinOp.min args (x a) (t a)
    tangent_reduce ReduceOp.max [] = zero_f R
    tangent_reduce ReduceOp.max (a ∷ args) = tangent_extremum CmpOp.gt BinOp.max args (x a) (t a)

  -- The derivative of a node towards the node `target`, where the nodes before it have the values `x`
  -- and the derivatives `t`.
  module _ (nodes : List Node) (target : Node) (x t : NodeId → R.F) where
    unfoldable pub tangent_kind : Node → R.F
    unfolding is_same_leaf exponent_of tangent_unary tangent_binary tangent_pow tangent_reduce
        tangent_dot
    tangent_kind (Node.const bits) = zero_f R
    tangent_kind (Node.param i) = if is_same_leaf (Node.param i) target then one_f R else zero_f R
    tangent_kind (Node.input i) = if is_same_leaf (Node.input i) target then one_f R else zero_f R
    tangent_kind (Node.binary BinOp.pow a b) =
        tangent_pow (exponent_of (get_elem? nodes b)) (x a) (t a) (x b) (t b)
    tangent_kind (Node.binary op a b) = tangent_binary op (x a) (t a) (x b) (t b)
    tangent_kind (Node.unary op a) = tangent_unary op (x a) (t a)
    tangent_kind (Node.cmp op a b) = zero_f R
    tangent_kind (Node.select c a b) = if R.eq (x c) (zero_f R) then t b else t a
    tangent_kind (Node.fma a b c) = R.add (R.add (R.mul (x a) (t b)) (R.mul (x b) (t a))) (t c)
    tangent_kind (Node.reduce op args) = tangent_reduce x t op args
    tangent_kind (Node.dot xs ys) = tangent_dot x t xs ys

    unfoldable pub tangent_node : NodeId → NodeId → Node → R.F
    unfolding tangent_kind
    tangent_node wrt i n = if i == wrt then one_f R else tangent_kind n

-- The derivative of a node of an array whose operands stand before their users, by the chain rule on
-- the expression that it stands for; the fuel is more than the id.
module _ (R : F64) (nodes : List Node) (target : Node) (x : NodeId → R.F) (wrt : NodeId) where
  unfoldable pub derivative_at : ℕ → NodeId → R.F
  unfolding tangent_node
  derivative_at zero i = zero_f R
  derivative_at (suc fuel) i = elim (get_elem? nodes i) [
    | none ↦ zero_f R
    | some n ↦ tangent_node R nodes target x (derivative_at fuel) wrt i n
  ]

  unfoldable pub derivative : NodeId → R.F
  unfolding derivative_at
  derivative i = derivative_at (suc i) i
