-- ===== src/Optimize/Algebraic.antt =====
-- ssa/optimize.rs: `algebraic_simplify`.
use fastsim.Common.{Bool, Option, none, some, ◌>>=◌, get_elem?, ◌==◌, if◌then◌else◌}
use fastsim.F64.{F64, one_bits}
use fastsim.Op.Kinds.{BinOp, UnaryOp}
use fastsim.Graph.Node.{Node, NodeId}
use fastsim.Graph.Build.{Graph, is_const}
use fastsim.Optimize.Store.{Rewrite, rewrite_at}
use fastsim.Optimize.Strength.{copy, cancel_neg}

module _ (R : F64) where
  -- The arms `sqrt(x) * sqrt(x) → x`, for the node of the shared operand.
  unfoldable pub cancel_sqrt : Graph R → Node → Option (Rewrite R)
  cancel_sqrt g (Node.unary UnaryOp.sqrt x) = copy R g x
  cancel_sqrt g _ = some none

  unfoldable pub square : Graph R → NodeId → NodeId → Option (Rewrite R)
  unfolding cancel_sqrt
  square g a b = if a == b then (do n ← get_elem? g.nodes a; cancel_sqrt g n) else some none

  unfoldable pub simplify_add : Graph R → NodeId → NodeId → Option (Rewrite R)
  simplify_add g a b =
      if is_const R g b 0 then copy R g a else if is_const R g a 0 then copy R g b else some none

  unfoldable pub simplify_sub : Graph R → NodeId → NodeId → Option (Rewrite R)
  simplify_sub g a b =
      if is_const R g b 0
      then copy R g a
      else if a == b
      then some (some (Node.const 0))
      else some none

  unfoldable pub simplify_mul : Graph R → NodeId → NodeId → Option (Rewrite R)
  unfolding square
  simplify_mul g a b =
      if is_const R g b 0
      then some (some (Node.const 0))
      else if is_const R g a 0
      then some (some (Node.const 0))
      else if is_const R g b one_bits
      then copy R g a
      else if is_const R g a one_bits
      then copy R g b
      else square g a b

  unfoldable pub simplify_div : Graph R → NodeId → NodeId → Option (Rewrite R)
  simplify_div g a b = if is_const R g b one_bits then copy R g a else some none

  -- For the node of the operand of `abs`.
  unfoldable pub simplify_abs : Graph R → NodeId → Node → Option (Rewrite R)
  simplify_abs g inner (Node.unary UnaryOp.abs x) = copy R g inner
  simplify_abs g inner (Node.unary UnaryOp.sqrt x) = copy R g inner
  simplify_abs g inner (Node.unary UnaryOp.neg x) = some (some (Node.unary UnaryOp.abs x))
  simplify_abs g inner _ = some none

  -- For the node of the operand of `log`.
  unfoldable pub simplify_log : Graph R → Node → Option (Rewrite R)
  simplify_log g (Node.unary UnaryOp.exp x) = copy R g x
  simplify_log g _ = some none

  unfoldable pub algebraic_node : Graph R → NodeId → Node → Option (Rewrite R)
  unfolding simplify_add simplify_sub simplify_mul simplify_div simplify_abs simplify_log
  algebraic_node g id (Node.binary BinOp.add a b) = simplify_add g a b
  algebraic_node g id (Node.binary BinOp.sub a b) = simplify_sub g a b
  algebraic_node g id (Node.binary BinOp.mul a b) = simplify_mul g a b
  algebraic_node g id (Node.binary BinOp.div a b) = simplify_div g a b
  algebraic_node g id (Node.unary UnaryOp.neg inner) = do
    n ← get_elem? g.nodes inner
    cancel_neg R g n
  algebraic_node g id (Node.unary UnaryOp.abs inner) = do
    n ← get_elem? g.nodes inner
    simplify_abs g inner n
  algebraic_node g id (Node.unary UnaryOp.log inner) = do
    n ← get_elem? g.nodes inner
    simplify_log g n
  algebraic_node g id _ = some none

  unfoldable pub algebraic_simplify : Graph R → NodeId → Option (Graph R × Bool)
  algebraic_simplify = rewrite_at R algebraic_node
