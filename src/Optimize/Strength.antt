-- ===== src/Optimize/Strength.antt =====
-- ssa/optimize.rs: `strength_reduce`.
use fastsim.Common.{Bool, Option, none, some, ◌>>=◌, get_elem?, ltb, if◌then◌else◌}
use fastsim.F64.{F64, one_bits, neg_one_bits, half_bits, two_bits, three_bits}
use fastsim.Op.Kinds.{BinOp, UnaryOp}
use fastsim.Graph.Node.{Node, NodeId}
use fastsim.Graph.Build.{Graph, is_const, dedup_get}
use fastsim.Optimize.Store.{Rewrite, rewrite_at}

module _ (R : F64) where
  -- `nodes[id] = nodes[x].clone()`
  unfoldable pub copy : Graph R → NodeId → Option (Rewrite R)
  copy g x = do n ← get_elem? g.nodes x; some (some n)

  -- An id that the hash-consing map knows for a node, if it stands below `id`.
  unfoldable pub known_below : Graph R → NodeId → Node → Option NodeId
  known_below g id n = do k ← dedup_get n g.dedup; if ltb k id then some k else none

  -- x^3 → (x*x)*x, where x*x is known at a lower id.
  unfoldable pub cube : Option NodeId → NodeId → Rewrite R
  cube (some x2_id) x = some (Node.binary BinOp.mul x2_id x)
  cube none x = none

  -- x^(-1) → 1/x, where 1.0 is known at a lower id.
  unfoldable pub reciprocal : Option NodeId → NodeId → Rewrite R
  reciprocal (some one_id) x = some (Node.binary BinOp.div one_id x)
  reciprocal none x = none

  unfoldable pub reduce_pow : Graph R → NodeId → NodeId → NodeId → Option (Rewrite R)
  unfolding copy known_below cube reciprocal
  reduce_pow g id x c =
      if is_const R g c two_bits
      then some (some (Node.binary BinOp.mul x x))
      else if is_const R g c three_bits
      then some (cube (known_below g id (Node.binary BinOp.mul x x)) x)
      else if is_const R g c half_bits
      then some (some (Node.unary UnaryOp.sqrt x))
      else if is_const R g c one_bits
      then copy g x
      else if is_const R g c 0
      then some (some (Node.const one_bits))
      else if is_const R g c neg_one_bits
      then some (reciprocal (known_below g id (Node.const one_bits)) x)
      else some none

  -- `if let Node::Unary(Neg, inner) = …`, for the node of the operand
  unfoldable pub cancel_neg : Graph R → Node → Option (Rewrite R)
  unfolding copy
  cancel_neg g (Node.unary UnaryOp.neg inner) = copy g inner
  cancel_neg g _ = some none

  unfoldable pub strength_node : Graph R → NodeId → Node → Option (Rewrite R)
  unfolding reduce_pow cancel_neg
  strength_node g id (Node.binary BinOp.pow x c) = reduce_pow g id x c
  strength_node g id (Node.unary UnaryOp.neg a) = do n ← get_elem? g.nodes a; cancel_neg g n
  strength_node g id _ = some none

  unfoldable pub strength_reduce : Graph R → NodeId → Option (Graph R × Bool)
  strength_reduce = rewrite_at R strength_node
