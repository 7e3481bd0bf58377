-- ===== src/Optimize/Fma.antt =====
-- ssa/optimize.rs: `detect_fma`.
use fastsim.Common.{Bool, Option, none, some, ◌>>=◌, get_elem?}
use fastsim.F64.{F64}
use fastsim.Op.Kinds.{BinOp}
use fastsim.Graph.Node.{Node, NodeId}
use fastsim.Graph.Build.{Graph}
use fastsim.Optimize.Store.{Rewrite, rewrite_at}

module _ (R : F64) where
  -- c + (a * b), for the node of the second operand
  unfoldable pub fma_right : NodeId → Node → Rewrite R
  fma_right mul_id (Node.binary BinOp.mul a b) = some (Node.fma a b mul_id)
  fma_right mul_id _ = none

  -- (a * b) + c, for the node of the first operand
  unfoldable pub fma_left : Graph R → NodeId → NodeId → Node → Option (Rewrite R)
  unfolding fma_right
  fma_left g mul_id c (Node.binary BinOp.mul a b) = some (some (Node.fma a b c))
  fma_left g mul_id c _ = do m ← get_elem? g.nodes c; some (fma_right mul_id m)

  unfoldable pub fma_node : Graph R → NodeId → Node → Option (Rewrite R)
  unfolding fma_left
  fma_node g id (Node.binary BinOp.add mul_id c) = do
    n ← get_elem? g.nodes mul_id
    fma_left g mul_id c n
  fma_node g id _ = some none

  unfoldable pub detect_fma : Graph R → NodeId → Option (Graph R × Bool)
  detect_fma = rewrite_at R fma_node
