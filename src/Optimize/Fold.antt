-- ===== src/Optimize/Fold.antt =====
-- ssa/optimize.rs: `constant_fold` and its domain gates.
use fastsim.Common.{Bool, true, false, ◌&&◌, ◌||◌, Option, none, some, if◌then◌else◌}
use fastsim.F64.{F64, zero_f, one_f, neg_one_f, infinity, neg_infinity}
use fastsim.Op.Kinds.{BinOp, UnaryOp}
use fastsim.Op.Apply.{apply_binary, apply_unary}
use fastsim.Graph.Node.{Node, NodeId}
use fastsim.Graph.Build.{Graph, const_value}
use fastsim.Optimize.Store.{Rewrite, rewrite_at}

module _ (R : F64) where
  unfoldable pub unary_fold_in_domain : UnaryOp → R.F → Bool
  unary_fold_in_domain UnaryOp.log va = R.lt (zero_f R) va
  unary_fold_in_domain UnaryOp.log10 va = R.lt (zero_f R) va
  unary_fold_in_domain UnaryOp.log2 va = R.lt (zero_f R) va
  unary_fold_in_domain UnaryOp.sqrt va = R.le (zero_f R) va
  unary_fold_in_domain UnaryOp.asin va = R.le (R.abs va) (one_f R)
  unary_fold_in_domain UnaryOp.acos va = R.le (R.abs va) (one_f R)
  unary_fold_in_domain UnaryOp.acosh va = R.le (one_f R) va
  unary_fold_in_domain UnaryOp.atanh va = R.lt (R.abs va) (one_f R)
  unary_fold_in_domain UnaryOp.log1p va = R.lt (neg_one_f R) va
  unary_fold_in_domain _ va = true

  -- `matches!(op, BinOp::Div | BinOp::Mod)`
  unfoldable pub is_division : BinOp → Bool
  is_division BinOp.div = true
  is_division BinOp.modulo = true
  is_division _ = false

  -- A finite or infinite result is stored as a constant; a NaN is not.
  unfoldable pub fold_result : R.F → Rewrite R
  fold_result result =
      if R.is_finite result || R.eq result (infinity R) || R.eq result (neg_infinity R)
      then some (Node.const (R.to_bits result))
      else none

  unfoldable pub fold_binary : BinOp → Option R.F → Option R.F → Rewrite R
  unfolding is_division fold_result
  fold_binary op (some va) (some vb) =
      if is_division op && R.eq vb (zero_f R) then none else fold_result (apply_binary R op va vb)
  fold_binary op _ _ = none

  unfoldable pub fold_unary : UnaryOp → Option R.F → Rewrite R
  unfolding unary_fold_in_domain fold_result
  fold_unary op (some va) =
      if unary_fold_in_domain op va then fold_result (apply_unary R op va) else none
  fold_unary op none = none

  unfoldable pub fold_node : Graph R → NodeId → Node → Option (Rewrite R)
  unfolding fold_binary fold_unary
  fold_node g id (Node.binary op a b) =
      some (fold_binary op (const_value R g a) (const_value R g b))
  fold_node g id (Node.unary op a) = some (fold_unary op (const_value R g a))
  fold_node g id _ = some none

  unfoldable pub constant_fold : Graph R → NodeId → Option (Graph R × Bool)
  constant_fold = rewrite_at R fold_node
