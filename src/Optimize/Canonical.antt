-- ===== src/Optimize/Canonical.antt =====
-- ssa/optimize.rs: `insert_canonical`, the insertion of one node with its operands in a canonical order
-- and its constants folded.
--
-- The function first chooses what to do (`choose`) and then does it (`place`).
use fastsim.Common.{
  Bool, true, false, ◌&&◌, List, [], ◌∷◌, Option, none, some, ◌>>=◌, ltb, ◌==◌, if◌then◌else◌,
}
use fastsim.F64.{F64, zero_f, one_bits}
use fastsim.Op.Kinds.{BinOp, UnaryOp, CmpOp, ReduceOp}
use fastsim.Op.Apply.{apply_binary, apply_unary, apply_cmp}
use fastsim.Op.Lanes.{reduce_scalar, dot_scalar}
use fastsim.Graph.Node.{Node, NodeId}
use fastsim.Graph.Build.{Graph, add, constant, const_value, is_const}
use fastsim.Optimize.Fold.{is_division, unary_fold_in_domain}

-- What the insertion comes to: a constant, an id that is there, or the node.
pub data Choice (F : Type 0) : Type 0 where
  folded : F → Choice F
  known : NodeId → Choice F
  kept : Node → Choice F

-- `BinOp::Add | BinOp::Mul | BinOp::Hypot`
unfoldable pub commutes : BinOp → Bool
commutes BinOp.add = true
commutes BinOp.mul = true
commutes BinOp.hypot = true
commutes _ = false

-- `CmpOp::Eq | CmpOp::Ne`
unfoldable pub is_symmetric : CmpOp → Bool
is_symmetric CmpOp.eq = true
is_symmetric CmpOp.ne = true
is_symmetric _ = false

unfoldable pub sort_operands : Node → Node
unfolding commutes is_symmetric
sort_operands (Node.binary op a b) =
    if commutes op && ltb b a then Node.binary op b a else Node.binary op a b
sort_operands (Node.cmp op a b) =
    if is_symmetric op && ltb b a then Node.cmp op b a else Node.cmp op a b
sort_operands n = n

module _ (R : F64) where
  -- A result that is not a NaN.
  unfoldable pub unless_nan : R.F → Option R.F
  unless_nan r = if R.is_nan r then none else some r

  unfoldable pub fold_pair : BinOp → Option R.F → Option R.F → Option R.F
  unfolding unless_nan
  fold_pair op (some va) (some vb) =
      if is_division R op && R.eq vb (zero_f R) then none else unless_nan (apply_binary R op va vb)
  fold_pair op _ _ = none

  unfoldable pub fold_one : UnaryOp → Option R.F → Option R.F
  unfolding unless_nan
  fold_one op (some va) =
      if unary_fold_in_domain R op va then unless_nan (apply_unary R op va) else none
  fold_one op none = none

  unfoldable pub fold_cmp : CmpOp → Option R.F → Option R.F → Option R.F
  fold_cmp op (some va) (some vb) = some (apply_cmp R op va vb)
  fold_cmp op _ _ = none

  unfoldable pub fold_fma : Option R.F → Option R.F → Option R.F → Option R.F
  unfolding unless_nan
  fold_fma (some va) (some vb) (some vc) = unless_nan (R.mul_add va vb vc)
  fold_fma _ _ _ = none

  -- `args.iter().map(|&a| g.const_value(a)).collect::<Option<Vec<f64>>>()`
  unfoldable pub const_values : Graph R → List NodeId → Option (List R.F)
  const_values g [] = some []
  const_values g (a ∷ args) = do v ← const_value R g a; vs ← const_values g args; some (v ∷ vs)

  unfoldable pub or_kept : Option R.F → Node → Choice R.F
  or_kept (some r) n = folded r
  or_kept none n = kept n

  unfoldable pub choose_select : Option R.F → NodeId → NodeId → NodeId → Choice R.F
  choose_select (some cv) c t e = known (if R.eq cv (zero_f R) then e else t)
  choose_select none c t e = if t == e then known t else kept (Node.select c t e)

  unfoldable pub choose_reduce : Graph R → ReduceOp → List NodeId → Choice R.F
  unfolding const_values or_kept
  choose_reduce g ReduceOp.product (a ∷ []) = known a
  choose_reduce g op args =
      or_kept (do vals ← const_values g args; some (reduce_scalar R op vals)) (Node.reduce op args)

  -- The match on a node whose operands are sorted.
  unfoldable pub choose_simple : Graph R → Node → Choice R.F
  unfolding fold_pair fold_one fold_cmp or_kept choose_select choose_reduce const_values
  choose_simple g (Node.binary op a b) =
      or_kept (fold_pair op (const_value R g a) (const_value R g b)) (Node.binary op a b)
  choose_simple g (Node.unary op a) = or_kept (fold_one op (const_value R g a)) (Node.unary op a)
  choose_simple g (Node.cmp op a b) =
      or_kept (fold_cmp op (const_value R g a) (const_value R g b)) (Node.cmp op a b)
  choose_simple g (Node.select c t e) = choose_select (const_value R g c) c t e
  choose_simple g (Node.reduce op args) = choose_reduce g op args
  choose_simple g (Node.dot a b) =
      or_kept (do av ← const_values g a; bv ← const_values g b; some (dot_scalar R av bv))
        (Node.dot a b)
  choose_simple g n = kept n

  -- fma(a, 1, c) and fma(1, b, c) are inserted as sums.
  unfoldable pub choose_fma : Graph R → Option R.F → NodeId → NodeId → NodeId → Choice R.F
  unfolding choose_simple sort_operands
  choose_fma g (some r) a b c = folded r
  choose_fma g none a b c =
      if is_const R g a one_bits
      then choose_simple g (sort_operands (Node.binary BinOp.add b c))
      else if is_const R g b one_bits
      then choose_simple g (sort_operands (Node.binary BinOp.add a c))
      else kept (Node.fma a b c)

  unfoldable pub choose : Graph R → Node → Choice R.F
  unfolding choose_fma fold_fma choose_simple sort_operands
  choose g (Node.fma a b c) =
      choose_fma g (fold_fma (const_value R g a) (const_value R g b) (const_value R g c)) a b c
  choose g n = choose_simple g (sort_operands n)

  unfoldable pub place : Graph R → Choice R.F → Graph R × NodeId
  place g (folded r) = constant R g r
  place g (known id) = (g, id)
  place g (kept n) = add R g n

  unfoldable pub insert_canonical : Graph R → Node → Graph R × NodeId
  unfolding choose place
  insert_canonical g node = place g (choose g node)
