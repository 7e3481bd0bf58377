-- ===== src/Autodiff/Diff.antt =====
-- ssa/autodiff.rs: `differentiate` and `diff_node`.
--
-- The memo is an association list. The recursion runs on fuel, of which each level takes one; an
-- index out of range is a panic, `none`.
use fastsim.Common.{
  ℕ, zero, suc, Bool, false, List, [], ◌∷◌, Option, none, some, ◌>>=◌, get_elem?, ◌==◌,
  if◌then◌else◌,
}
use fastsim.F64.{F64, zero_f, one_f, infinity, neg_infinity}
use fastsim.Op.Kinds.{BinOp, CmpOp, ReduceOp}
use fastsim.Graph.Node.{Node, NodeId}
use fastsim.Graph.Build.{Graph, add, constant, binary, cmp, select, const_value}
use fastsim.Autodiff.Rules.{Call, unary_rule, binary_rule, power_rule, fma_rule, run_rule}

abbrev pub Memo : Type 0
Memo = List (NodeId × NodeId)

unfoldable pub memo_get : NodeId → Memo → Option NodeId
memo_get n [] = none
memo_get n ((k, id) ∷ memo) = if k == n then some id else memo_get n memo

-- The graph and the memo after a call, and the id that it returns.
pub record Diff (R : F64) : Type 0 where
  pub graph : Graph R
  pub memo : Memo
  pub id : NodeId

unfoldable pub is_input : ℕ → Node → Bool
is_input i (Node.input j) = j == i
is_input i _ = false

unfoldable pub is_param : ℕ → Node → Bool
is_param i (Node.param j) = j == i
is_param i _ = false

-- The list without the element at position `i`.
unfoldable pub others : ℕ → List NodeId → List NodeId
others i [] = []
others zero (x ∷ xs) = xs
others (suc i) (x ∷ xs) = x ∷ others i xs

module _ (R : F64) where
  -- `graph.constant(if same { 1.0 } else { 0.0 })`
  unfoldable pub indicator : Bool → Graph R → Graph R × NodeId
  indicator same g = constant R g (if same then one_f R else zero_f R)

  unfoldable pub reduce_or_collapse_with_identity :
      Graph R → ReduceOp → List NodeId → R.F → Graph R × NodeId
  reduce_or_collapse_with_identity g op [] identity = constant R g identity
  reduce_or_collapse_with_identity g op (x ∷ []) identity = (g, x)
  reduce_or_collapse_with_identity g op args identity = add R g (Node.reduce op args)

  unfoldable pub identity_of : ReduceOp → R.F
  identity_of ReduceOp.sum = zero_f R
  identity_of ReduceOp.product = one_f R
  identity_of ReduceOp.min = infinity R
  identity_of ReduceOp.max = neg_infinity R

  unfoldable pub reduce_or_collapse : Graph R → ReduceOp → List NodeId → Graph R × NodeId
  unfolding reduce_or_collapse_with_identity identity_of
  reduce_or_collapse g op args = reduce_or_collapse_with_identity g op args (identity_of op)

  unfoldable pub extremum_ops : ReduceOp → CmpOp × BinOp
  extremum_ops ReduceOp.min = (CmpOp.lt, BinOp.min)
  extremum_ops _ = (CmpOp.gt, BinOp.max)

  unfoldable pub finish : Memo → Graph R × NodeId → Diff R
  finish memo (g, id) = record { graph = g; memo = memo; id = id }

  -- `graph.const_value(db) == Some(0.0)`
  unfoldable pub is_zero : Option R.F → Bool
  is_zero (some v) = R.eq v (zero_f R)
  is_zero none = false

  -- The code of a node, by the call `diff` for the derivatives of its operands.
  module _ (diff : Graph R → Memo → NodeId → Option (Diff R)) where
    unfoldable pub diff_all : Graph R → Memo → List NodeId → Option (Graph R × Memo × List NodeId)
    diff_all g memo [] = some (g, memo, [])
    diff_all g memo (a ∷ args) = do
      r ← diff g memo a
      rest ← diff_all r.graph r.memo args
      some (rest.0, rest.1, r.id ∷ rest.2)

    unfoldable pub diff_pow : Graph R → Memo → NodeId → NodeId → Option R.F → Option (Diff R)
    unfolding finish
    diff_pow g memo a b (some c) = do
      da ← diff g memo a
      some (finish da.memo (run_rule R (power_rule R c) (a ∷ da.id ∷ []) da.graph 0))
    diff_pow g memo a b none = do
      da ← diff g memo a
      db ← diff da.graph da.memo b
      some (
          finish db.memo
            (run_rule R (binary_rule R BinOp.pow) (a ∷ da.id ∷ b ∷ db.id ∷ []) db.graph 0))

    unfoldable pub diff_mod : Graph R → Memo → NodeId → NodeId → Option (Diff R)
    unfolding finish is_zero
    diff_mod g memo a b = do
      db ← diff g memo b
      da ← diff db.graph db.memo a
      some (
          if is_zero (const_value R da.graph db.id)
          then da
          else finish da.memo (constant R da.graph (zero_f R)))

    unfoldable pub diff_binary : Graph R → Memo → BinOp → NodeId → NodeId → Option (Diff R)
    unfolding finish diff_pow diff_mod
    diff_binary g memo BinOp.pow a b = diff_pow g memo a b (const_value R g b)
    diff_binary g memo BinOp.modulo a b = diff_mod g memo a b
    diff_binary g memo op a b = do
      da ← diff g memo a
      db ← diff da.graph da.memo b
      some (finish db.memo (run_rule R (binary_rule R op) (a ∷ da.id ∷ b ∷ db.id ∷ []) db.graph 0))

    unfoldable pub diff_unary : Graph R → Memo → Option (List (Call R.F)) → NodeId → Option (Diff R)
    unfolding finish
    diff_unary g memo none a = some (finish memo (constant R g (zero_f R)))
    diff_unary g memo (some rule) a = do
      da ← diff g memo a
      some (finish da.memo (run_rule R rule (a ∷ da.id ∷ []) da.graph 0))

    -- The terms of the product rule, for the operands from position `i` on.
    unfoldable pub product_terms :
        List NodeId → ℕ → List NodeId → Graph R → Memo → Option (Graph R × Memo × List NodeId)
    unfolding reduce_or_collapse_with_identity
    product_terms args i [] g memo = some (g, memo, [])
    product_terms args i (a ∷ later) g memo = do
      da ← diff g memo a
      let (g1, rest) =
          reduce_or_collapse_with_identity da.graph ReduceOp.product (others i args) (one_f R)
      let (g2, term) = binary R g1 BinOp.mul da.id rest
      tail ← product_terms args (suc i) later g2 da.memo
      some (tail.0, tail.1, term ∷ tail.2)

    -- The running extremum and its derivative.
    unfoldable pub diff_extremum :
        CmpOp → BinOp → List NodeId → NodeId → NodeId → Graph R → Memo → Option (Diff R)
    unfolding finish
    diff_extremum cmp_op bin_op [] running d g memo = some (finish memo (g, d))
    diff_extremum cmp_op bin_op (a ∷ args) running d g memo = do
      da ← diff g memo a
      let (g1, cond) = cmp R da.graph cmp_op a running
      let (g2, d') = select R g1 cond da.id d
      let (g3, running') = binary R g2 bin_op running a
      diff_extremum cmp_op bin_op args running' d' g3 da.memo

    unfoldable pub diff_reduce : Graph R → Memo → ReduceOp → List NodeId → Option (Diff R)
    unfolding finish reduce_or_collapse diff_all product_terms diff_extremum extremum_ops
    diff_reduce g memo ReduceOp.sum args = do
      r ← diff_all g memo args
      some (finish r.1 (reduce_or_collapse r.0 ReduceOp.sum r.2))
    diff_reduce g memo ReduceOp.product args = do
      r ← product_terms args 0 args g memo
      some (finish r.1 (reduce_or_collapse r.0 ReduceOp.sum r.2))
    diff_reduce g memo op [] = some (finish memo (constant R g (zero_f R)))
    diff_reduce g memo op (a ∷ args) = do
      d ← diff g memo a
      diff_extremum (extremum_ops op).0 (extremum_ops op).1 args a d.id d.graph d.memo

    -- `acc` is the sum so far.
    unfoldable pub accumulate : Graph R → Option NodeId → NodeId → Graph R × NodeId
    accumulate g none term = (g, term)
    accumulate g (some prev) term = binary R g BinOp.add prev term

    -- The loop over the pairs of operands.
    unfoldable pub diff_dot :
        Graph R → Memo → Option NodeId → List NodeId → List NodeId → Option (Diff R)
    unfolding finish accumulate
    diff_dot g memo acc (a ∷ xs) (b ∷ ys) = do
      da ← diff g memo a
      db ← diff da.graph da.memo b
      let (g1, adb) = binary R db.graph BinOp.mul a db.id
      let (g2, bda) = binary R g1 BinOp.mul da.id b
      let (g3, term) = binary R g2 BinOp.add adb bda
      let (g4, sum) = accumulate g3 acc term
      diff_dot g4 db.memo (some sum) xs ys
    diff_dot g memo (some acc) xs ys = some (finish memo (g, acc))
    diff_dot g memo none xs ys = some (finish memo (constant R g (zero_f R)))

    -- The match on the node.
    unfoldable pub diff_kind : Graph R → Memo → NodeId → Node → Option (Diff R)
    unfolding finish indicator diff_binary diff_unary diff_reduce diff_dot
    diff_kind g memo wrt (Node.const bits) = some (finish memo (constant R g (zero_f R)))
    diff_kind g memo wrt (Node.param i) = do
      target ← get_elem? g.nodes wrt
      some (finish memo (indicator (is_param i target) g))
    diff_kind g memo wrt (Node.input i) = do
      target ← get_elem? g.nodes wrt
      some (finish memo (indicator (is_input i target) g))
    diff_kind g memo wrt (Node.binary op a b) = diff_binary g memo op a b
    diff_kind g memo wrt (Node.unary op a) = diff_unary g memo (unary_rule R op) a
    diff_kind g memo wrt (Node.cmp op a b) = some (finish memo (constant R g (zero_f R)))
    diff_kind g memo wrt (Node.select c a b) = do
      da ← diff g memo a
      db ← diff da.graph da.memo b
      some (finish db.memo (select R db.graph c da.id db.id))
    diff_kind g memo wrt (Node.fma a b c) = do
      da ← diff g memo a
      db ← diff da.graph da.memo b
      dc ← diff db.graph db.memo c
      some
          (finish dc.memo (run_rule R (fma_rule R) (a ∷ da.id ∷ b ∷ db.id ∷ dc.id ∷ []) dc.graph 0))
    diff_kind g memo wrt (Node.reduce op args) = diff_reduce g memo op args
    diff_kind g memo wrt (Node.dot xs ys) = diff_dot g memo none xs ys

    unfoldable pub diff_node : Graph R → Memo → NodeId → NodeId → Option (Diff R)
    unfolding finish diff_kind
    diff_node g memo wrt node =
        if node == wrt
        then some (finish memo (constant R g (one_f R)))
        else do n ← get_elem? g.nodes node; diff_kind g memo wrt n

  -- A result is kept in the memo.
  unfoldable pub remember : NodeId → Diff R → Diff R
  remember node r = record r { memo = (node, r.id) ∷ r.memo }

  unfoldable pub differentiate : ℕ → NodeId → Graph R → Memo → NodeId → Option (Diff R)
  unfolding memo_get remember diff_node
  differentiate zero wrt g memo node = none
  differentiate (suc fuel) wrt g memo node = elim (memo_get node memo) [
    | some cached ↦ some (record { graph = g; memo = memo; id = cached })
    | none ↦ do r ← diff_node (differentiate fuel wrt) g memo wrt node; some (remember node r)
  ]
