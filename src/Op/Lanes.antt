-- ===== src/Op/Lanes.antt =====
-- ssa/op.rs: the four-lane kernels for sums of products and for reductions, in their portable form.
--
-- A loop over an index is a recursion on the operands that are left. The accumulators of the four
-- lanes are a tuple.
use fastsim.Common.{List, [], ◌∷◌}
use fastsim.F64.{F64, zero_f, one_f, infinity, neg_infinity}
use fastsim.Op.Kinds.{ReduceOp}

module _ (R : F64) where
  abbrev pub Lanes : Type 0
  Lanes = R.F × R.F × R.F × R.F

  -- `while i < n { s += a[i] * b[i]; }`, up to the shorter operand
  unfoldable pub dot_tail : R.F → List R.F → List R.F → R.F
  dot_tail s (a ∷ as') (b ∷ bs) = dot_tail (R.add s (R.mul a b)) as' bs
  dot_tail s _ _ = s

  -- `while i + 4 <= n`, then the merge of the lanes and the tail
  unfoldable pub dot_loop : Lanes → List R.F → List R.F → R.F
  unfolding dot_tail
  dot_loop (l0, l1, l2, l3) (a0 ∷ a1 ∷ a2 ∷ a3 ∷ as') (b0 ∷ b1 ∷ b2 ∷ b3 ∷ bs) =
      dot_loop
        (
          R.add l0 (R.mul a0 b0),
          R.add l1 (R.mul a1 b1),
          R.add l2 (R.mul a2 b2),
          R.add l3 (R.mul a3 b3),
        )
        as' bs
  dot_loop (l0, l1, l2, l3) as' bs = dot_tail (R.add (R.add l0 l1) (R.add l2 l3)) as' bs

  unfoldable pub dot_scalar : List R.F → List R.F → R.F
  unfolding dot_loop
  dot_scalar a b = dot_loop (zero_f R, zero_f R, zero_f R, zero_f R) a b

  -- The macro `lanes4` of `reduce_scalar`.
  module _ (comb merge : R.F → R.F → R.F) where
    unfoldable pub fold_tail : R.F → List R.F → R.F
    fold_tail s [] = s
    fold_tail s (x ∷ xs) = fold_tail (comb s x) xs

    unfoldable pub fold_loop : Lanes → List R.F → R.F
    unfolding fold_tail
    fold_loop (l0, l1, l2, l3) (x0 ∷ x1 ∷ x2 ∷ x3 ∷ xs) =
        fold_loop (comb l0 x0, comb l1 x1, comb l2 x2, comb l3 x3) xs
    fold_loop (l0, l1, l2, l3) xs = fold_tail (merge (merge l0 l1) (merge l2 l3)) xs

    unfoldable pub lanes4 : R.F → List R.F → R.F
    unfolding fold_loop
    lanes4 init xs = fold_loop (init, init, init, init) xs

  unfoldable pub reduce_scalar : ReduceOp → List R.F → R.F
  unfolding lanes4
  reduce_scalar ReduceOp.sum xs = lanes4 R.add R.add (zero_f R) xs
  reduce_scalar ReduceOp.product xs = lanes4 R.mul R.mul (one_f R) xs
  reduce_scalar ReduceOp.min xs = lanes4 R.min R.min (infinity R) xs
  reduce_scalar ReduceOp.max xs = lanes4 R.max R.max (neg_infinity R) xs
