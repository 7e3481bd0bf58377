-- ===== src/Op/Avx.antt =====
-- ssa/op.rs: the AVX2 kernels and the choice between them and the portable ones.
--
-- The intrinsics are not code of the repository: `Vector` gives them as operations on a type of
-- registers, and `VectorLaws` says that each works lane by lane, as Intel documents them.
use fastsim.Common.{List, ◌∷◌, ◌≡◌, refl, ◌∙◌, Bool, true, false, if◌then◌else◌}
use fastsim.F64.{F64, zero_f, one_f}
use fastsim.Op.Kinds.{ReduceOp}
use fastsim.Op.Lanes.{Lanes, dot_tail, dot_loop, dot_scalar, fold_tail, fold_loop, reduce_scalar}

pub record Vector (R : F64) : Type 1 where
  pub V : Type 0
  -- `_mm256_set1_pd`; `_mm256_setzero_pd` is that of 0.0
  pub set1_pd : R.F → V
  pub setzero_pd : V
  pub add_pd : V → V → V
  pub mul_pd : V → V → V
  -- `_mm256_loadu_pd` on four consecutive doubles, and the four doubles that the store writes
  pub loadu_pd : R.F → R.F → R.F → R.F → V
  pub storeu_pd : V → Lanes R

module _ (R : F64) where
  abbrev pub lanewise : (R.F → R.F → R.F) → Lanes R → Lanes R → Lanes R
  lanewise f (a0, a1, a2, a3) (b0, b1, b2, b3) = (f a0 b0, f a1 b1, f a2 b2, f a3 b3)

  pub record VectorLaws (A : Vector R) : Type 0 where
    pub set1 : (x : R.F) → A.storeu_pd (A.set1_pd x) ≡ (x, x, x, x)
    pub setzero : A.storeu_pd A.setzero_pd ≡ (zero_f R, zero_f R, zero_f R, zero_f R)
    pub add_lanes :
        (a b : A.V) → A.storeu_pd (A.add_pd a b) ≡ lanewise R.add (A.storeu_pd a) (A.storeu_pd b)
    pub mul_lanes :
        (a b : A.V) → A.storeu_pd (A.mul_pd a b) ≡ lanewise R.mul (A.storeu_pd a) (A.storeu_pd b)
    pub load_lanes : (x0 x1 x2 x3 : R.F) → A.storeu_pd (A.loadu_pd x0 x1 x2 x3) ≡ (x0, x1, x2, x3)

module _ (R : F64) (A : Vector R) where
  merge_add : Lanes R → R.F
  merge_add (l0, l1, l2, l3) = R.add (R.add l0 l1) (R.add l2 l3)

  merge_mul : Lanes R → R.F
  merge_mul (l0, l1, l2, l3) = R.mul (R.mul l0 l1) (R.mul l2 l3)

  dot_avx2_loop : A.V → List R.F → List R.F → R.F
  unfolding merge_add
  dot_avx2_loop acc (a0 ∷ a1 ∷ a2 ∷ a3 ∷ as') (b0 ∷ b1 ∷ b2 ∷ b3 ∷ bs) =
      dot_avx2_loop (A.add_pd acc (A.mul_pd (A.loadu_pd a0 a1 a2 a3) (A.loadu_pd b0 b1 b2 b3))) as'
        bs
  dot_avx2_loop acc as' bs = dot_tail R (merge_add (A.storeu_pd acc)) as' bs

  unfoldable pub dot_avx2 : List R.F → List R.F → R.F
  unfolding dot_avx2_loop
  dot_avx2 a b = dot_avx2_loop A.setzero_pd a b

  reduce_sum_loop : A.V → List R.F → R.F
  unfolding merge_add
  reduce_sum_loop acc (x0 ∷ x1 ∷ x2 ∷ x3 ∷ xs) =
      reduce_sum_loop (A.add_pd acc (A.loadu_pd x0 x1 x2 x3)) xs
  reduce_sum_loop acc xs = fold_tail R R.add R.add (merge_add (A.storeu_pd acc)) xs

  unfoldable pub reduce_sum_avx2 : List R.F → R.F
  unfolding reduce_sum_loop
  reduce_sum_avx2 xs = reduce_sum_loop A.setzero_pd xs

  reduce_prod_loop : A.V → List R.F → R.F
  unfolding merge_mul
  reduce_prod_loop acc (x0 ∷ x1 ∷ x2 ∷ x3 ∷ xs) =
      reduce_prod_loop (A.mul_pd acc (A.loadu_pd x0 x1 x2 x3)) xs
  reduce_prod_loop acc xs = fold_tail R R.mul R.mul (merge_mul (A.storeu_pd acc)) xs

  unfoldable pub reduce_prod_avx2 : List R.F → R.F
  unfolding reduce_prod_loop
  reduce_prod_avx2 xs = reduce_prod_loop (A.set1_pd (one_f R)) xs

  -- `detected` is `is_x86_feature_detected!("avx2")`, and false on another architecture.
  unfoldable pub dot : Bool → List R.F → List R.F → R.F
  unfolding dot_avx2
  dot detected a b = if detected then dot_avx2 a b else dot_scalar R a b

  unfoldable pub reduce : Bool → ReduceOp → List R.F → R.F
  unfolding reduce_sum_avx2 reduce_prod_avx2
  reduce true ReduceOp.sum xs = reduce_sum_avx2 xs
  reduce true ReduceOp.product xs = reduce_prod_avx2 xs
  reduce true ReduceOp.min xs = reduce_scalar R ReduceOp.min xs
  reduce true ReduceOp.max xs = reduce_scalar R ReduceOp.max xs
  reduce false op xs = reduce_scalar R op xs

module _ (R : F64) (A : Vector R) (laws : VectorLaws R A) where
  open laws use {set1, setzero, add_lanes, mul_lanes, load_lanes}

  -- The register holds the accumulators of the portable loop.
  dot_loop_simulates :
      (acc : A.V) (a b : List R.F) → dot_avx2_loop R A acc a b ≡ dot_loop R (A.storeu_pd acc) a b
  unfolding dot_avx2_loop dot_loop
  dot_loop_simulates acc (a0 ∷ a1 ∷ a2 ∷ a3 ∷ as') (b0 ∷ b1 ∷ b2 ∷ b3 ∷ bs) =
      dot_loop_simulates (A.add_pd acc (A.mul_pd (A.loadu_pd a0 a1 a2 a3) (A.loadu_pd b0 b1 b2 b3)))
        as' bs
      ∙ simp (add_lanes, mul_lanes, load_lanes)
  dot_loop_simulates acc as' bs = refl

  sum_loop_simulates :
      (acc : A.V) (xs : List R.F)
      → reduce_sum_loop R A acc xs ≡ fold_loop R R.add R.add (A.storeu_pd acc) xs
  unfolding reduce_sum_loop fold_loop
  sum_loop_simulates acc (x0 ∷ x1 ∷ x2 ∷ x3 ∷ xs) =
      sum_loop_simulates (A.add_pd acc (A.loadu_pd x0 x1 x2 x3)) xs ∙ simp (add_lanes, load_lanes)
  sum_loop_simulates acc xs = refl

  prod_loop_simulates :
      (acc : A.V) (xs : List R.F)
      → reduce_prod_loop R A acc xs ≡ fold_loop R R.mul R.mul (A.storeu_pd acc) xs
  unfolding reduce_prod_loop fold_loop
  prod_loop_simulates acc (x0 ∷ x1 ∷ x2 ∷ x3 ∷ xs) =
      prod_loop_simulates (A.mul_pd acc (A.loadu_pd x0 x1 x2 x3)) xs ∙ simp (mul_lanes, load_lanes)
  prod_loop_simulates acc xs = refl

  -- The dot product is the portable one, bit for bit, whichever kernel the processor selects.
  pub dot-eq-dot_scalar :
      (detected : Bool) (a b : List R.F) → dot R A detected a b ≡ dot_scalar R a b
  unfolding dot dot_scalar
  dot-eq-dot_scalar true a b = dot_loop_simulates _ a b ∙ rw setzero
  dot-eq-dot_scalar false a b = refl

  -- Each reduction is the portable one, bit for bit, whichever kernel the processor selects.
  pub reduce-eq-reduce_scalar :
      (detected : Bool) (op : ReduceOp) (xs : List R.F)
      → reduce R A detected op xs ≡ reduce_scalar R op xs
  unfolding reduce reduce_scalar
  reduce-eq-reduce_scalar true ReduceOp.sum xs = sum_loop_simulates _ xs ∙ rw setzero
  reduce-eq-reduce_scalar true ReduceOp.product xs = prod_loop_simulates _ xs ∙ simp set1
  reduce-eq-reduce_scalar true ReduceOp.min xs = refl
  reduce-eq-reduce_scalar true ReduceOp.max xs = refl
  reduce-eq-reduce_scalar false op xs = refl
