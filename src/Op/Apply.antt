-- ===== src/Op/Apply.antt =====
-- ssa/op.rs: the canonical f64 meaning of each operation.
use Prim.Native.Nat.{bit_xor}
use mathlib.Core.Option
use fastsim.Common.{
  ℕ, zero, suc, ◌+◌, ◌*◌, ◌/◌, ◌%◌, ◌^◌, Bool, true, false, Option, none, some, ◌>>=◌,
  if◌then◌else◌,
}
use fastsim.F64.{F64, zero_f, one_f, neg_one_f, half_f, nan, infinity, neg_infinity}
use fastsim.Op.Kinds.{BinOp, UnaryOp, CmpOp, ReduceOp}

abbrev u64_mod : ℕ
u64_mod = 2 ^ 64

-- The splitmix64 finalizer on a bit pattern.
unfoldable pub splitmix : ℕ → ℕ
splitmix bits =
    let z0 = (bits + 0x9E3779B97F4A7C15) % u64_mod in
    let z1 = (bit_xor z0 (z0 / 2 ^ 30) * 0xBF58476D1CE4E5B9) % u64_mod in
    let z2 = (bit_xor z1 (z1 / 2 ^ 27) * 0x94D049BB133111EB) % u64_mod in bit_xor z2 (z2 / 2 ^ 31)

module _ (R : F64) where
  -- 6.0, 12.0, 120.0, 252.0 and 1e-15 (`constants::JIT_FLOAT_EQ_TOL`)
  abbrev six : R.F
  six = R.from_bits 0x4018000000000000

  abbrev twelve : R.F
  twelve = R.from_bits 0x4028000000000000

  abbrev hundred_twenty : R.F
  hundred_twenty = R.from_bits 0x405E000000000000

  abbrev two_hundred_fifty_two : R.F
  two_hundred_fifty_two = R.from_bits 0x406F800000000000

  abbrev pub float_eq_tol : R.F
  float_eq_tol = R.from_bits 0x3CD203AF9EE75616

  -- `while x < 6.0`; `none` when the fuel runs out.
  unfoldable pub digamma_loop : ℕ → R.F → R.F → Option (R.F × R.F)
  digamma_loop zero result x = none
  digamma_loop (suc fuel) result x = elim (R.lt x six) [
    | true ↦ digamma_loop fuel (R.sub result (R.div (one_f R) x)) (R.add x (one_f R))
    | false ↦ some (result, x)
  ]

  digamma_tail : R.F → R.F → R.F
  digamma_tail result x =
      let inv = R.div (one_f R) x in
      let inv2 = R.mul inv inv in
      let inner =
        R.sub (R.div (one_f R) hundred_twenty)
          (R.mul inv2 (R.div (one_f R) two_hundred_fifty_two)) in
      let series = R.mul inv2 (R.sub (R.div (one_f R) twelve) (R.mul inv2 inner)) in
      R.add result (R.sub (R.sub (R.ln x) (R.mul (half_f R) inv)) series)

  -- Enough for every input at which the loop ends: below -(2 ^ 53 + 2) the step `x + 1.0` is `x`.
  digamma_fuel : ℕ
  digamma_fuel = 2 ^ 54

  unfoldable pub digamma : R.F → Option R.F
  unfolding digamma_tail digamma_fuel
  digamma x = do (result, y) ← digamma_loop digamma_fuel (zero_f R) x; some (digamma_tail result y)

  unfoldable pub rand_uniform : R.F → R.F
  rand_uniform key =
      R.mul (R.of_u64 (splitmix (R.to_bits key) / 2 ^ 11)) (R.div (one_f R) (R.of_u64 (2 ^ 53)))

  -- `ReduceOp::identity`
  unfoldable pub identity : ReduceOp → R.F
  identity ReduceOp.sum = zero_f R
  identity ReduceOp.product = one_f R
  identity ReduceOp.min = infinity R
  identity ReduceOp.max = neg_infinity R

  -- `ReduceOp::combine`
  unfoldable pub combine : ReduceOp → R.F → R.F → R.F
  combine ReduceOp.sum acc v = R.add acc v
  combine ReduceOp.product acc v = R.mul acc v
  combine ReduceOp.min acc v = R.min acc v
  combine ReduceOp.max acc v = R.max acc v

  unfoldable pub apply_binary : BinOp → R.F → R.F → R.F
  apply_binary BinOp.add a b = R.add a b
  apply_binary BinOp.sub a b = R.sub a b
  apply_binary BinOp.mul a b = R.mul a b
  apply_binary BinOp.div a b = R.div a b
  apply_binary BinOp.pow a b = R.powf a b
  apply_binary BinOp.modulo a b = R.rem a b
  apply_binary BinOp.min a b = R.min a b
  apply_binary BinOp.max a b = R.max a b
  apply_binary BinOp.atan2 a b = R.atan2 a b
  apply_binary BinOp.hypot a b = R.hypot a b

  unfoldable pub cmp_cond : CmpOp → R.F → R.F → Bool
  cmp_cond CmpOp.gt a b = R.lt b a
  cmp_cond CmpOp.ge a b = R.le b a
  cmp_cond CmpOp.lt a b = R.lt a b
  cmp_cond CmpOp.le a b = R.le a b
  cmp_cond CmpOp.eq a b = R.lt (R.abs (R.sub a b)) float_eq_tol
  cmp_cond CmpOp.ne a b = R.le float_eq_tol (R.abs (R.sub a b))

  unfoldable pub apply_cmp : CmpOp → R.F → R.F → R.F
  unfolding cmp_cond
  apply_cmp op a b = if cmp_cond op a b then one_f R else zero_f R

  unfoldable pub numpy_sign : R.F → R.F
  numpy_sign x = if R.lt (zero_f R) x then one_f R else if R.lt x (zero_f R) then neg_one_f R else x

  -- Where the loop of `digamma` does not end the source does not return; the model gives a NaN.
  unfoldable pub apply_unary : UnaryOp → R.F → R.F
  apply_unary UnaryOp.neg va = R.neg va
  apply_unary UnaryOp.sin va = R.sin va
  apply_unary UnaryOp.cos va = R.cos va
  apply_unary UnaryOp.tan va = R.tan va
  apply_unary UnaryOp.atan va = R.atan va
  apply_unary UnaryOp.sinh va = R.sinh va
  apply_unary UnaryOp.cosh va = R.cosh va
  apply_unary UnaryOp.tanh va = R.tanh va
  apply_unary UnaryOp.exp va = R.exp va
  apply_unary UnaryOp.log va = R.ln va
  apply_unary UnaryOp.log10 va = R.log10 va
  apply_unary UnaryOp.abs va = R.abs va
  apply_unary UnaryOp.sqrt va = R.sqrt va
  apply_unary UnaryOp.sign va = numpy_sign va
  apply_unary UnaryOp.floor va = R.floor va
  apply_unary UnaryOp.asin va = R.asin va
  apply_unary UnaryOp.acos va = R.acos va
  apply_unary UnaryOp.asinh va = R.asinh va
  apply_unary UnaryOp.acosh va = R.acosh va
  apply_unary UnaryOp.atanh va = R.atanh va
  apply_unary UnaryOp.ceil va = R.ceil va
  apply_unary UnaryOp.round va = R.round va
  apply_unary UnaryOp.trunc va = R.trunc va
  apply_unary UnaryOp.log2 va = R.log2 va
  apply_unary UnaryOp.log1p va = R.ln_1p va
  apply_unary UnaryOp.expm1 va = R.exp_m1 va
  apply_unary UnaryOp.cbrt va = R.cbrt va
  apply_unary UnaryOp.erf va = R.erf va
  apply_unary UnaryOp.erfc va = R.erfc va
  apply_unary UnaryOp.lgamma va = R.lgamma va
  apply_unary UnaryOp.tgamma va = R.tgamma va
  apply_unary UnaryOp.digamma va = Option.get_or (digamma va) (nan R)
  apply_unary UnaryOp.rand_uniform va = rand_uniform va
