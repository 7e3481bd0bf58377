-- ===== src/F64.antt =====
-- The arithmetic of f64, which the source takes from Rust's `core` and from the `libm` crate.
--
-- A value of `F` is an f64 with the payload of a NaN forgotten, so that `from_bits` after
-- `to_bits` is the identity. The operations carry the names of Rust's methods.
pub mod Laws
use fastsim.Common.{ℕ, Bool, not, ◌||◌}

pub record F64 : Type 1 where
  pub F : Type 0
  pub from_bits : ℕ → F
  pub to_bits : F → ℕ
  -- `as f64` on a u64
  pub of_u64 : ℕ → F
  -- the operators `+ - * / %`
  pub add : F → F → F
  pub sub : F → F → F
  pub mul : F → F → F
  pub div : F → F → F
  pub rem : F → F → F
  pub powf : F → F → F
  pub min : F → F → F
  pub max : F → F → F
  pub atan2 : F → F → F
  pub hypot : F → F → F
  pub mul_add : F → F → F → F
  pub neg : F → F
  pub sin : F → F
  pub cos : F → F
  pub tan : F → F
  pub atan : F → F
  pub sinh : F → F
  pub cosh : F → F
  pub tanh : F → F
  pub exp : F → F
  pub ln : F → F
  pub log10 : F → F
  pub abs : F → F
  pub signum : F → F
  pub sqrt : F → F
  pub floor : F → F
  pub asin : F → F
  pub acos : F → F
  pub asinh : F → F
  pub acosh : F → F
  pub atanh : F → F
  pub ceil : F → F
  pub round : F → F
  pub trunc : F → F
  pub log2 : F → F
  pub ln_1p : F → F
  pub exp_m1 : F → F
  pub cbrt : F → F
  -- the `libm` crate
  pub erf : F → F
  pub erfc : F → F
  pub lgamma : F → F
  pub tgamma : F → F
  -- the operators `< <= ==`, `is_nan` and `is_finite`
  pub lt : F → F → Bool
  pub le : F → F → Bool
  pub eq : F → F → Bool
  pub is_nan : F → Bool
  pub is_finite : F → Bool

-- The bit patterns of the literals of the source.
abbrev pub one_bits : ℕ
one_bits = 0x3FF0000000000000

abbrev pub neg_one_bits : ℕ
neg_one_bits = 0xBFF0000000000000

abbrev pub half_bits : ℕ
half_bits = 0x3FE0000000000000

abbrev pub two_bits : ℕ
two_bits = 0x4000000000000000

abbrev pub three_bits : ℕ
three_bits = 0x4008000000000000

module _ (R : F64) where
  abbrev pub zero_f : R.F
  zero_f = R.from_bits 0

  abbrev pub one_f : R.F
  one_f = R.from_bits one_bits

  abbrev pub neg_one_f : R.F
  neg_one_f = R.from_bits neg_one_bits

  abbrev pub half_f : R.F
  half_f = R.from_bits half_bits

  abbrev pub two_f : R.F
  two_f = R.from_bits two_bits

  abbrev pub three_f : R.F
  three_f = R.from_bits three_bits

  abbrev pub infinity : R.F
  infinity = R.from_bits 0x7FF0000000000000

  abbrev pub neg_infinity : R.F
  neg_infinity = R.from_bits 0xFFF0000000000000

  abbrev pub nan : R.F
  nan = R.from_bits 0x7FF8000000000000
