-- ===== src/Tests/Parity.antt =====
-- Arithmetic modulo 2, an arithmetic in which the laws that the theorems assume hold.
use fastsim.Common.{List, Bool, true, false, not, ◌&&◌, ◌||◌, ◌==◌, ◌≡◌, refl, sym, if◌then◌else◌}
use fastsim.F64.{F64, one_bits}
use fastsim.F64.Laws.{IeeeLaws, IsExactAt}
use fastsim.Op.Avx.{Vector, VectorLaws}
use fastsim.Events.Directions.{OrderLaws}

abbrev xor : Bool → Bool → Bool
xor true y = not y
xor false y = y

abbrev pub parity : F64
parity = record {
  F = Bool;
  from_bits = λ b. not (b == 0);
  to_bits = λ x. if x then one_bits else 0;
  of_u64 = λ n. not (n == 0);
  add = xor;
  sub = xor;
  mul = λ x y. x && y;
  div = λ x y. x && y;
  rem = λ x y. false;
  powf = λ x y. if y then x else true;
  min = λ x y. x && y;
  max = λ x y. x || y;
  atan2 = λ x y. x;
  hypot = xor;
  mul_add = λ x y z. xor (x && y) z;
  neg = λ x. x;
  sin = λ x. x;
  cos = λ x. x;
  tan = λ x. x;
  atan = λ x. x;
  sinh = λ x. x;
  cosh = λ x. x;
  tanh = λ x. x;
  exp = λ x. x;
  ln = λ x. x;
  log10 = λ x. x;
  abs = λ x. x;
  signum = λ x. true;
  sqrt = λ x. x;
  floor = λ x. x;
  asin = λ x. x;
  acos = λ x. x;
  asinh = λ x. x;
  acosh = λ x. x;
  atanh = λ x. x;
  ceil = λ x. x;
  round = λ x. x;
  trunc = λ x. x;
  log2 = λ x. x;
  ln_1p = λ x. x;
  exp_m1 = λ x. x;
  cbrt = λ x. x;
  erf = λ x. x;
  erfc = λ x. x;
  lgamma = λ x. x;
  tgamma = λ x. x;
  lt = λ x y. not x && y;
  le = λ x y. not x || y;
  eq = λ x y. not (xor x y);
  is_nan = λ x. false;
  is_finite = λ x. true;
}

bits : (x : Bool) → not ((if x then one_bits else 0) == 0) ≡ x
bits true = refl
bits false = refl

comm : (x y : Bool) → xor x y ≡ xor y x
comm true true = refl
comm true false = refl
comm false true = refl
comm false false = refl

and_comm : (x y : Bool) → (x && y) ≡ (y && x)
and_comm true true = refl
and_comm true false = refl
and_comm false true = refl
and_comm false false = refl

fused : (x z : Bool) → xor (x && true) z ≡ xor x z
fused true true = refl
fused true false = refl
fused false true = refl
fused false false = refl

xor-false : (x : Bool) → xor x false ≡ x
xor-false true = refl
xor-false false = refl

and_true : (x : Bool) → (x && true) ≡ x
and_true true = refl
and_true false = refl

and_self : (x : Bool) → x ≡ (x && x)
and_self true = refl
and_self false = refl

cube : (x : Bool) → x ≡ (x && x && x)
cube true = refl
cube false = refl

xor_self : (x : Bool) → xor x x ≡ false
xor_self true = refl
xor_self false = refl

and_false : (x : Bool) → (x && false) ≡ false
and_false true = refl
and_false false = refl

pub parity_ieee : IeeeLaws parity
parity_ieee = record {
  from_bits-to_bits = λ x. bits x;
  add_comm = λ x y. comm x y;
  mul_comm = λ x y. and_comm x y;
  hypot_comm = λ x y. comm x y;
  distance_comm = λ x y. comm x y;
  one_mul = λ x. refl;
  one_mul_add = λ y z. refl;
  mul_add_one = λ x z. fused x z;
  neg_neg = λ x. refl;
  abs_abs = λ x. refl;
  abs_neg = λ x. refl;
  sub_zero = λ x. xor-false x;
  div_one = λ x. and_true x;
  powf_one = λ x. refl;
  powf_zero = λ x. refl;
}

pub parity_exact : (vs : List Bool) → IsExactAt parity vs
parity_exact vs = record {
  powf_two = λ x h k. and_self x;
  powf_three = λ x h k. cube x;
  powf_half = λ x h k. refl;
  powf_neg_one = λ x h k. refl;
  add_zero = λ x h k. xor-false x;
  sub_self = λ x h k. xor_self x;
  mul_zero = λ x h k. and_false x;
  abs_sqrt = λ x h k l. refl;
  sqrt_mul_sqrt = λ x h k l. sym (and_self x);
  ln_exp = λ x h k l. refl;
  mul_add_split = λ x y z h k l m n. refl;
}

-- Registers of four Booleans.
abbrev pub parity_vector : Vector parity
parity_vector = record {
  V = Bool × Bool × Bool × Bool;
  set1_pd = λ x. (x, x, x, x);
  setzero_pd = (false, false, false, false);
  add_pd = λ a b. (xor a.0 b.0, xor a.1 b.1, xor a.2 b.2, xor a.3 b.3);
  mul_pd = λ a b. (a.0 && b.0, a.1 && b.1, a.2 && b.2, a.3 && b.3);
  loadu_pd = λ x y z w. (x, y, z, w);
  storeu_pd = λ v. v;
}

pub parity_vector_laws : VectorLaws parity parity_vector
parity_vector_laws = record {
  set1 = λ x. refl;
  setzero = refl;
  add_lanes = λ a b. refl;
  mul_lanes = λ a b. refl;
  load_lanes = λ x0 x1 x2 x3. refl;
}

none_below : (x : Bool) → (not x && false) ≡ true → ⊥
none_below true h = cc
none_below false h = cc

positive : (x : Bool) → (true && x) ≡ true → not (xor x false) ≡ false
positive true h = refl
positive false h = cc

pub parity_order : OrderLaws parity
parity_order = record {
  below_zero = λ x h. elim (none_below x h) [ ];
  above_zero = λ x h. positive x h;
  rises = λ x y h k. elim (none_below x h) [ ];
  falls = λ x y h k. cc;
}
