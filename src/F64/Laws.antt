-- ===== src/F64/Laws.antt =====
-- What the proofs rely on of f64 arithmetic.
--
-- `IeeeLaws` are facts of IEEE 754 and of Rust's documentation, true of every f64 with the payload
-- of a NaN forgotten. `IsExactAt` says of the values of one graph that the identities which the
-- rewriting passes take for granted are exact at them: each is asked for only where both the operands
-- and the expression that a pass rewrites are among the values. Values of f64 that are finite, not below
-- zero, and small integers meet it; a NaN, an infinity, a negative zero or a rounded result may not.
use fastsim.Common.{ℕ, ◌≡◌, List, some, get_elem?}
use fastsim.F64.{F64, zero_f, one_f, neg_one_f, half_f, two_f, three_f}

pub record IeeeLaws (R : F64) : Type 0 where
  pub from_bits-to_bits : (x : R.F) → R.from_bits (R.to_bits x) ≡ x
  pub add_comm : (x y : R.F) → R.add x y ≡ R.add y x
  pub mul_comm : (x y : R.F) → R.mul x y ≡ R.mul y x
  pub hypot_comm : (x y : R.F) → R.hypot x y ≡ R.hypot y x
  -- |x - y| is |y - x|
  pub distance_comm : (x y : R.F) → R.abs (R.sub x y) ≡ R.abs (R.sub y x)
  pub one_mul : (x : R.F) → R.mul (one_f R) x ≡ x
  -- With a factor 1 the fused operation rounds once, as the sum does.
  pub one_mul_add : (y z : R.F) → R.mul_add (one_f R) y z ≡ R.add y z
  pub mul_add_one : (x z : R.F) → R.mul_add x (one_f R) z ≡ R.add x z
  pub neg_neg : (x : R.F) → R.neg (R.neg x) ≡ x
  pub abs_abs : (x : R.F) → R.abs (R.abs x) ≡ R.abs x
  pub abs_neg : (x : R.F) → R.abs (R.neg x) ≡ R.abs x
  pub sub_zero : (x : R.F) → R.sub x (zero_f R) ≡ x
  pub div_one : (x : R.F) → R.div x (one_f R) ≡ x
  pub powf_one : (x : R.F) → R.powf x (one_f R) ≡ x
  pub powf_zero : (x : R.F) → R.powf x (zero_f R) ≡ one_f R

-- A value of a node.
abbrev pub IsValue : {A : Type 0} → List A → A → Type 0
IsValue vs x = (id : ℕ) × (get_elem? vs id ≡ some x)

pub record IsExactAt (R : F64) (vs : List R.F) : Type 0 where
  pub powf_two :
      (x : R.F) → IsValue vs x → IsValue vs (R.powf x (two_f R)) → R.powf x (two_f R) ≡ R.mul x x
  pub powf_three :
      (x : R.F)
      → IsValue vs x
      → IsValue vs (R.powf x (three_f R))
      → R.powf x (three_f R) ≡ R.mul (R.mul x x) x
  pub powf_half :
      (x : R.F) → IsValue vs x → IsValue vs (R.powf x (half_f R)) → R.powf x (half_f R) ≡ R.sqrt x
  pub powf_neg_one :
      (x : R.F)
      → IsValue vs x
      → IsValue vs (R.powf x (neg_one_f R))
      → R.powf x (neg_one_f R) ≡ R.div (one_f R) x
  pub add_zero : (x : R.F) → IsValue vs x → IsValue vs (R.add x (zero_f R)) → R.add x (zero_f R) ≡ x
  pub sub_self : (x : R.F) → IsValue vs x → IsValue vs (R.sub x x) → R.sub x x ≡ zero_f R
  pub mul_zero :
      (x : R.F) → IsValue vs x → IsValue vs (R.mul x (zero_f R)) → R.mul x (zero_f R) ≡ zero_f R
  pub abs_sqrt :
      (x : R.F)
      → IsValue vs x
      → IsValue vs (R.sqrt x)
      → IsValue vs (R.abs (R.sqrt x))
      → R.abs (R.sqrt x) ≡ R.sqrt x
  pub sqrt_mul_sqrt :
      (x : R.F)
      → IsValue vs x
      → IsValue vs (R.sqrt x)
      → IsValue vs (R.mul (R.sqrt x) (R.sqrt x))
      → R.mul (R.sqrt x) (R.sqrt x) ≡ x
  pub ln_exp :
      (x : R.F)
      → IsValue vs x
      → IsValue vs (R.exp x)
      → IsValue vs (R.ln (R.exp x))
      → R.ln (R.exp x) ≡ x
  pub mul_add_split :
      (x y z : R.F)
      → IsValue vs x
      → IsValue vs y
      → IsValue vs z
      → IsValue vs (R.mul x y)
      → IsValue vs (R.add (R.mul x y) z)
      → R.mul_add x y z ≡ R.add (R.mul x y) z
