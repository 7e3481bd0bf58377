-- ===== src/Utils/Rng.antt =====
-- utils/rng.rs: `Rng`, xoshiro256+ seeded by splitmix64, on four 64-bit words.
use Prim.Native.Nat.{bit_xor}
use fastsim.Common.{ℕ, ◌+◌, ◌*◌, ◌/◌, ◌%◌, ◌^◌}
use fastsim.F64.{F64, one_f}

pub record Rng : Type 0 where
  pub s0 : ℕ
  pub s1 : ℕ
  pub s2 : ℕ
  pub s3 : ℕ

abbrev u64_mod : ℕ
u64_mod = 2 ^ 64

-- `z.wrapping_add(0x9e3779b97f4a7c15)`, the state of the seeding after one word.
unfoldable pub seed_step : ℕ → ℕ
seed_step z = (z + 0x9E3779B97F4A7C15) % u64_mod

-- The two mixing steps, after which the source goes on with `z` as it is then.
unfoldable pub seed_mix : ℕ → ℕ
unfolding seed_step
seed_mix z =
    let z0 = seed_step z in
    let z1 = (bit_xor z0 (z0 / 2 ^ 30) * 0xBF58476D1CE4E5B9) % u64_mod in
    (bit_xor z1 (z1 / 2 ^ 27) * 0x94D049BB133111EB) % u64_mod

unfoldable pub seed_word : ℕ → ℕ
seed_word z = bit_xor z (z / 2 ^ 31)

-- `z` is carried from one word to the next with its mixing.
unfoldable pub new : ℕ → Rng
unfolding seed_mix seed_word
new seed =
    let z0 = seed_mix seed in
    let z1 = seed_mix z0 in
    let z2 = seed_mix z1 in
    let z3 = seed_mix z2 in
    record { s0 = seed_word z0; s1 = seed_word z1; s2 = seed_word z2; s3 = seed_word z3 }

-- `rotate_left(45)` of a word
unfoldable pub rotate_left_45 : ℕ → ℕ
rotate_left_45 x = (x * 2 ^ 45) % u64_mod + x / 2 ^ 19

-- The word, and the next state.
unfoldable pub next_u64 : Rng → ℕ × Rng
unfolding rotate_left_45
next_u64 r =
    let result = (r.s0 + r.s3) % u64_mod in
    let t = (r.s1 * 2 ^ 17) % u64_mod in
    let a2 = bit_xor r.s2 r.s0 in
    let a3 = bit_xor r.s3 r.s1 in
    let a1 = bit_xor r.s1 a2 in
    let a0 = bit_xor r.s0 a3 in
    (result, record { s0 = a0; s1 = a1; s2 = bit_xor a2 t; s3 = rotate_left_45 a3 })

module _ (R : F64) where
  unfoldable pub uniform : Rng → R.F × Rng
  unfolding next_u64
  uniform r =
      let (word, r') = next_u64 r in
      (R.mul (R.of_u64 (word / 2 ^ 11)) (R.div (one_f R) (R.of_u64 (2 ^ 53))), r')

  -- `f64::MIN_POSITIVE`, -2.0 and `f64::consts::TAU`
  unfoldable pub normal : Rng → R.F × Rng
  unfolding uniform
  normal r =
      let (u, r1) = uniform r in
      let u1 = R.max u (R.from_bits 0x0010000000000000) in
      let (u2, r2) = uniform r1 in
      (
        R.mul (R.sqrt (R.mul (R.from_bits 0xC000000000000000) (R.ln u1)))
            (R.cos (R.mul (R.from_bits 0x401921FB54442D18) u2)),
        r2,
      )

  unfoldable pub normal_scaled : R.F → R.F → Rng → R.F × Rng
  unfolding normal
  normal_scaled mean std_dev r = let (x, r') = normal r in (R.add mean (R.mul std_dev x), r')
