-- ===== src/Events/Directions.antt =====
-- events/zerocrossing.rs: the crossings that the three directions detect.
use fastsim.Common.{Bool, true, false, not, ◌&&◌, ◌≡◌, refl, if◌then◌else◌, arith}
use fastsim.F64.{F64, zero_f}
use fastsim.Events.Schedule.{Detection}
use fastsim.Events.ZeroCrossing.{
  ZeroCrossing, CrossingDirection, both, up, down, exact_hit, direction_filter, no_detection,
  detect_from, detect, buffer,
}

-- Facts of the order and of the signs of f64: a number beyond zero is not zero, and one whose product
-- with it has the negative sign lies on the other side of it.
pub record OrderLaws (R : F64) : Type 0 where
  pub below_zero : (x : R.F) → R.lt x (zero_f R) ≡ true → R.eq x (zero_f R) ≡ false
  pub above_zero : (x : R.F) → R.lt (zero_f R) x ≡ true → R.eq x (zero_f R) ≡ false
  pub rises :
      (x y : R.F)
      → R.lt x (zero_f R) ≡ true
      → R.lt (R.signum (R.mul y x)) (zero_f R) ≡ true
      → R.lt x y ≡ true
  pub falls :
      (x y : R.F)
      → R.lt (zero_f R) x ≡ true
      → R.lt (R.signum (R.mul y x)) (zero_f R) ≡ true
      → R.lt y x ≡ true

module _ (R : F64) (W : Type 0) where
  abbrev pub towards : CrossingDirection → ZeroCrossing R W → ZeroCrossing R W
  towards direction e = record e { direction = direction }

  -- The detection, if the value at the start of the step is on the side that is asked for.
  abbrev pub if_from : Bool → Detection R → Detection R
  if_from side d = if side then d else no_detection R W

  -- What a direction that asks for the side `side` computes, from the tests of a step.
  restrict :
      {A : Type 0} (zero side away change beyond : Bool) (hit none_here cross : A)
      → (side ≡ true → away ≡ false)
      → (side ≡ true → change ≡ true → beyond ≡ true)
      → (if zero && side
          then hit
          else if not (change && (beyond && side))
          then none_here
          else cross)
        ≡ (if side
            then if zero && not away then hit else if not (change && true) then none_here else cross
            else none_here)
  restrict zero false away change beyond hit none_here cross nonzero moves = ground arith
  restrict zero true away change beyond hit none_here cross nonzero moves =
      ground (arith, nonzero refl, moves refl)

  from_below :
      (tolerance prev current : R.F)
      → OrderLaws R
      → detect_from R W up tolerance prev current
        ≡ if_from (R.lt prev (zero_f R)) (detect_from R W both tolerance prev current)
  unfolding detect_from exact_hit direction_filter
  from_below tolerance prev current laws =
      restrict (R.eq current (zero_f R)) (R.lt prev (zero_f R)) (R.eq prev (zero_f R))
        (R.lt (R.signum (R.mul current prev)) (zero_f R)) (R.lt prev current) _ _ _
        (laws.below_zero prev) (laws.rises prev current)

  from_above :
      (tolerance prev current : R.F)
      → OrderLaws R
      → detect_from R W down tolerance prev current
        ≡ if_from (R.lt (zero_f R) prev) (detect_from R W both tolerance prev current)
  unfolding detect_from exact_hit direction_filter
  from_above tolerance prev current laws =
      restrict (R.eq current (zero_f R)) (R.lt (zero_f R) prev) (R.eq prev (zero_f R))
        (R.lt (R.signum (R.mul current prev)) (zero_f R)) (R.lt current prev) _ _ _
        (laws.above_zero prev) (laws.falls prev current)

  -- Under the facts of the order of f64, after `buffer` at `t0` a detector for upward crossings
  -- returns at `t` what the one for both directions returns if the value at `t0` is negative, and
  -- nothing is detected if it is not; one for downward crossings does so if the value is positive.
  pub detect-towards :
      (e : ZeroCrossing R W) (t0 t : R.F)
      → OrderLaws R
      → (detect R W (towards up (buffer R W e t0)) t
          ≡ if_from
              (R.lt (e.func_evt t0) (zero_f R))
              (detect R W (towards both (buffer R W e t0)) t))
        × (detect R W (towards down (buffer R W e t0)) t
            ≡ if_from
                (R.lt (zero_f R) (e.func_evt t0))
                (detect R W (towards both (buffer R W e t0)) t))
  unfolding detect buffer
  detect-towards e t0 t laws = (
    from_below e.tolerance (e.func_evt t0) (e.func_evt t) laws,
    from_above e.tolerance (e.func_evt t0) (e.func_evt t) laws,
  )

  -- When the value at `t0` is zero, after `buffer` at `t0` neither a detector for upward nor one for
  -- downward crossings detects anything at `t`; one for both directions still detects a crossing
  -- just when the product of the two values, which may be a zero, has a negative sign.
  pub detect-buffer_zero :
      (e : ZeroCrossing R W) (t0 t : R.F)
      → R.eq (e.func_evt t0) (zero_f R) ≡ true
      → R.lt (e.func_evt t0) (zero_f R) ≡ false
      → R.lt (zero_f R) (e.func_evt t0) ≡ false
      → (detect R W (towards up (buffer R W e t0)) t ≡ no_detection R W)
        × (detect R W (towards down (buffer R W e t0)) t ≡ no_detection R W)
        × ((detect R W (towards both (buffer R W e t0)) t).detected
            ≡ R.lt (R.signum (R.mul (e.func_evt t) (e.func_evt t0))) (zero_f R))
  unfolding detect buffer detect_from exact_hit direction_filter
  detect-buffer_zero e t0 t at_zero not_below not_above =
      (ground (arith, not_below), ground (arith, not_above), ground (arith, at_zero))
