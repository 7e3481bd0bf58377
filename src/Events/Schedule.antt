-- ===== src/Events/Schedule.antt =====
-- events/schedule.rs: `tolerance_at`, `detect_at` and the periodic `Schedule`.
use fastsim.Common.{
  ℕ, Bool, true, false, List, [], ◌∷◌, ◌++◌, Option, none, some, length, ◌==◌, if◌then◌else◌,
}
use fastsim.F64.{F64, zero_f, one_f}
use fastsim.Events.Action.{Action, active_flag, run}

-- What `detect` returns: detected, close enough, and the ratio of the step.
pub record Detection (R : F64) : Type 0 where
  pub detected : Bool
  pub close : Bool
  pub ratio : R.F

pub record Schedule (R : F64) (W : Type 0) : Type 0 where
  pub func_act : Option (Action R.F W)
  pub tolerance : R.F
  pub t_start : R.F
  pub t_period : R.F
  pub t_end : Option R.F
  pub history : Option R.F × R.F
  pub times : List R.F
  pub active : Bool

module _ (R : F64) where
  -- 1e-16, 1e-10 and 0.1
  abbrev pub tolerance_default : R.F
  tolerance_default = R.from_bits 0x3C9CD2B297D889BC

  abbrev drift : R.F
  drift = R.from_bits 0x3DDB7CDFD9D7BDBB

  abbrev tenth : R.F
  tenth = R.from_bits 0x3FB999999999999A

  unfoldable pub tolerance_at : R.F → R.F → R.F → R.F
  tolerance_at tolerance t spacing =
      R.max tolerance (R.min (R.mul drift (R.abs t)) (R.mul tenth spacing))

  unfoldable pub detect_at : R.F → R.F → R.F → R.F → Detection R
  detect_at t_next t history_t tolerance =
      if R.lt (R.add t tolerance) t_next
      then record { detected = false; close = false; ratio = one_f R }
      else if R.le (R.abs (R.sub t_next t)) tolerance
      then record { detected = true; close = true; ratio = one_f R }
      else if R.le t_next history_t
      then record { detected = true; close = true; ratio = zero_f R }
      else record {
        detected = true;
        close = false;
        ratio =
            R.div (R.sub t_next history_t) (R.max (R.abs (R.sub t history_t)) tolerance_default);
      }

module _ (R : F64) (W : Type 0) where
  unfoldable pub new : R.F → Option R.F → R.F → Option (Action R.F W) → R.F → Schedule R W
  unfolding active_flag
  new t_start t_end t_period func_act tolerance = record {
    func_act = func_act;
    tolerance = tolerance;
    t_start = t_start;
    t_period = t_period;
    t_end = t_end;
    history = (none, zero_f R);
    times = [];
    active = active_flag;
  }

  unfoldable pub periodic : R.F → R.F → Schedule R W
  unfolding new
  periodic t_start t_period = new t_start none t_period none (tolerance_default R)

  unfoldable pub count : Schedule R W → ℕ
  count s = length s.times

  unfoldable pub is_empty : Schedule R W → Bool
  is_empty s = length s.times == 0

  unfoldable pub is_active : Schedule R W → Bool
  is_active s = s.active

  unfoldable pub on : Schedule R W → Schedule R W
  on s = record s { active = true }

  unfoldable pub off : Schedule R W → Schedule R W
  off s = record s { active = false }

  unfoldable pub reset : Schedule R W → Schedule R W
  reset s = record s { history = (none, zero_f R); times = []; active = true }

  unfoldable pub next : Schedule R W → R.F
  next s = R.add s.t_start (R.mul (R.of_u64 (length s.times)) s.t_period)

  unfoldable pub estimate : Schedule R W → R.F → R.F
  unfolding next
  estimate s t = R.sub (next s) t

  unfoldable pub buffer : Schedule R W → R.F → Schedule R W
  buffer s t = record s { history = (none, t) }

  -- The next event lies behind the end of the schedule.
  unfoldable pub ended : Schedule R W → Bool
  unfolding next
  ended s = elim s.t_end [ none ↦ false | some t_end ↦ R.lt t_end (next s) ]

  unfoldable pub detect : Schedule R W → R.F → Schedule R W × Detection R
  unfolding next ended off tolerance_at detect_at
  detect s t =
      if ended s
      then (off s, record { detected = false; close = false; ratio = one_f R })
      else (s, detect_at R (next s) t s.history.1 (tolerance_at R s.tolerance t s.t_period))

  -- The time that the caller found does not matter; the world is that of the action.
  unfoldable pub resolve : Schedule R W → R.F → W → Schedule R W × W
  unfolding next run
  resolve s t w =
      let t_evt = next s in
      let (active, w') = run s.func_act t_evt (s.active, w) in
      (record s { times = s.times ++ t_evt ∷ []; active = active }, w')
