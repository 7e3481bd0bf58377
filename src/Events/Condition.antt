-- ===== src/Events/Condition.antt =====
-- events/condition.rs: `Condition`, an event that ends a wait for a condition on the time.
use fastsim.Common.{
  ℕ, Bool, true, false, ◌&&◌, List, [], ◌∷◌, ◌++◌, Option, none, some, length, ◌==◌, if◌then◌else◌,
}
use fastsim.F64.{F64, zero_f, one_f, half_f}
use fastsim.Events.Action.{Action, active_flag, run}
use fastsim.Events.Schedule.{Detection}

pub record Condition (R : F64) (W : Type 0) : Type 0 where
  pub func_evt : R.F → Bool
  pub func_act : Option (Action R.F W)
  pub tolerance : R.F
  pub history : Option Bool × R.F
  pub times : List R.F
  pub active : Bool

module _ (R : F64) (W : Type 0) where
  unfoldable pub new : (R.F → Bool) → Option (Action R.F W) → R.F → Condition R W
  unfolding active_flag
  new func_evt func_act tolerance = record {
    func_evt = func_evt;
    func_act = func_act;
    tolerance = tolerance;
    history = (none, zero_f R);
    times = [];
    active = active_flag;
  }

  -- with `constants::EVT_TOLERANCE`, 1e-4
  unfoldable pub from_evt : (R.F → Bool) → Condition R W
  unfolding new
  from_evt func_evt = new func_evt none (R.from_bits 0x3F1A36E2EB1C432D)

  unfoldable pub count : Condition R W → ℕ
  count e = length e.times

  unfoldable pub is_empty : Condition R W → Bool
  is_empty e = length e.times == 0

  unfoldable pub is_active : Condition R W → Bool
  is_active e = e.active

  unfoldable pub on : Condition R W → Condition R W
  on e = record e { active = true }

  unfoldable pub off : Condition R W → Condition R W
  off e = record e { active = false }

  unfoldable pub reset : Condition R W → Condition R W
  reset e = record e { history = (none, zero_f R); times = []; active = true }

  unfoldable pub buffer : Condition R W → R.F → Condition R W
  buffer e t = record e { history = (some (e.func_evt t), t) }

  unfoldable pub detect : Condition R W → R.F → Detection R
  detect e t =
      let result = e.func_evt t in
      let close = result && R.lt (R.sub t e.history.1) e.tolerance in
      if close
      then record { detected = true; close = true; ratio = one_f R }
      else record { detected = result; close = false; ratio = half_f R }

  unfoldable pub resolve : Condition R W → R.F → W → Condition R W × W
  unfolding run off
  resolve e t w =
      let (active, w') = run e.func_act t (e.active, w) in
      (off (record e { times = e.times ++ t ∷ []; active = active }), w')
