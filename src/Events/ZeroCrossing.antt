-- ===== src/Events/ZeroCrossing.antt =====
-- events/zerocrossing.rs: `ZeroCrossing`, an event at a zero of a function of the time.
use fastsim.Common.{
  ℕ, Bool, true, false, not, ◌&&◌, List, [], ◌∷◌, ◌++◌, Option, none, some, length, ◌==◌,
  if◌then◌else◌,
}
use fastsim.F64.{F64, zero_f, one_f}
use fastsim.Events.Action.{Action, active_flag, run}
use fastsim.Events.Schedule.{Detection}

pub data CrossingDirection : Type 0 where
  both : CrossingDirection
  up : CrossingDirection
  down : CrossingDirection

pub record ZeroCrossing (R : F64) (W : Type 0) : Type 0 where
  pub direction : CrossingDirection
  pub func_evt : R.F → R.F
  pub func_act : Option (Action R.F W)
  pub tolerance : R.F
  pub history : Option R.F × R.F
  pub times : List R.F
  pub active : Bool

module _ (R : F64) (W : Type 0) where
  unfoldable pub with_direction :
      CrossingDirection → (R.F → R.F) → Option (Action R.F W) → R.F → ZeroCrossing R W
  unfolding active_flag
  with_direction direction func_evt func_act tolerance = record {
    direction = direction;
    func_evt = func_evt;
    func_act = func_act;
    tolerance = tolerance;
    history = (none, zero_f R);
    times = [];
    active = active_flag;
  }

  unfoldable pub new : (R.F → R.F) → Option (Action R.F W) → R.F → ZeroCrossing R W
  unfolding active_flag
  new func_evt func_act tolerance = record {
    direction = both;
    func_evt = func_evt;
    func_act = func_act;
    tolerance = tolerance;
    history = (none, zero_f R);
    times = [];
    active = active_flag;
  }

  -- with `constants::EVT_TOLERANCE`, 1e-4
  unfoldable pub from_evt : (R.F → R.F) → ZeroCrossing R W
  unfolding new
  from_evt func_evt = new func_evt none (R.from_bits 0x3F1A36E2EB1C432D)

  unfoldable pub new_up : (R.F → R.F) → Option (Action R.F W) → R.F → ZeroCrossing R W
  unfolding with_direction
  new_up func_evt func_act tolerance = with_direction up func_evt func_act tolerance

  unfoldable pub new_down : (R.F → R.F) → Option (Action R.F W) → R.F → ZeroCrossing R W
  unfolding with_direction
  new_down func_evt func_act tolerance = with_direction down func_evt func_act tolerance

  unfoldable pub count : ZeroCrossing R W → ℕ
  count e = length e.times

  unfoldable pub is_empty : ZeroCrossing R W → Bool
  is_empty e = length e.times == 0

  unfoldable pub is_active : ZeroCrossing R W → Bool
  is_active e = e.active

  unfoldable pub on : ZeroCrossing R W → ZeroCrossing R W
  on e = record e { active = true }

  unfoldable pub off : ZeroCrossing R W → ZeroCrossing R W
  off e = record e { active = false }

  unfoldable pub reset : ZeroCrossing R W → ZeroCrossing R W
  reset e = record e { history = (none, zero_f R); times = []; active = true }

  unfoldable pub buffer : ZeroCrossing R W → R.F → ZeroCrossing R W
  buffer e t = record e { history = (some (e.func_evt t), t) }

  -- The value is zero and, by the direction, the one before was not or was on the other side.
  unfoldable pub exact_hit : CrossingDirection → R.F → R.F → Bool
  exact_hit both prev current = R.eq current (zero_f R) && not (R.eq prev (zero_f R))
  exact_hit up prev current = R.eq current (zero_f R) && R.lt prev (zero_f R)
  exact_hit down prev current = R.eq current (zero_f R) && R.lt (zero_f R) prev

  unfoldable pub direction_filter : CrossingDirection → R.F → R.F → Bool
  direction_filter both prev current = true
  direction_filter up prev current = R.lt prev current && R.lt prev (zero_f R)
  direction_filter down prev current = R.lt current prev && R.lt (zero_f R) prev

  abbrev pub no_detection : Detection R
  no_detection = record { detected = false; close = false; ratio = one_f R }

  -- with `TOLERANCE`, 1e-16
  unfoldable pub detect_from : CrossingDirection → R.F → R.F → R.F → Detection R
  unfolding exact_hit direction_filter
  detect_from direction tolerance prev current =
      if exact_hit direction prev current
      then record { detected = true; close = true; ratio = one_f R }
      else let close = R.le (R.abs current) tolerance in
        let sign_change = R.lt (R.signum (R.mul current prev)) (zero_f R) in
        let is_event = sign_change && direction_filter direction prev current in
        if not is_event then no_detection else record {
          detected = true;
          close = close;
          ratio =
              R.div (R.abs prev)
                (R.max (R.abs (R.sub prev current)) (R.from_bits 0x3C9CD2B297D889BC));
        }

  unfoldable pub detect : ZeroCrossing R W → R.F → Detection R
  unfolding detect_from
  detect e t = elim e.history.0 [
    | none ↦ no_detection
    | some prev ↦ detect_from e.direction e.tolerance prev (e.func_evt t)
  ]

  unfoldable pub resolve : ZeroCrossing R W → R.F → W → ZeroCrossing R W × W
  unfolding run
  resolve e t w =
      let (active, w') = run e.func_act t (e.active, w) in
      (record e { times = e.times ++ t ∷ []; active = active }, w')

  unfoldable pub estimate : ZeroCrossing R W → R.F → Option R.F
  estimate e t = none
