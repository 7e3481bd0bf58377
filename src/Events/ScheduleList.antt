-- ===== src/Events/ScheduleList.antt =====
-- events/schedule.rs: `ScheduleList`, an event at each of a list of times.
--
-- The times are sorted by the standard library, whose sort is a parameter of `new`. An index out of
-- range and the last of no times are panics, `none`.
use fastsim.Common.{
  ℕ, ◌+◌, Bool, true, false, List, [], ◌∷◌, ◌++◌, Option, none, some, ◌>>=◌, length, get_elem?, ltb,
  leb, ◌==◌, if◌then◌else◌,
}
use fastsim.F64.{F64, zero_f, one_f, infinity}
use fastsim.Events.Action.{Action, active_flag, run}
use fastsim.Events.Schedule.{Detection, tolerance_at, detect_at, tolerance_default}

pub record ScheduleList (R : F64) (W : Type 0) : Type 0 where
  pub func_act : Option (Action R.F W)
  pub tolerance : R.F
  pub times_evt : List R.F
  pub history : Option R.F × R.F
  pub times : List R.F
  pub active : Bool

-- `last()`
unfoldable pub last : {A : Type 0} → List A → Option A
last [] = none
last (x ∷ []) = some x
last (x ∷ y ∷ xs) = last (y ∷ xs)

module _ (R : F64) (W : Type 0) where
  unfoldable pub new :
      (List R.F → List R.F) → List R.F → Option (Action R.F W) → R.F → ScheduleList R W
  unfolding active_flag
  new sort times_evt func_act tolerance = record {
    func_act = func_act;
    tolerance = tolerance;
    times_evt = sort times_evt;
    history = (none, zero_f R);
    times = [];
    active = active_flag;
  }

  unfoldable pub from_times : (List R.F → List R.F) → List R.F → ScheduleList R W
  unfolding new
  from_times sort times_evt = new sort times_evt none (tolerance_default R)

  unfoldable pub count : ScheduleList R W → ℕ
  count s = length s.times

  unfoldable pub is_empty : ScheduleList R W → Bool
  is_empty s = length s.times == 0

  unfoldable pub is_active : ScheduleList R W → Bool
  is_active s = s.active

  unfoldable pub on : ScheduleList R W → ScheduleList R W
  on s = record s { active = true }

  unfoldable pub off : ScheduleList R W → ScheduleList R W
  off s = record s { active = false }

  unfoldable pub reset : ScheduleList R W → ScheduleList R W
  reset s = record s { history = (none, zero_f R); times = []; active = true }

  unfoldable pub next : ScheduleList R W → Option R.F
  unfolding last
  next s =
      let n = length s.times in
      if ltb n (length s.times_evt) then get_elem? s.times_evt n else last s.times_evt

  unfoldable pub estimate : ScheduleList R W → R.F → Option R.F
  unfolding next
  estimate s t = do t_next ← next s; some (R.sub t_next t)

  unfoldable pub buffer : ScheduleList R W → R.F → ScheduleList R W
  buffer s t = record s { history = (none, t) }

  unfoldable pub spacing : ScheduleList R W → Option R.F
  spacing s =
      let n = length s.times in
      if ltb (n + 1) (length s.times_evt)
      then (do
        later ← get_elem? s.times_evt (n + 1)
        now ← get_elem? s.times_evt n
        some (R.sub later now))
      else some (infinity R)

  unfoldable pub detect : ScheduleList R W → R.F → Option (ScheduleList R W × Detection R)
  unfolding off next spacing tolerance_at detect_at
  detect s t =
      if leb (length s.times_evt) (length s.times)
      then some (off s, record { detected = false; close = false; ratio = one_f R })
      else do
        t_next ← next s
        gap ← spacing s
        some (s, detect_at R t_next t s.history.1 (tolerance_at R s.tolerance t gap))

  unfoldable pub resolve : ScheduleList R W → R.F → W → Option (ScheduleList R W × W)
  unfolding next run
  resolve s t w = do
    t_evt ← next s
    let (active, w') = run s.func_act t_evt (s.active, w)
    some (record s { times = s.times ++ t_evt ∷ []; active = active }, w')
