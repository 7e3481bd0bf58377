-- ===== src/Events/Ticks.antt =====
-- events/schedule.rs, events/condition.rs: the times at which events are resolved, and what `detect`
-- finds.
use mathlib.Core.List.{append_assoc, append-nil}
use fastsim.Common.{
  ℕ, zero, suc, ◌≡◌, refl, sym, ap, ◌∙◌, Bool, not, ◌&&◌, List, [], ◌∷◌, ◌++◌, inl, inr, Option,
  some, none, false, Option-cases, Bool-cases, length, length-push,
}
use fastsim.F64.{F64}
use fastsim.Events.Action.{Action, run}
use fastsim.Events.Schedule.{
  Schedule, resolve, next, detect, ended, is_active, tolerance_at, detect_at,
}

module _ (R : F64) (W : Type 0) where
  -- The ticks `i`, `i + 1`, … of a period.
  abbrev pub ticks : R.F → R.F → ℕ → ℕ → List R.F
  ticks t_start t_period i zero = []
  ticks t_start t_period i (suc count) =
      R.add t_start (R.mul (R.of_u64 i) t_period) ∷ ticks t_start t_period (suc i) count

  -- The action at one time after the other.
  abbrev pub run_all : Option (Action R.F W) → List R.F → Bool × W → Bool × W
  run_all act [] st = st
  run_all act (t ∷ ts) st = run_all act ts (run act t st)

  -- The event is resolved once for each time that a caller found.
  unfoldable pub resolve_all : Schedule R W → List R.F → W → Schedule R W × W
  resolve_all s [] w = (s, w)
  resolve_all s (t ∷ ts) w = let r = resolve R W s t w in resolve_all r.0 ts r.1

  resolve_all_lem :
      (s : Schedule R W) (found : List R.F) (w : W)
      → ((resolve_all s found w).0.times
          ≡ s.times ++ ticks s.t_start s.t_period (length s.times) (length found))
        × (((resolve_all s found w).0.active, (resolve_all s found w).1)
            ≡ run_all s.func_act
                (ticks s.t_start s.t_period (length s.times) (length found))
                (s.active, w))
  unfolding resolve_all resolve next
  resolve_all_lem s [] w = (sym (append-nil s.times), refl)
  resolve_all_lem s (t ∷ found) w =
      let r = resolve R W s t w in
      let (times, world) = resolve_all_lem r.0 found r.1 in
      let pushed = length-push s.times (next R W s) in
      (
        times
            ∙ ap (λ n. (s.times ++ next R W s ∷ []) ++ ticks s.t_start s.t_period n (length found))
                pushed
            ∙ append_assoc s.times (next R W s ∷ [])
                (ticks s.t_start s.t_period (suc (length s.times)) (length found)),
        world
            ∙ ap
                (λ n.
                  run_all s.func_act (ticks s.t_start s.t_period n (length found))
                    (run s.func_act (next R W s) (s.active, w)))
                pushed,
      )

  -- A schedule that has had no event yet, resolved a number of times, has recorded the ticks from its
  -- start in steps of its period, whatever times the callers found, and its action has run at just
  -- these times, in order.
  pub times-resolve_all :
      (s : Schedule R W) (found : List R.F) (w : W)
      → s.times ≡ []
      → ((resolve_all s found w).0.times ≡ ticks s.t_start s.t_period 0 (length found))
        × (((resolve_all s found w).0.active, (resolve_all s found w).1)
            ≡ run_all s.func_act (ticks s.t_start s.t_period 0 (length found)) (s.active, w))
  times-resolve_all s found w fresh =
      let at = λ (l : List R.F). l ++ ticks s.t_start s.t_period (length l) (length found) in
      let acts = λ (l : List R.F).
        run_all s.func_act (ticks s.t_start s.t_period (length l) (length found)) (s.active, w) in
      ((resolve_all_lem s found w).0 ∙ ap at fresh, (resolve_all_lem s found w).1 ∙ ap acts fresh)

  in_time :
      (t history_t t_next tol : R.F)
      → (detect_at R t_next t history_t tol).detected ≡ not (R.lt (R.add t tol) t_next)
  unfolding detect_at
  in_time t history_t t_next tol = elim (Bool-cases (R.lt (R.add t tol) t_next)) [
    | inl late ↦ rw late refl
    | inr due ↦ elim (Bool-cases (R.le (R.abs (R.sub t_next t)) tol)) [
      | inl near ↦ rw (due, near) refl
      | inr far ↦ elim (Bool-cases (R.le t_next history_t)) [
        | inl passed ↦ rw (due, far, passed) refl
        | inr inside ↦ rw (due, far, inside) refl
      ]
    ]
  ]

  -- The tick `i` of a period, and the end that a schedule may have.
  abbrev pub tick : Schedule R W → ℕ → R.F
  tick s i = R.add s.t_start (R.mul (R.of_u64 i) s.t_period)

  abbrev pub is_past : Option R.F → R.F → Bool
  is_past none t = false
  is_past (some t_end) t = R.lt t_end t

  -- The larger of the tolerance and the smaller of 1e-10 of the time and a tenth of the period.
  abbrev pub widened : R.F → R.F → R.F → R.F
  widened tolerance t t_period = R.max tolerance (
      R.min (R.mul (R.from_bits 0x3DDB7CDFD9D7BDBB) (R.abs t))
        (R.mul (R.from_bits 0x3FB999999999999A) t_period))

  ended-is_past : (s : Schedule R W) → ended R W s ≡ is_past s.t_end (tick s (length s.times))
  unfolding ended next
  ended-is_past s = elim (Option-cases s.t_end) [
    | inl endless ↦ rw endless refl
    | inr (t_end, closed) ↦ rw closed refl
  ]

  -- With `n` events recorded, a schedule detects an event just when the tick `n` is not past its end
  -- and the time plus the widened tolerance is not less than that tick; it is active afterwards just
  -- when that tick is not past its end and it was active before.
  pub detect_lem :
      (s : Schedule R W) (t : R.F)
      → ((detect R W s t).1.detected ≡ (
          not (is_past s.t_end (tick s (length s.times)))
          && not (R.lt (R.add t (widened s.tolerance t s.t_period)) (tick s (length s.times)))))
        × (is_active R W (detect R W s t).0
            ≡ (not (is_past s.t_end (tick s (length s.times))) && s.active))
  unfolding detect is_active tolerance_at next
  detect_lem s t = elim (Bool-cases (ended R W s)) [
    | inl over ↦ rw (over, sym (ended-is_past s) ∙ over) (refl, refl)
    | inr running ↦
        rw (running, sym (ended-is_past s) ∙ running)
          (in_time t s.history.1 (tick s (length s.times)) (widened s.tolerance t s.t_period), refl)
  ]
