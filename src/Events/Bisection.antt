-- ===== src/Events/Bisection.antt =====
-- events/condition.rs: what `Condition` reports in the step from a buffered time, and its end.
use fastsim.Common.{◌≡◌, refl, ◌&&◌, inl, inr, Bool-cases, if◌then◌else◌}
use fastsim.F64.{F64, half_f, one_f}
use fastsim.Events.Condition.{Condition, buffer, detect}

module _ (R : F64) (W : Type 0) where
  -- In the step from the buffered time `t0` to `t` the event is detected just when its condition holds
  -- at `t`; it is close enough just when the step is also below the tolerance, and the step is to be
  -- kept then and halved otherwise.
  detect-buffer :
      (e : Condition R W) (t0 t : R.F)
      → let close = e.func_evt t && R.lt (R.sub t t0) e.tolerance in
        ((detect R W (buffer R W e t0) t).detected ≡ e.func_evt t)
        × ((detect R W (buffer R W e t0) t).close ≡ close)
        × ((detect R W (buffer R W e t0) t).ratio ≡ (if close then one_f R else half_f R))
  unfolding detect buffer
  detect-buffer e t0 t = elim (Bool-cases (e.func_evt t)) [
    | inr unmet ↦ rw unmet (refl, refl, refl)
    | inl met ↦ elim (Bool-cases (R.lt (R.sub t t0) e.tolerance)) [
      | inl near ↦ rw (met, near) (refl, refl, refl)
      | inr far ↦ rw (met, far) (refl, refl, refl)
    ]
  ]
