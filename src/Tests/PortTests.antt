-- ===== src/Tests/PortTests.antt =====
-- The theorems about registers and events at small ones.
use fastsim.Common.{
  ◌<◌, ℕ, ◌+◌, ◌≡◌, refl, true, false, not, ◌&&◌, [], ◌∷◌, none, some, length, take, get_or, ltb,
  leb, ◌==◌, if◌then◌else◌, arith,
}
use fastsim.Utils.Register.{Register, get_single, set_single, update_from_array}
use fastsim.Utils.RegisterPorts.{get_single-set_single, get_single-update_from_array}
use fastsim.Events.Schedule.{Schedule, Detection}
use fastsim.Events.Schedule
use fastsim.Events.ScheduleList.{ScheduleList}
use fastsim.Events.ScheduleList
use fastsim.Events.Condition.{Condition}
use fastsim.Events.Ticks.{ticks, tick, is_past, widened, run_all, times-resolve_all, detect_lem}
use fastsim.Events.Ticks
use fastsim.Events.ListTicks.{times-resolve_all_list, detect_total}
use fastsim.Events.ListTicks
use fastsim.Events.ZeroCrossing.{ZeroCrossing, both, up, down, no_detection}
use fastsim.Events.ZeroCrossing
use fastsim.Events.Directions.{towards, detect-towards, detect-buffer_zero}
use fastsim.Utils.AdaptiveBuffer.{AdaptiveBuffer, add}
use fastsim.Utils.BufferShape.{IsShaped, add-IsShaped}
use fastsim.Tests.Parity.{parity, parity_order}

-- One port, and the names of two.
abbrev r : Register parity
r = record { values = true ∷ []; mapping = λ name. some 3 }

get_single-set_single_example :
    get_single parity (set_single parity r 3 true) 2
    ≡ (if 3 == 2 then true else get_single parity r 2)
get_single-set_single_example = get_single-set_single parity r 3 2 true

get_single-update_from_array_example :
    get_single parity (update_from_array parity r (false ∷ true ∷ [])) 1 ≡ (
      if ltb 1 (length (false ∷ true ∷ []))
      then get_or (false ∷ true ∷ []) 1 false
      else get_single parity r 1)
get_single-update_from_array_example = get_single-update_from_array parity r (false ∷ true ∷ []) 1

-- The action switches its event off and counts its runs.
abbrev s : Schedule parity ℕ
s = record {
  func_act = some (λ t st. (false, st.1 + 1));
  tolerance = false;
  t_start = true;
  t_period = true;
  t_end = some true;
  history = (none, false);
  times = [];
  active = true;
}

times-resolve_all_example :
    ((Ticks.resolve_all parity ℕ s (true ∷ false ∷ []) 5).0.times ≡ ticks parity ℕ true true 0 2)
    × ((
      (Ticks.resolve_all parity ℕ s (true ∷ false ∷ []) 5).0.active,
      (Ticks.resolve_all parity ℕ s (true ∷ false ∷ []) 5).1,
    )
        ≡ run_all parity ℕ s.func_act (ticks parity ℕ true true 0 2) (true, 5))
times-resolve_all_example = times-resolve_all parity ℕ s (true ∷ false ∷ []) 5 refl

detect_lem_example :
    ((Schedule.detect parity ℕ s true).1.detected ≡ (
      not (is_past parity ℕ s.t_end (tick parity ℕ s 0))
      && not (
          parity.lt
            (parity.add true (widened parity ℕ s.tolerance true s.t_period))
            (tick parity ℕ s 0))))
    × (Schedule.is_active parity ℕ (Schedule.detect parity ℕ s true).0
        ≡ (not (is_past parity ℕ s.t_end (tick parity ℕ s 0)) && s.active))
detect_lem_example = detect_lem parity ℕ s true

abbrev l : ScheduleList parity ℕ
l = record {
  func_act = none;
  tolerance = false;
  times_evt = false ∷ true ∷ true ∷ [];
  history = (none, false);
  times = [];
  active = true;
}

times-resolve_all_list_example :
    (q : ScheduleList parity ℕ × ℕ) × (ListTicks.resolve_all parity ℕ l (true ∷ true ∷ []) 5
      ≡ some q)
    × (q.0.times ≡ take 2 l.times_evt)
times-resolve_all_list_example =
    times-resolve_all_list parity ℕ l (true ∷ true ∷ []) 5 refl (omega arith)

detect_total_example :
    (q : ScheduleList parity ℕ × Detection parity) × (ScheduleList.detect parity ℕ l true ≡ some q)
    × (ScheduleList.is_active parity ℕ q.0
        ≡ (not (leb (length l.times_evt) (length l.times)) && ScheduleList.is_active parity ℕ l))
detect_total_example = detect_total parity ℕ l true

abbrev c : Condition parity ℕ
c = record {
  func_evt = λ t. t;
  func_act = none;
  tolerance = true;
  history = (none, false);
  times = [];
  active = true;
}

-- Six samples of two channels.
abbrev b : AdaptiveBuffer parity
b = record {
  delay = false;
  times = true ∷ true ∷ true ∷ true ∷ true ∷ false ∷ [];
  values =
      true ∷ true ∷ true ∷ true ∷ true ∷ true ∷ false ∷ false ∷ false ∷ false ∷ false ∷ false ∷ [];
  width = 2;
}

b-IsShaped : IsShaped parity b
b-IsShaped = (10, refl, (8, refl, (6, refl, (4, refl, (2, refl, (0, refl, refl))))))

add-IsShaped_example :
    (b' : AdaptiveBuffer parity) × (add parity b true (true ∷ false ∷ []) ≡ some b')
    × IsShaped parity b'
    × (b'.width ≡ 2)
    × (0 < length b'.times)
add-IsShaped_example = add-IsShaped parity b true (true ∷ false ∷ []) b-IsShaped

-- The value falls from one to zero.
abbrev z : ZeroCrossing parity ℕ
z = record {
  direction = both;
  func_evt = λ t. t;
  func_act = none;
  tolerance = true;
  history = (none, false);
  times = [];
  active = true;
}

detect-towards_example :
    (ZeroCrossing.detect parity ℕ (towards parity ℕ up (ZeroCrossing.buffer parity ℕ z true)) false
      ≡ no_detection parity ℕ)
    × (ZeroCrossing.detect parity ℕ
          (towards parity ℕ down (ZeroCrossing.buffer parity ℕ z true))
          false
        ≡ record { detected = true; close = true; ratio = true })
unfolding ZeroCrossing.detect ZeroCrossing.buffer ZeroCrossing.detect_from ZeroCrossing.exact_hit
detect-towards_example = detect-towards parity ℕ z true false parity_order

detect-buffer_zero_example :
    (ZeroCrossing.detect parity ℕ (towards parity ℕ up (ZeroCrossing.buffer parity ℕ z false)) true
      ≡ no_detection parity ℕ)
    × (ZeroCrossing.detect parity ℕ
          (towards parity ℕ down (ZeroCrossing.buffer parity ℕ z false))
          true
        ≡ no_detection parity ℕ)
    × ((ZeroCrossing.detect parity ℕ
          (towards parity ℕ both (ZeroCrossing.buffer parity ℕ z false))
          true).detected
        ≡ false)
detect-buffer_zero_example = detect-buffer_zero parity ℕ z false true refl refl refl
