-- ===== src/Events/ListTicks.antt =====
-- events/schedule.rs, `ScheduleList`: its events are the listed times, and nothing is read out of range.
use fastsim.Common.{
  ℕ, zero, suc, ◌+◌, ◌≤◌, ◌<◌, ◌≡◌, refl, sym, ap, ◌∙◌, false, not, ◌&&◌, List, [], ◌∷◌, ◌++◌, inl,
  inr, Option, none, some, some-inj, ◌>>=◌, Bool-cases, length, length-push, get_elem?,
  get_elem?-total, take, leb, ltb, lt→ltb, ltb→lt, arith,
}
use fastsim.F64.{F64, one_f, infinity}
use fastsim.Events.Action.{run}
use fastsim.Events.Schedule.{Detection, tolerance_at, detect_at}
use fastsim.Events.ScheduleList.{ScheduleList, resolve, next, spacing, detect, is_active, off}

-- One more element taken.
take_push :
    {A : Type 0} (xs : List A) (n : ℕ) (x : A)
    → get_elem? xs n ≡ some x
    → take n xs ++ x ∷ [] ≡ take (suc n) xs
take_push [] n x e = cc
take_push (y ∷ xs) zero x e = ap (λ z. z ∷ []) (sym (some-inj e))
take_push (y ∷ xs) (suc n) x e = ap (λ l. y ∷ l) (take_push xs n x e)

module _ (R : F64) (W : Type 0) where
  -- The event is resolved once for each time that a caller found.
  unfoldable pub resolve_all : ScheduleList R W → List R.F → W → Option (ScheduleList R W × W)
  resolve_all s [] w = some (s, w)
  resolve_all s (t ∷ found) w = elim (resolve R W s t w) [
    | none ↦ none
    | some r ↦ resolve_all r.0 found r.1
  ]

  next_lem :
      (s : ScheduleList R W)
      → length s.times < length s.times_evt
      → (t : R.F) × (get_elem? s.times_evt (length s.times) ≡ some t) × (next R W s ≡ some t)
  unfolding next
  next_lem s h =
      let (t, e) = get_elem?-total s.times_evt (length s.times) h in
      (t, e, rw (lt→ltb (length s.times) (length s.times_evt) h) e)

  resolved : ScheduleList R W → R.F → W → ScheduleList R W × W
  resolved s t_evt w =
      let st = run s.func_act t_evt (s.active, w) in
      (record s { times = s.times ++ t_evt ∷ []; active = st.0 }, st.1)

  resolve_at :
      (s : ScheduleList R W) (t t_evt : R.F) (w : W)
      → next R W s ≡ some t_evt
      → resolve R W s t w ≡ some (resolved s t_evt w)
  unfolding resolve resolved
  resolve_at s t t_evt w e = ap (λ o. o >>= λ x. some (resolved s x w)) e

  resolve_all_lem :
      (s : ScheduleList R W) (found : List R.F) (w : W)
      → s.times ≡ take (length s.times) s.times_evt
      → length s.times + length found ≤ length s.times_evt
      → (r : ScheduleList R W × W) × (resolve_all s found w ≡ some r)
        × (r.0.times ≡ take (length s.times + length found) s.times_evt)
  unfolding resolve_all resolved
  resolve_all_lem s [] w e h = ((s, w), refl, e ∙ ap (λ n. take n s.times_evt) (omega arith))
  resolve_all_lem s (t ∷ found) w e h =
      let (t_evt, at, found_next) = next_lem s (omega arith) in
      let st = run s.func_act t_evt (s.active, w) in
      let s' = record s { times = s.times ++ t_evt ∷ []; active = st.0 } in
      let grown = length-push s.times t_evt in
      let (r, runs, times) =
        resolve_all_lem s' found st.1
          (ap (λ l. l ++ t_evt ∷ []) e
            ∙ take_push s.times_evt (length s.times) t_evt at
            ∙ ap (λ n. take n s.times_evt) (sym grown))
          (omega (arith, grown)) in
      (
        r,
        ap (λ o. elim o [ none ↦ none | some q ↦ resolve_all q.0 found q.1 ])
              (resolve_at s t t_evt w found_next)
            ∙ runs,
        times ∙ ap (λ n. take n s.times_evt) (omega (arith, grown)),
      )

  -- A list of times that has had no event yet can be resolved once for each of its times; it
  -- has then recorded the first of its times in order, whatever times the callers found.
  pub times-resolve_all_list :
      (s : ScheduleList R W) (found : List R.F) (w : W)
      → s.times ≡ []
      → length found ≤ length s.times_evt
      → (r : ScheduleList R W × W) × (resolve_all s found w ≡ some r)
        × (r.0.times ≡ take (length found) s.times_evt)
  times-resolve_all_list s found w fresh h =
      let none_yet : length s.times ≡ 0 = ap length fresh in
      let (r, runs, times) =
        resolve_all_lem s found w (fresh ∙ sym (ap (λ n. take n s.times_evt) none_yet))
          (omega (arith, none_yet)) in
      (
        r,
        runs,
        times
            ∙ ap (λ n. take (n + length found) s.times_evt) none_yet
            ∙ ap (λ n. take n s.times_evt) (omega arith),
      )

  spacing_total :
      (u : ScheduleList R W)
      → length u.times < length u.times_evt
      → (gap : R.F) × (spacing R W u ≡ some gap)
  unfolding spacing
  spacing_total u h = elim (Bool-cases (ltb (length u.times + 1) (length u.times_evt))) [
    | inr final ↦ (infinity R, rw final refl)
    | inl more ↦
        let (later, e) =
          get_elem?-total u.times_evt (length u.times + 1)
            (ltb→lt (length u.times + 1) (length u.times_evt) more) in
        let (now, e') = get_elem?-total u.times_evt (length u.times) h in
        (R.sub later now, rw (more, e, e') refl)
  ]

  -- `detect` never reads out of range, in any state, and the event is active afterwards just when it
  -- was before and not all its times are recorded.
  pub detect_total :
      (s : ScheduleList R W) (t : R.F)
      → (r : ScheduleList R W × Detection R) × (detect R W s t ≡ some r)
        × (is_active R W r.0 ≡ (not (leb (length s.times_evt) (length s.times)) && is_active R W s))
  unfolding detect is_active off
  detect_total s t = elim (Bool-cases (leb (length s.times_evt) (length s.times))) [
    | inl over ↦ (
      (off R W s, record { detected = false; close = false; ratio = one_f R }),
      rw over refl,
      rw over refl,
    )
    | inr left ↦
        let (t_next, at, found) = next_lem s ground (arith, left) in
        let (gap, e) = spacing_total s ground (arith, left) in
        (
          (s, detect_at R t_next t s.history.1 (tolerance_at R s.tolerance t gap)),
          rw (left, found, e) refl,
          rw left refl,
        )
  ]
