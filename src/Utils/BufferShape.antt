-- ===== src/Utils/BufferShape.antt =====
-- utils/adaptivebuffer.rs: the values are those of the samples, and adding a sample keeps that.
use fastsim.Common.{
  ℕ, zero, suc, ◌+◌, ◌<◌, ◌≡◌, refl, sym, ap, subst, ◌∙◌, Bool, true, false, List, [], ◌∷◌, ◌++◌,
  inl, inr, ◌>>=◌, some, none, Option, ◌⊎◌, get_elem?-total, ltb→lt, Bool-cases, length,
  length-push, length-append, drop, ltb, ◌==◌, ==_iff, arith,
}
use fastsim.F64.{F64}
use fastsim.Utils.AdaptiveBuffer.{
  AdaptiveBuffer, add, restart, trim, drain, stale, delay_buffer_safety, new, clear,
}

length-drop : {A : Type 0} (n k : ℕ) (xs : List A) → length xs ≡ n + k → length (drop n xs) ≡ k
length-drop zero k xs h = h ∙ omega arith
length-drop (suc n) k [] h = absurd (omega (arith, h))
length-drop (suc n) k (x ∷ xs) h = length-drop n k xs (omega arith)

-- As many values as `n` samples of the width have.
abbrev pub Holds : ℕ → ℕ → ℕ → Type 0
Holds zero width len = len ≡ 0
Holds (suc n) width len = (rest : ℕ) × (len ≡ width + rest) × Holds n width rest

Holds-push : (n width k m : ℕ) → Holds n width k → m ≡ width → Holds (suc n) width (k + m)
Holds-push zero width k m h e = (0, omega arith, refl)
Holds-push (suc n) width k m (rest, p, h) e = (rest + m, omega arith, Holds-push n width rest m h e)

drain_lem :
    {A : Type 0} (width rest : ℕ) (xs : List A)
    → length xs ≡ width + rest
    → drain width xs ≡ some (drop width xs)
unfolding drain
drain_lem width rest xs h = elim (Bool-cases (ltb (length xs) width)) [
  | inl short ↦ absurd ground (arith, short, h)
  | inr enough ↦ rw enough refl
]

module _ (R : F64) where
  -- The guard is strong enough for the read.
  stale-cases :
      (delay t : R.F) (times : List R.F)
      → (stale R delay t times ≡ some true) ⊎ (stale R delay t times ≡ some false)
  unfolding stale
  stale-cases delay t times = elim (Bool-cases (ltb delay_buffer_safety (length times))) [
    | inr few ↦ rw few (inr refl)
    | inl many ↦
        let (kept, at) =
          get_elem?-total times delay_buffer_safety
            (ltb→lt delay_buffer_safety (length times) many) in
        elim (Bool-cases (R.lt delay (R.sub t kept))) [
          | inl old ↦ rw (many, at) (inl (ap some old))
          | inr fresh ↦ rw (many, at) (inr (ap some fresh))
        ]
  ]

  only_one : (delay t x : R.F) → stale R delay t (x ∷ []) ≡ some false
  unfolding stale
  only_one delay t x = refl

  -- The values are those of the samples, `width` for each.
  abbrev pub IsShaped : AdaptiveBuffer R → Type 0
  IsShaped b = Holds (length b.times) b.width (length b.values)

  trim_if :
      (delay t : R.F) (width : ℕ) (x : R.F) (xs values : List R.F) {b : Bool}
      → stale R delay t (x ∷ xs) ≡ some b
      → trim R delay t width (x ∷ xs) values ≡ (elim b [
        | true ↦ drain width values >>= λ rest. trim R delay t width xs rest
        | false ↦ some (x ∷ xs, values)
      ])
  unfolding trim
  trim_if delay t width x xs values e =
      ap
        (λ (o : Option Bool). elim o [
          | none ↦ none
          | some true ↦ drain width values >>= λ rest. trim R delay t width xs rest
          | some false ↦ some (x ∷ xs, values)
        ])
        e

  -- Dropping old samples does not panic, keeps the newest one, and keeps the shape.
  trim_lem :
      (delay t : R.F) (width : ℕ) (x : R.F) (times values : List R.F)
      → Holds (suc (length times)) width (length values)
      → (y : R.F) × (times' values' : List R.F) × (trim R delay t width (x ∷ times) values
          ≡ some (y ∷ times', values'))
        × Holds (suc (length times')) width (length values')
  unfolding trim
  trim_lem delay t width x [] values h =
      (x, [], values, trim_if delay t width x [] values (only_one delay t x), h)
  trim_lem delay t width x (x2 ∷ times) values (rest, p, h) =
      elim (stale-cases delay t (x ∷ x2 ∷ times)) [
        | inr keep ↦
            (x, x2 ∷ times, values, trim_if delay t width x (x2 ∷ times) values keep, (rest, p, h))
        | inl old ↦
            let (y, times', values', runs, shaped) =
              trim_lem delay t width x2 times (drop width values) (
                subst (Holds (suc (length times)) width) (sym (length-drop width rest values p))
                  h) in
            (
              y,
              times',
              values',
              trim_if delay t width x (x2 ∷ times) values old
                  ∙ ap (λ o. o >>= λ r. trim R delay t width (x2 ∷ times) r)
                      (drain_lem width rest values p)
                  ∙ runs,
              shaped,
            )
      ]

  cons_push : (xs : List R.F) (t : R.F) → (x : R.F) × (ys : List R.F) × (xs ++ t ∷ [] ≡ x ∷ ys)
  cons_push [] t = (t, [], refl)
  cons_push (x ∷ xs) t = (x, xs ++ t ∷ [], refl)

  restart_lem :
      (b : AdaptiveBuffer R) (n : ℕ)
      → IsShaped b
      → ((restart R b n).width ≡ n) × IsShaped (restart R b n)
  unfolding restart clear
  restart_lem b n h = elim (Bool-cases (n == b.width)) [
    | inl same ↦ rw same (sym ((==_iff n b.width).0 same), h)
    | inr other ↦ rw other (refl, refl)
  ]

  new_lem : (delay : R.F) → IsShaped (new R delay)
  unfolding new
  new_lem delay = refl

  add_step :
      (b : AdaptiveBuffer R) (t : R.F) (value : List R.F)
      → IsShaped b
      → b.width ≡ length value
      → (y : R.F) × (times' values' : List R.F) × (trim R b.delay t b.width
            (b.times ++ t ∷ [])
            (b.values ++ value)
          ≡ some (y ∷ times', values'))
        × Holds (suc (length times')) b.width (length values')
  add_step b t value h w =
      let (x, ys, e) = cons_push b.times t in
      let sizes : suc (length b.times) ≡ suc (length ys) =
        sym (length-push b.times t) ∙ ap length e in
      let (y, times', values', runs, shaped) = trim_lem b.delay t b.width x ys (b.values ++ value) (
        subst (λ n. Holds n b.width (length (b.values ++ value))) sizes
          (subst (Holds (suc (length b.times)) b.width) (sym (length-append b.values value))
            (Holds-push (length b.times) b.width (length b.values) (length value) h (sym w)))) in
      (
        y,
        times',
        values',
        ap (λ l. trim R b.delay t b.width l (b.values ++ value)) e ∙ runs,
        shaped,
      )

  -- Adding a sample to a history whose values are those of its samples does not panic, neither in
  -- reading the time that decides whether the first sample is dropped nor in dropping it, and leaves
  -- such a history, of the width of the sample, with one sample at least.
  pub add-IsShaped :
      (b : AdaptiveBuffer R) (t : R.F) (value : List R.F)
      → IsShaped b
      → (b' : AdaptiveBuffer R) × (add R b t value ≡ some b')
        × IsShaped b'
        × (b'.width ≡ length value)
        × (0 < length b'.times)
  unfolding add
  add-IsShaped b t value h =
      let b1 = restart R b (length value) in
      let (w, shaped) = restart_lem b (length value) h in
      let (y, times', values', runs, kept) = add_step b1 t value shaped w in
      (
        record b1 { times = y ∷ times'; values = values' },
        ap (λ o. o >>= λ k. some (record b1 { times = k.0; values = k.1 })) runs,
        kept,
        w,
        omega arith,
      )
