-- ===== src/Utils/AdaptiveBuffer.antt =====
-- utils/adaptivebuffer.rs: `AdaptiveBuffer`, the rolling history of a signal.
--
-- An index out of range, a drain of more values than there are, and `i - 1` at 0 are panics, `none`.
-- `partition_point` is the length of the prefix below the target, which the standard library
-- finds by bisection in a sorted history.
use fastsim.Common.{
  ℕ, zero, suc, ◌+◌, ◌-◌, ◌*◌, Bool, true, false, List, [], ◌∷◌, ◌++◌, Option, none, some, ◌>>=◌,
  length, get_elem?, drop, ltb, ◌==◌, if◌then◌else◌,
}
use fastsim.F64.{F64, zero_f}
use fastsim.Utils.Register.{Register, set_single, update_from_array}

pub record AdaptiveBuffer (R : F64) : Type 0 where
  pub delay : R.F
  pub times : List R.F
  pub values : List R.F
  pub width : ℕ

-- `constants::DELAY_BUFFER_SAFETY`
abbrev pub delay_buffer_safety : ℕ
delay_buffer_safety = 5

-- `drain(..width)`
unfoldable pub drain : {A : Type 0} → ℕ → List A → Option (List A)
drain n xs = if ltb (length xs) n then none else some (drop n xs)

module _ (R : F64) where
  unfoldable pub new : R.F → AdaptiveBuffer R
  new delay = record { delay = delay; times = []; values = []; width = 0 }

  unfoldable pub clear : AdaptiveBuffer R → AdaptiveBuffer R
  clear b = record b { times = []; values = [] }

  -- A sample of another width restarts the history.
  unfoldable pub restart : AdaptiveBuffer R → ℕ → AdaptiveBuffer R
  unfolding clear
  restart b n = if n == b.width then b else record (clear b) { width = n }

  -- The first sample is older than it needs to be.
  unfoldable pub stale : R.F → R.F → List R.F → Option Bool
  stale delay t times =
      if ltb delay_buffer_safety (length times)
      then (do kept ← get_elem? times delay_buffer_safety; some (R.lt delay (R.sub t kept)))
      else some false

  -- The loop that drops old samples.
  unfoldable pub trim : R.F → R.F → ℕ → List R.F → List R.F → Option (List R.F × List R.F)
  unfolding stale
  trim delay t width [] values = some ([], values)
  trim delay t width (x ∷ xs) values = elim (stale delay t (x ∷ xs)) [
    | none ↦ none
    | some true ↦ drain width values >>= λ rest. trim delay t width xs rest
    | some false ↦ some (x ∷ xs, values)
  ]

  unfoldable pub add : AdaptiveBuffer R → R.F → List R.F → Option (AdaptiveBuffer R)
  unfolding restart trim
  add b t value =
      let b' = restart b (length value) in
      do
        kept ← trim b'.delay t b'.width (b'.times ++ t ∷ []) (b'.values ++ value)
        some (record b' { times = kept.0; values = kept.1 })

  unfoldable pub partition_point : R.F → List R.F → ℕ
  partition_point target [] = 0
  partition_point target (x ∷ xs) =
      let rest = partition_point target xs in if R.lt x target then suc rest else 0

  -- `for c in 0..w { out.set_single(c, …) }`, from `c` with `count` rounds left.
  unfoldable pub copy_channels : (ℕ → Option R.F) → ℕ → ℕ → Register R → Option (Register R)
  copy_channels value zero c out = some out
  copy_channels value (suc count) c out =
      value c >>= λ v. copy_channels value count (suc c) (set_single R out c v)

  -- The channel `c` between the samples `i - 1` and `i`.
  unfoldable pub interpolate : AdaptiveBuffer R → R.F → ℕ → ℕ → Option R.F
  interpolate b frac i c = do
    v0 ← get_elem? b.values ((i - 1) * b.width + c)
    v1 ← get_elem? b.values (i * b.width + c)
    some (R.add v0 (R.mul frac (R.sub v1 v0)))

  unfoldable pub between : AdaptiveBuffer R → R.F → ℕ → Register R → Option (Register R)
  unfolding interpolate copy_channels
  between b target zero out = none
  between b target (suc i) out = do
    t0 ← get_elem? b.times i
    t1 ← get_elem? b.times (suc i)
    copy_channels (interpolate b (R.div (R.sub target t0) (R.sub t1 t0)) (suc i)) b.width 0 out

  -- Behind the first sample: at the last one or after it, or between two.
  unfoldable pub after : AdaptiveBuffer R → R.F → Register R → Option R.F → Option (Register R)
  unfolding partition_point copy_channels between
  after b target out none = none
  after b target out (some last) =
      if R.le last target
      then copy_channels (λ c. get_elem? b.values ((length b.times - 1) * b.width + c)) b.width 0
          out
      else between b target (partition_point target b.times) out

  unfoldable pub get : AdaptiveBuffer R → R.F → Register R → Option (Register R)
  unfolding after
  get b t out =
      let target = R.sub t b.delay in
      let n = length b.times in
      elim b.times [
        | [] ↦ some (update_from_array R out (zero_f R ∷ []))
        | x ∷ xs ↦
            if R.le target x
            then some (update_from_array R out (zero_f R ∷ []))
            else after b target out (get_elem? b.times (n - 1))
      ]
