-- ===== src/Tape/Params.antt =====
-- ssa/tape.rs: `InterpretedFn::set_param_by_name`.
use Prim.Native.String.{String}
use text.Mathlib.Text.{◌==◌ as str_eq}
use fastsim.Common.{
  ℕ, zero, suc, All, ap, ◌<◌, ◌≡◌, refl, ◌+◌, ◌∙◌, Bool, true, false, Bool-cases, inl, inr, List,
  [], ◌∷◌, Option, none, some, length, set, ltb, lt→ltb, if◌then◌else◌, arith,
}
use mathlib.Core.Option
use fastsim.F64.{F64}
use fastsim.Tape.CallInto.{set_param}

-- `iter().position(|n| n == name)`, from index `i`
unfoldable pub position_from : ℕ → List String → String → Option ℕ
position_from i [] name = none
position_from i (n ∷ names) name =
    if str_eq n name then some i else position_from (suc i) names name

unfoldable pub position : List String → String → Option ℕ
unfolding position_from
position names name = position_from 0 names name

-- The first place of a name: the names before it are others; `none`, where all are.
abbrev pub IsFirst : List String → String → Option ℕ → Type 0
IsFirst names name none = All (λ n. str_eq n name ≡ false) names
IsFirst [] name (some i) = zero ≡ suc i
IsFirst (n ∷ names) name (some zero) = str_eq n name ≡ true
IsFirst (n ∷ names) name (some (suc i)) = (str_eq n name ≡ false) × IsFirst names name (some i)

-- The index that the search finds, less the index that it starts from.
position_from-IsFirst :
    (i : ℕ) (names : List String) (name : String)
    → (found : Option ℕ) × IsFirst names name found
      × (position_from i names name ≡ Option.map (λ k. i + k) found)
unfolding position_from
position_from-IsFirst i [] name = (none, tt, refl)
position_from-IsFirst i (n ∷ names) name = elim (Bool-cases (str_eq n name)) [
  | inl e ↦ (some zero, e, rw (e, position_from) (ap some (omega arith)))
  | inr ne ↦ later ne (position_from-IsFirst (suc i) names name)
]
  where
    later :
        str_eq n name ≡ false
        → ((found : Option ℕ) × IsFirst names name found
            × (position_from (suc i) names name ≡ Option.map (λ k. suc i + k) found))
        → (found : Option ℕ) × IsFirst (n ∷ names) name found
          × (position_from i (n ∷ names) name ≡ Option.map (λ k. i + k) found)
    later ne (none, first, e) = (none, (ne, first), rw (ne, position_from) e)
    later ne (some k, first, e) =
        (some (suc k), (ne, first), rw (ne, position_from) (e ∙ ap some (omega arith)))

IsFirst-lt :
    (names : List String) (name : String) (i : ℕ) → IsFirst names name (some i) → i < length names
IsFirst-lt [] name i h = absurd (omega (arith, h))
IsFirst-lt (n ∷ names) name zero h = omega arith
IsFirst-lt (n ∷ names) name (suc i) h = omega (arith, IsFirst-lt names name i h.1)

module _ (R : F64) where
  -- The parameters after the call and what it returns; an index out of range is a panic.
  unfoldable pub set_param_by_name :
      List String → List R.F → String → R.F → Option (List R.F × Bool)
  unfolding position
  set_param_by_name names params name value = elim (position names name) [
    | none ↦ some (params, false)
    | some idx ↦ if ltb idx (length params) then some (set params idx value, true) else none
  ]

  -- When there are as many names as parameters, setting a parameter by its name does not panic. If
  -- the name is in the list, then it does what `set_param` does at the first place of the name and
  -- returns true; else it changes nothing and returns false.
  pub set_param_by_name-set_param :
      (names : List String) (params : List R.F) (name : String) (value : R.F)
      → length names ≡ length params
      → (found : Option ℕ) × IsFirst names name found
        × (set_param_by_name names params name value
            ≡ some (elim found [
              | none ↦ (params, false)
              | some idx ↦ (set_param R params idx value, true)
            ]))
  unfolding set_param_by_name set_param position
  set_param_by_name-set_param names params name value same =
      result (position_from-IsFirst 0 names name)
    where
      result :
          ((found : Option ℕ) × IsFirst names name found
            × (position_from 0 names name ≡ Option.map (λ k. 0 + k) found))
          → (found : Option ℕ) × IsFirst names name found
            × (set_param_by_name names params name value
                ≡ some (elim found [
                  | none ↦ (params, false)
                  | some idx ↦ (set_param R params idx value, true)
                ]))
      result (none, first, e) = (none, first, rw (e, set_param_by_name) refl)
      result (some k, first, e) =
          let at : position_from 0 names name ≡ some k = e ∙ ap some (omega arith) in
          let inside =
            lt→ltb k (length params) (omega (arith, same, IsFirst-lt names name k first)) in
          (some k, first, rw (at, set_param_by_name, inside) refl)
