-- ===== src/Utils/Register.antt =====
-- utils/register.rs: `Register`, the values at the ports of a block.
--
-- The map from names to ports is never changed, and is a function. An index out of range and a step
-- of 0 are panics, `none`.
use Prim.Native.String.{String}
use Prim.Native.Nat.{max}
use fastsim.Common.{
  ℕ, zero, suc, ◌+◌, ◌-◌, Bool, true, false, List, [], ◌∷◌, ◌++◌, map, Option, none, some, ◌>>=◌,
  length, get_or, set, replicate, drop, ltb, leb, ◌==◌, if◌then◌else◌,
}
use fastsim.F64.{F64, zero_f}

pub record Register (R : F64) : Type 0 where
  pub values : List R.F
  pub mapping : String → Option ℕ

-- `size.unwrap_or(1)`
unfoldable pub size_or_one : Option ℕ → ℕ
size_or_one none = 1
size_or_one (some n) = n

-- `mapping.unwrap_or_default()`
unfoldable pub mapping_or_empty : Option (String → Option ℕ) → String → Option ℕ
mapping_or_empty none key = none
mapping_or_empty (some m) key = m key

-- `start..stop` in steps of a positive width, `count` at most.
unfoldable pub steps : ℕ → ℕ → ℕ → ℕ → List ℕ
steps zero start stop step = []
steps (suc count) start stop step =
    let rest = steps count (start + step) stop step in if ltb start stop then start ∷ rest else []

-- `(start..stop).step_by(step)`: a positive step makes at most `stop - start` of them.
unfoldable pub step_indices : ℕ → ℕ → ℕ → Option (List ℕ)
unfolding steps
step_indices start stop step =
    if step == 0 then none else some (steps (stop - start) start stop step)

-- The least size that has every index.
unfoldable pub size_for : List ℕ → ℕ
size_for [] = 0
size_for (i ∷ is) = max (i + 1) (size_for is)

-- The size that has the last index.
unfoldable pub size_for_last : List ℕ → ℕ
size_for_last [] = 0
size_for_last (i ∷ []) = i + 1
size_for_last (i ∷ j ∷ is) = size_for_last (j ∷ is)

module _ (R : F64) where
  unfoldable pub new : Option ℕ → Option (String → Option ℕ) → Register R
  unfolding size_or_one mapping_or_empty
  new size mapping = record {
    values = replicate (size_or_one size) (zero_f R);
    mapping = mapping_or_empty mapping;
  }

  unfoldable pub count : Register R → ℕ
  count r = length r.values

  unfoldable pub is_empty : Register R → Bool
  is_empty r = length r.values == 0

  unfoldable pub get_single : Register R → ℕ → R.F
  get_single r index =
      if leb (length r.values) index then zero_f R else get_or r.values index (zero_f R)

  unfoldable pub get_by_name : Register R → String → R.F
  unfolding get_single
  get_by_name r name = elim (r.mapping name) [ some idx ↦ get_single r idx | none ↦ zero_f R ]

  unfoldable pub get_indices : Register R → List ℕ → List R.F
  get_indices r indices = map (get_single r) indices

  unfoldable pub get_slice : Register R → ℕ → ℕ → ℕ → Option (List R.F)
  unfolding step_indices get_indices
  get_slice r start stop step = do
    indices ← step_indices start stop step
    some (get_indices r indices)

  unfoldable pub resize : Register R → ℕ → Register R
  resize r size =
      if ltb (length r.values) size
      then record r { values = r.values ++ replicate (size - length r.values) (zero_f R) }
      else r

  -- `self._data[idx] = val` for an index in range
  unfoldable pub write : Register R → ℕ → R.F → Register R
  write r index value = record r { values = set r.values index value }

  unfoldable pub set_single : Register R → ℕ → R.F → Register R
  unfolding resize write
  set_single r index value = write (resize r (index + 1)) index value

  unfoldable pub set_by_name : Register R → String → R.F → Register R
  unfolding set_single
  set_by_name r name value = elim (r.mapping name) [ some idx ↦ set_single r idx value | none ↦ r ]

  -- The indices and the values in step, to the end of the shorter.
  unfoldable pub write_all : Register R → List ℕ → List R.F → Register R
  unfolding write
  write_all r (i ∷ is) (v ∷ vs) = write_all (write r i v) is vs
  write_all r is vs = r

  unfoldable pub set_slice : Register R → ℕ → ℕ → ℕ → List R.F → Option (Register R)
  unfolding step_indices size_for_last resize write_all
  set_slice r start stop step vals = do
    indices ← step_indices start stop step
    some (write_all (resize r (size_for_last indices)) indices vals)

  unfoldable pub set_indices : Register R → List ℕ → List R.F → Register R
  unfolding size_for resize write_all
  set_indices r indices vals = write_all (resize r (size_for indices)) indices vals

  unfoldable pub reset : Register R → Register R
  reset r = record r { values = replicate (length r.values) (zero_f R) }

  unfoldable pub to_array : Register R → List R.F
  to_array r = r.values

  -- `self._data[..n].copy_from_slice(arr)`
  unfoldable pub update_from_array : Register R → List R.F → Register R
  unfolding resize
  update_from_array r arr =
      let r' = if ltb (length r.values) (length arr) then resize r (length arr) else r in
      record r' { values = arr ++ drop (length arr) r'.values }

  unfoldable pub update_from_scalar : Register R → R.F → Option (Register R)
  unfolding write
  update_from_scalar r val = if length r.values == 0 then none else some (write r 0 val)

  unfoldable pub contains_str : Register R → String → Bool
  contains_str r key = elim (r.mapping key) [ some idx ↦ true | none ↦ false ]

  unfoldable pub contains_int : Register R → ℕ → Bool
  contains_int r index = true
