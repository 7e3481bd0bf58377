-- ===== src/Utils/RegisterPorts.antt =====
-- utils/register.rs: what a port reads after the operations of `Register`.
use Prim.Native.String.{String}
use fastsim.Common.{
  ℕ, zero, suc, ◌+◌, ◌-◌, ◌≤◌, ◌≡◌, refl, sym, ap, ◌∙◌, Bool, true, false, List, [], ◌∷◌, ◌++◌, inl,
  inr, none, some, Bool-cases, length, length-append, get_or, get_or-set, replicate, drop, ltb, leb,
  ◌==◌, if◌then◌else◌, ltb→le, arith,
}
use fastsim.F64.{F64, zero_f}
use fastsim.Utils.Register.{
  Register, get_single, set_single, get_by_name, set_by_name, resize, reset, update_from_array,
}

module _ {A : Type 0} where
  get_or_out : (xs : List A) (i : ℕ) (d : A) → length xs ≤ i → get_or xs i d ≡ d
  get_or_out [] i d h = refl
  get_or_out (x ∷ xs) zero d h = absurd (omega (arith, h))
  get_or_out (x ∷ xs) (suc i) d h = get_or_out xs i d (omega arith)

  get_or-replicate : (n i : ℕ) (d : A) → get_or (replicate n d) i d ≡ d
  get_or-replicate zero i d = refl
  get_or-replicate (suc n) zero d = refl
  get_or-replicate (suc n) (suc i) d = get_or-replicate n i d

  -- Padding with the default is not seen by a read with the default.
  get_or-pad : (xs : List A) (n i : ℕ) (d : A) → get_or (xs ++ replicate n d) i d ≡ get_or xs i d
  get_or-pad [] n i d = get_or-replicate n i d
  get_or-pad (x ∷ xs) n zero d = refl
  get_or-pad (x ∷ xs) n (suc i) d = get_or-pad xs n i d

  drop_nil : (n : ℕ) → drop {A = A} n [] ≡ []
  drop_nil zero = refl
  drop_nil (suc n) = refl

  -- The new values in front, and the old ones behind them.
  get_or-overwrite :
      (ys xs : List A) (j : ℕ) (d : A)
      → get_or (ys ++ drop (length ys) xs) j d
        ≡ (if ltb j (length ys) then get_or ys j d else get_or xs j d)
  get_or-overwrite [] xs j d = ground arith
  get_or-overwrite (y ∷ ys) [] zero d = ground arith
  get_or-overwrite (y ∷ ys) [] (suc j) d =
      ap (λ l. get_or (ys ++ l) j d) (sym (drop_nil (length ys)))
      ∙ get_or-overwrite ys [] j d
      ∙ ground arith
  get_or-overwrite (y ∷ ys) (x ∷ xs) zero d = ground arith
  get_or-overwrite (y ∷ ys) (x ∷ xs) (suc j) d = get_or-overwrite ys xs j d ∙ ground arith

  length-replicate : (n : ℕ) (d : A) → length (replicate n d) ≡ n
  length-replicate zero d = refl
  length-replicate (suc n) d = ap suc (length-replicate n d)

module _ (R : F64) where
  pub get_single_lem : (r : Register R) (i : ℕ) → get_single R r i ≡ get_or r.values i (zero_f R)
  unfolding get_single
  get_single_lem r i = elim (Bool-cases (leb (length r.values) i)) [
    | inl out ↦ rw out (sym (get_or_out r.values i (zero_f R) ground (arith, out)))
    | inr inside ↦ rw inside refl
  ]

  pub resize_lem :
      (r : Register R) (n i : ℕ)
      → (get_or (resize R r n).values i (zero_f R) ≡ get_or r.values i (zero_f R))
        × (n ≤ length (resize R r n).values)
        × ((resize R r n).mapping ≡ r.mapping)
  unfolding resize
  resize_lem r n i = elim (Bool-cases (ltb (length r.values) n)) [
    | inl short ↦ rw short (
      get_or-pad r.values (n - length r.values) i (zero_f R),
      omega (
        arith,
        length-append r.values (replicate (n - length r.values) (zero_f R)),
        length-replicate {A = R.F} (n - length r.values) (zero_f R),
      ),
      refl,
    )
    | inr long ↦ rw long (refl, ltb→le (length r.values) n long, refl)
  ]

  -- After a port is set it reads the value, and every other port reads what it read before, also the
  -- ports that the register had to grow by.
  pub get_single-set_single :
      (r : Register R) (i j : ℕ) (v : R.F)
      → get_single R (set_single R r i v) j ≡ (if i == j then v else get_single R r j)
  unfolding set_single
  get_single-set_single r i j v =
      let grown = resize_lem r (i + 1) j in
      get_single_lem (set_single R r i v) j
      ∙ get_or-set (resize R r (i + 1)).values i j v (zero_f R) (omega (arith, grown.1))
      ∙ ap (λ x. if i == j then v else x) (grown.0 ∙ sym (get_single_lem r j))

  -- After an array is stored its values are at the first ports, and the ports behind it read what
  -- they read before.
  pub get_single-update_from_array :
      (r : Register R) (arr : List R.F) (j : ℕ)
      → get_single R (update_from_array R r arr) j
        ≡ (if ltb j (length arr) then get_or arr j (zero_f R) else get_single R r j)
  unfolding update_from_array
  get_single-update_from_array r arr j =
      let r' = if ltb (length r.values) (length arr) then resize R r (length arr) else r in
      get_single_lem (update_from_array R r arr) j
      ∙ get_or-overwrite arr r'.values j (zero_f R)
      ∙ ap (λ x. if ltb j (length arr) then get_or arr j (zero_f R) else x)
          (grown (ltb (length r.values) (length arr)) ∙ sym (get_single_lem r j))
    where
      grown :
          (b : Bool)
          → get_or (if b then resize R r (length arr) else r).values j (zero_f R)
            ≡ get_or r.values j (zero_f R)
      grown true = (resize_lem r (length arr) j).0
      grown false = refl

  -- After a reset every port reads zero.
  pub get_single-reset : (r : Register R) (j : ℕ) → get_single R (reset R r) j ≡ zero_f R
  unfolding reset
  get_single-reset r j =
      get_single_lem (reset R r) j ∙ get_or-replicate (length r.values) j (zero_f R)

  get_by_name_lem :
      (r : Register R) (name : String) (i : ℕ)
      → r.mapping name ≡ some i
      → get_by_name R r name ≡ get_single R r i
  unfolding get_by_name
  get_by_name_lem r name i p = ap (λ o. elim o [ some k ↦ get_single R r k | none ↦ zero_f R ]) p

  set_by_name_lem :
      (r : Register R) (name : String) (i : ℕ) (v : R.F)
      → r.mapping name ≡ some i
      → set_by_name R r name v ≡ set_single R r i v
  unfolding set_by_name
  set_by_name_lem r name i v p = ap (λ o. elim o [ some k ↦ set_single R r k v | none ↦ r ]) p

  set_single-mapping : (r : Register R) (i : ℕ) (v : R.F) → (set_single R r i v).mapping ≡ r.mapping
  unfolding set_single
  set_single-mapping r i v = (resize_lem r (i + 1) 0).2

  -- After a mapped name is set it reads the value, and every other mapped name does so too if it
  -- stands for the same port, and else reads what it read before.
  get_by_name-set_by_name :
      (r : Register R) (name other : String) (i j : ℕ) (v : R.F)
      → r.mapping name ≡ some i
      → r.mapping other ≡ some j
      → get_by_name R (set_by_name R r name v) other ≡ (if i == j then v else get_by_name R r other)
  get_by_name-set_by_name r name other i j v p q =
      ap (λ s. get_by_name R s other) (set_by_name_lem r name i v p)
      ∙ get_by_name_lem (set_single R r i v) other j
          (ap (λ m. m other) (set_single-mapping r i v) ∙ q)
      ∙ get_single-set_single r i j v
      ∙ ap (λ x. if i == j then v else x) (sym (get_by_name_lem r other j q))
