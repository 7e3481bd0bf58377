-- ===== src/Connection/Transfer.antt =====
-- utils/portreference.rs: the four loops of `to` write the same values.
use fastsim.Common.{
  ℕ, ◌<◌, ◌≡◌, refl, sym, subst, Bool-cases, inl, inr, List, [], ◌∷◌, some, ◌>>=◌, All, All-map,
  length, length-set, get_elem?, set, leb, lt→ltb, get_elem?-get_or, ◌==◌, arith,
}
use fastsim.F64.{F64, zero_f}
use fastsim.Utils.Register.{Register, write, write_all, get_single, get_indices}
use fastsim.Utils.PortReference.{
  Block, read_at, write_at, read_ports, write_zip, copy_zip, transfer_within, transfer_across,
  transfer,
}

-- The indices are in range.
abbrev pub InRange : (R : F64) → Register R → List ℕ → Type 0
InRange R r is = All (λ i. i < length r.values) is

module _ (R : F64) where
  read_at-get_single :
      (r : Register R) (i : ℕ) → i < length r.values → read_at R r i ≡ some (get_single R r i)
  unfolding read_at get_single
  read_at-get_single r i lt = elim (Bool-cases (leb (length r.values) i)) [
    | inl out ↦ absurd (ground arith)
    | inr inside ↦ rw inside (get_elem?-get_or r.values i (zero_f R) lt)
  ]

  write_at-write :
      (r : Register R) (i : ℕ) (v : R.F)
      → i < length r.values
      → write_at R r i v ≡ some (write R r i v)
  unfolding write_at
  write_at-write r i v lt = rw (lt→ltb i (length r.values) lt) refl

  -- A write keeps the size.
  write-InRange :
      (r : Register R) (i : ℕ) (v : R.F) (is : List ℕ)
      → InRange R r is
      → InRange R (write R r i v) is
  unfolding write
  write-InRange r i v is h =
      All-map (λ j lt. subst (λ n. j < n) (sym (length-set r.values i v)) lt) is h

  read_ports-get_indices :
      (r : Register R) (is : List ℕ)
      → InRange R r is
      → read_ports R r is ≡ some (get_indices R r is)
  unfolding read_ports get_indices
  read_ports-get_indices r [] h = refl
  read_ports-get_indices r (i ∷ is) h =
      rw (read_at-get_single r i h.0, read_ports-get_indices r is h.1) refl

  write_zip-write_all :
      (is : List ℕ) (r : Register R) (vs : List R.F)
      → InRange R r is
      → write_zip R r is vs ≡ some (write_all R r is vs)
  unfolding write_zip write_all
  write_zip-write_all [] r vs h = refl
  write_zip-write_all (i ∷ is) r [] h = refl
  write_zip-write_all (i ∷ is) r (v ∷ vs) h =
      rw (write_at-write r i v h.0)
        (write_zip-write_all is (write R r i v) vs (write-InRange r i v is h.1))

  copy_zip-write_all :
      (source : Register R) (ss : List ℕ) (r : Register R) (ds : List ℕ)
      → InRange R source ss
      → InRange R r ds
      → copy_zip R source r ss ds ≡ some (write_all R r ds (get_indices R source ss))
  unfolding copy_zip write_all get_indices
  copy_zip-write_all source [] r [] h k = refl
  copy_zip-write_all source [] r (d ∷ ds) h k = refl
  copy_zip-write_all source (s ∷ ss) r [] h k = refl
  copy_zip-write_all source (s ∷ ss) r (d ∷ ds) h k =
      let v = get_single R source s in
      rw (read_at-get_single source s h.0, write_at-write r d v k.0)
        (copy_zip-write_all source ss (write R r d v) ds h.1 (write-InRange r d v ds k.1))

  -- One port to one port, in place of a loop.
  single-write_all :
      (source r : Register R) (s d : ℕ)
      → s < length source.values
      → d < length r.values
      → (do v ← read_at R source s; write_at R r d v)
        ≡ some (write_all R r (d ∷ []) (get_indices R source (s ∷ [])))
  unfolding write_all get_indices
  single-write_all source r s d lt lt' =
      rw (read_at-get_single source s lt) (write_at-write r d (get_single R source s) lt')

  buffered-write_all :
      (source r : Register R) (ss ds : List ℕ)
      → InRange R source ss
      → InRange R r ds
      → (do vs ← read_ports R source ss; write_zip R r ds vs)
        ≡ some (write_all R r ds (get_indices R source ss))
  buffered-write_all source r ss ds h k =
      rw (read_ports-get_indices source ss h) (write_zip-write_all ds r (get_indices R source ss) k)

  transfer_within-write_all :
      (source r : Register R) (ss ds : List ℕ)
      → InRange R source ss
      → InRange R r ds
      → transfer_within R source r ss ds ≡ some (write_all R r ds (get_indices R source ss))
  unfolding transfer_within
  transfer_within-write_all source r (s ∷ []) (d ∷ []) h k = single-write_all source r s d h.0 k.0
  transfer_within-write_all source r [] ds h k = buffered-write_all source r [] ds h k
  transfer_within-write_all source r (s ∷ []) [] h k = buffered-write_all source r (s ∷ []) [] h k
  transfer_within-write_all source r (s ∷ []) (d ∷ d' ∷ ds) h k =
      buffered-write_all source r (s ∷ []) (d ∷ d' ∷ ds) h k
  transfer_within-write_all source r (s ∷ s' ∷ ss) ds h k =
      buffered-write_all source r (s ∷ s' ∷ ss) ds h k

  transfer_across-write_all :
      (source r : Register R) (ss ds : List ℕ)
      → InRange R source ss
      → InRange R r ds
      → transfer_across R source r ss ds ≡ some (write_all R r ds (get_indices R source ss))
  unfolding transfer_across
  transfer_across-write_all source r (s ∷ []) (d ∷ []) h k = single-write_all source r s d h.0 k.0
  transfer_across-write_all source r [] ds h k = copy_zip-write_all source [] r ds h k
  transfer_across-write_all source r (s ∷ []) [] h k = copy_zip-write_all source (s ∷ []) r [] h k
  transfer_across-write_all source r (s ∷ []) (d ∷ d' ∷ ds) h k =
      copy_zip-write_all source (s ∷ []) r (d ∷ d' ∷ ds) h k
  transfer_across-write_all source r (s ∷ s' ∷ ss) ds h k =
      copy_zip-write_all source (s ∷ s' ∷ ss) r ds h k

  -- Whichever loop runs.
  pub transfer-write_all :
      (blocks : List (Block R)) (src dst : ℕ) (ss ds : List ℕ) (from into : Block R)
      → get_elem? blocks src ≡ some from
      → get_elem? blocks dst ≡ some into
      → InRange R from.outputs ss
      → InRange R into.inputs ds
      → transfer R blocks src dst ss ds
        ≡ some (
            set blocks dst
              (record into { inputs = write_all R into.inputs ds (get_indices R from.outputs ss) }))
  unfolding transfer
  transfer-write_all blocks src dst ss ds from into at at' h k = elim (Bool-cases (src == dst)) [
    | inl same ↦
        rw (at, at', same, transfer_within-write_all from.outputs into.inputs ss ds h k) refl
    | inr other ↦
        rw (at, at', other, transfer_across-write_all from.outputs into.inputs ss ds h k) refl
  ]
