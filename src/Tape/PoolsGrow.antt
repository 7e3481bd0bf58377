-- ===== src/Tape/PoolsGrow.antt =====
-- ssa/tape.rs: `Tape::from_graph` only adds to its pools, and what `check_inputs` has checked.
use mathlib.Core.List.{append_assoc, append-nil, map}
use Prim.Native.Nat.{max}
use fastsim.Common.{
  ℕ, zero, suc, ◌+◌, ◌-◌, ◌≤◌, ◌<◌, ◌≡◌, refl, sym, ap, subst, ◌∙◌, true, inl, inr, List, [], ◌∷◌,
  ◌++◌, some, some-inj, none≢some, Bool-cases, length, get_elem?, get_or, set, replicate, leb, ◌==◌,
  arith,
}
use fastsim.F64.{F64}
use fastsim.Graph.Node.{Node}
use fastsim.Graph.Signature.{InputSignature, decode, usize_max}
use fastsim.Tape.Build.{TapeOp, Pools, note_input, emit_input, emit, grow, slot_in}
use fastsim.Tape.Eval.{check_lens, slot_length}

abbrev pub Extends : {A : Type 0} → List A → List A → Type 0
Extends {A} xs ys = (k : List A) × (ys ≡ xs ++ k)

Extends-refl : {A : Type 0} (xs : List A) → Extends xs xs
Extends-refl xs = ([], sym (append-nil xs))

pub Extends-trans : {A : Type 0} (xs ys zs : List A) → Extends xs ys → Extends ys zs → Extends xs zs
Extends-trans xs ys zs (h, e) (k, e') = (h ++ k, e' ∙ ap (λ l. l ++ k) e ∙ append_assoc xs h k)

-- A write that keeps the larger value lowers no entry.
set_max : (xs : List ℕ) (i v k : ℕ) → get_or xs k 0 ≤ get_or (set xs i (max (get_or xs i 0) v)) k 0
set_max [] i v k = omega arith
set_max (x ∷ xs) zero v zero = omega arith
set_max (x ∷ xs) zero v (suc k) = omega arith
set_max (x ∷ xs) (suc i) v zero = omega arith
set_max (x ∷ xs) (suc i) v (suc k) = set_max xs i v k

set_max_self :
    (xs : List ℕ) (i v : ℕ) → i < length xs → v ≤ get_or (set xs i (max (get_or xs i 0) v)) i 0
set_max_self [] i v h = elim h [ ]
set_max_self (x ∷ xs) zero v h = omega arith
set_max_self (x ∷ xs) (suc i) v h = set_max_self xs i v (omega arith)

get_or-zeros : (xs : List ℕ) (n k : ℕ) → get_or (xs ++ replicate n 0) k 0 ≡ get_or xs k 0
get_or-zeros [] zero k = refl
get_or-zeros [] (suc n) zero = refl
get_or-zeros [] (suc n) (suc k) = get_or-zeros [] n k
get_or-zeros (x ∷ xs) n zero = refl
get_or-zeros (x ∷ xs) n (suc k) = get_or-zeros xs n k

length-zeros : (xs : List ℕ) (n : ℕ) → length (xs ++ replicate n 0) ≡ length xs + n
length-zeros [] zero = refl
length-zeros [] (suc n) = omega (arith, length-zeros [] n)
length-zeros (x ∷ xs) n = omega (arith, length-zeros xs n)

module _ (R : F64) where
  -- Noting a read keeps every bound, and puts the bound of the slot above the element.
  pub note_input_lem :
      (lens : List ℕ) (slot elem k : ℕ)
      → (get_or lens k 0 ≤ get_or (note_input R lens slot elem) k 0)
        × (elem + 1 ≤ get_or (note_input R lens slot elem) slot 0)
  unfolding note_input
  note_input_lem lens slot elem k = elim (Bool-cases (leb (length lens) slot)) [
    | inl short ↦
        let grown = grow lens (slot + 1) in
        rw short (
          omega (
            arith,
            get_or-zeros lens (slot + 1 - length lens) k,
            set_max grown slot (elem + 1) k,
          ),
          set_max_self grown slot (elem + 1) ground
              (arith, length-zeros lens (slot + 1 - length lens), short),
        )
    | inr long ↦
        rw long
          (set_max lens slot (elem + 1) k, set_max_self lens slot (elem + 1) ground (arith, long))
  ]

  -- What the list of bounds says is what the check has found.
  pub check_lens_sound :
      (inputs : List (List R.F)) (start : ℕ) (needs : List ℕ) (k : ℕ)
      → check_lens R inputs start needs ≡ true
      → get_or needs k 0 ≤ slot_length R (get_elem? inputs (start + k))
  unfolding check_lens
  check_lens_sound inputs start [] k h = omega arith
  check_lens_sound inputs start (need ∷ needs) zero h =
      let same : start + 0 ≡ start = omega arith in rw same ground (arith, h)
  check_lens_sound inputs start (need ∷ needs) (suc k) h =
      let there : start + suc k ≡ suc start + k = omega arith in
      rw there (check_lens_sound inputs (suc start) needs k ground (arith, h))

  -- The pools `q` extend the pools `p`.
  pub record Grows (p q : Pools R) : Type 0 where
    pub consts : Extends p.consts q.consts
    pub arg_pool : Extends p.arg_pool q.arg_pool
    pub lens : (k : ℕ) → get_or p.min_input_lens k 0 ≤ get_or q.min_input_lens k 0

  pub Grows-refl : (p : Pools R) → Grows p p
  Grows-refl p = record {
    consts = Extends-refl p.consts;
    arg_pool = Extends-refl p.arg_pool;
    lens = λ k. omega arith;
  }

  pub Grows-trans : (p q r : Pools R) → Grows p q → Grows q r → Grows p r
  Grows-trans p q r h k = record {
    consts = Extends-trans p.consts q.consts r.consts h.consts k.consts;
    arg_pool = Extends-trans p.arg_pool q.arg_pool r.arg_pool h.arg_pool k.arg_pool;
    lens = λ j. omega (arith, h.lens j, k.lens j);
  }

  emit_input-Grows :
      (dst slot elem : ℕ) (p : Pools R) (r : Pools R × TapeOp)
      → emit_input R dst (slot, elem) p ≡ some r
      → Grows p r.0
  unfolding emit_input
  emit_input-Grows dst slot elem p r e = elim (Bool-cases (slot == usize_max)) [
    | inl out ↦ absurd (none≢some (rw out at e))
    | inr inside ↦
        subst (λ s. Grows p s.0) (some-inj (rw inside at e))
          (record {
            consts = Extends-refl p.consts;
            arg_pool = Extends-refl p.arg_pool;
            lens = λ k. (note_input_lem p.min_input_lens slot elem k).0;
          })
  ]

  -- Emitting the op of a node adds to the pools.
  pub emit-Grows :
      (sig : InputSignature) (slot_of : List ℕ) (dst : ℕ) (n : Node) (p : Pools R)
      (r : Pools R × TapeOp)
      → emit R sig slot_of dst n p ≡ some r
      → Grows p r.0
  unfolding emit
  emit-Grows sig slot_of dst (Node.const bits) p r e =
      subst (λ s. Grows p s.0) (some-inj e)
        (record {
          consts = (R.from_bits bits ∷ [], refl);
          arg_pool = Extends-refl p.arg_pool;
          lens = λ k. omega arith;
        })
  emit-Grows sig slot_of dst (Node.input flat) p r e =
      emit_input-Grows dst (decode sig flat).0 (decode sig flat).1 p r e
  emit-Grows sig slot_of dst (Node.reduce op args) p r e =
      subst (λ s. Grows p s.0) (some-inj e)
        (record {
          consts = Extends-refl p.consts;
          arg_pool = (map (slot_in R slot_of) args, refl);
          lens = λ k. omega arith;
        })
  emit-Grows sig slot_of dst (Node.dot a b) p r e =
      subst (λ s. Grows p s.0) (some-inj e)
        (record {
          consts = Extends-refl p.consts;
          arg_pool = (
            map (slot_in R slot_of) a ++ map (slot_in R slot_of) b,
            append_assoc p.arg_pool (map (slot_in R slot_of) a) (map (slot_in R slot_of) b),
          );
          lens = λ k. omega arith;
        })
  emit-Grows sig slot_of dst (Node.param i) p r e =
      subst (λ s. Grows p s.0) (some-inj e) (Grows-refl p)
  emit-Grows sig slot_of dst (Node.binary op a b) p r e =
      subst (λ s. Grows p s.0) (some-inj e) (Grows-refl p)
  emit-Grows sig slot_of dst (Node.unary op a) p r e =
      subst (λ s. Grows p s.0) (some-inj e) (Grows-refl p)
  emit-Grows sig slot_of dst (Node.cmp op a b) p r e =
      subst (λ s. Grows p s.0) (some-inj e) (Grows-refl p)
  emit-Grows sig slot_of dst (Node.select c t el) p r e =
      subst (λ s. Grows p s.0) (some-inj e) (Grows-refl p)
  emit-Grows sig slot_of dst (Node.fma a b c) p r e =
      subst (λ s. Grows p s.0) (some-inj e) (Grows-refl p)
