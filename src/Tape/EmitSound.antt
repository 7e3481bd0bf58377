-- ===== src/Tape/EmitSound.antt =====
-- ssa/tape.rs: each op that `Tape::from_graph` emits computes the value of its node on the final tape.
use mathlib.Core.List.{append_assoc, map}
use fastsim.Common.{
  ℕ, suc, ◌+◌, ◌*◌, ◌≤◌, ◌<◌, ◌≡◌, refl, sym, ap, subst, ◌∙◌, true, Bool-cases, inl, inr, List, [],
  ◌∷◌, ◌++◌, some, some-inj, none≢some, length, length-append, get_elem?, get_or, get_elem?-append,
  get_elem?-push, ◌==◌, arith,
}
use fastsim.F64.{F64}
use fastsim.Graph.Node.{Node}
use fastsim.Graph.Signature.{InputSignature, decode, usize_max}
use fastsim.Graph.Eval.{Env, eval_node}
use fastsim.Tape.Build.{Tape, TapeOp, Pools, note_input, emit_input, emit, slot_in, arity}
use fastsim.Tape.Eval.{check_inputs, exec_value, slot_length}
use fastsim.Tape.PoolsGrow.{Extends, note_input_lem, check_lens_sound}
use fastsim.Tape.OpSound.{
  exec-binary, exec-unary, exec-cmp, exec-reduce, exec-dot, exec-select, exec-fma, exec-const,
  exec-param, exec-input,
}

get_elem?-last :
    {A : Type 0} (xs ys : List A) (x : A)
    → Extends (xs ++ x ∷ []) ys
    → get_elem? ys (length xs) ≡ some x
get_elem?-last xs ys x (k, e) =
    ap (λ l. get_elem? l (length xs)) e
    ∙ get_elem?-append (xs ++ x ∷ []) k (length xs) (omega (arith, length-append xs (x ∷ [])))
    ∙ get_elem?-push xs x

length-map : {A B : Type 0} (f : A → B) (xs : List A) → length (map f xs) ≡ length xs
length-map f [] = refl
length-map f (x ∷ xs) = ap suc (length-map f xs)

-- What a node asks of the call: a parameter that is given, and operand lists of one length.
unfoldable pub IsRunnable : ℕ → Node → Type 0
IsRunnable n_params (Node.param i) = i < n_params
IsRunnable n_params (Node.dot a b) = length b ≡ length a
IsRunnable n_params _ = Unit

module _ (R : F64) (t : Tape R) (inputs : List (List R.F)) (params : List R.F)
    (sig : InputSignature) (slot_of : List ℕ) where
  abbrev pub env : Env R
  env = record { signature = sig; inputs = inputs; params = params }

  -- The tape has the pools, and perhaps more.
  pub record Backs (p : Pools R) : Type 0 where
    pub consts : Extends p.consts t.consts
    pub arg_pool : Extends p.arg_pool t.arg_pool
    pub lens : (k : ℕ) → get_or p.min_input_lens k 0 ≤ get_or t.min_input_lens k 0

  -- The op writes the slot `dst`, with the value of the node when the work slots hold its operands.
  abbrev pub Computes : ℕ → Node → TapeOp → Type 0
  Computes dst n op =
      (op.dst ≡ dst)
      × ((w : List R.F)
          → exec_value R t inputs params w op
            ≡ eval_node R (λ c. get_elem? w (slot_in R slot_of c)) env n)

  input-Computes :
      (dst flat slot elem : ℕ) (p : Pools R) (r : Pools R × TapeOp)
      → check_inputs R t inputs ≡ true
      → decode sig flat ≡ (slot, elem)
      → emit_input R dst (slot, elem) p ≡ some r
      → Backs r.0
      → Computes dst (Node.input flat) r.1
  unfolding emit_input check_inputs
  input-Computes dst flat slot elem p r checked at e backs = elim (Bool-cases (slot == usize_max)) [
    | inl out ↦ absurd (none≢some (rw out at e))
    | inr inside ↦
        subst (λ s. Backs s.0 → Computes dst (Node.input flat) s.1) (some-inj (rw inside at e))
          (λ b. (
            refl,
            λ w. exec-input R env t inputs params w slot_of dst flat slot elem refl at (enough b),
          ))
          backs
  ]
    where
      enough :
          Backs (record p { min_input_lens = note_input R p.min_input_lens slot elem })
          → elem < slot_length R (get_elem? inputs slot)
      enough b =
          let from_zero : 0 + slot ≡ slot = omega arith in
          let found =
            subst (λ k. get_or t.min_input_lens slot 0 ≤ slot_length R (get_elem? inputs k))
              from_zero (check_lens_sound R inputs 0 t.min_input_lens slot checked) in
          omega (arith, found, b.lens slot, (note_input_lem R p.min_input_lens slot elem slot).1)

  pub emit-Computes :
      (dst : ℕ) (n : Node) (p : Pools R) (r : Pools R × TapeOp)
      → check_inputs R t inputs ≡ true
      → 2 * arity n ≤ t.scratch_len
      → IsRunnable (length params) n
      → emit R sig slot_of dst n p ≡ some r
      → Backs r.0
      → Computes dst n r.1
  unfolding emit arity IsRunnable
  emit-Computes dst (Node.const bits) p r checked room runnable e backs =
      subst (λ s. Backs s.0 → Computes dst (Node.const bits) s.1) (some-inj e)
        (λ b. (
          refl,
          λ w.
              exec-const R env t inputs params w slot_of dst bits (length p.consts)
                (get_elem?-last p.consts t.consts (R.from_bits bits) b.consts),
        ))
        backs
  emit-Computes dst (Node.input flat) p r checked room runnable e backs =
      input-Computes dst flat (decode sig flat).0 (decode sig flat).1 p r checked refl e backs
  emit-Computes dst (Node.param i) p r checked room runnable e backs =
      subst (λ s. Computes dst (Node.param i) s.1) (some-inj e)
        (refl, λ w. exec-param R env t inputs params w slot_of dst i refl runnable)
  emit-Computes dst (Node.binary op a b) p r checked room runnable e backs =
      subst (λ s. Computes dst (Node.binary op a b) s.1) (some-inj e)
        (refl, λ w. exec-binary R env t inputs params w slot_of dst op a b)
  emit-Computes dst (Node.unary op a) p r checked room runnable e backs =
      subst (λ s. Computes dst (Node.unary op a) s.1) (some-inj e)
        (refl, λ w. exec-unary R env t inputs params w slot_of dst op a)
  emit-Computes dst (Node.cmp op a b) p r checked room runnable e backs =
      subst (λ s. Computes dst (Node.cmp op a b) s.1) (some-inj e)
        (refl, λ w. exec-cmp R env t inputs params w slot_of dst op a b)
  emit-Computes dst (Node.select c th el) p r checked room runnable e backs =
      subst (λ s. Computes dst (Node.select c th el) s.1) (some-inj e)
        (refl, λ w. exec-select R env t inputs params w slot_of dst c th el)
  emit-Computes dst (Node.fma a b c) p r checked room runnable e backs =
      subst (λ s. Computes dst (Node.fma a b c) s.1) (some-inj e)
        (refl, λ w. exec-fma R env t inputs params w slot_of dst a b c)
  emit-Computes dst (Node.reduce op args) p r checked room runnable e backs =
      subst (λ s. Backs s.0 → Computes dst (Node.reduce op args) s.1) (some-inj e)
        (λ b. (
          refl,
          λ w.
              exec-reduce R env t inputs params w slot_of dst op args (length p.arg_pool)
                (
                  p.arg_pool,
                  b.arg_pool.0,
                  b.arg_pool.1
                      ∙ append_assoc p.arg_pool (map (slot_in R slot_of) args) b.arg_pool.0,
                  refl,
                )
                (omega (arith, room)),
        ))
        backs
  emit-Computes dst (Node.dot a b) p r checked room runnable e backs =
      let firsts = map (slot_in R slot_of) a in
      let bs = map (slot_in R slot_of) b in
      subst (λ s. Backs s.0 → Computes dst (Node.dot a b) s.1) (some-inj e)
        (λ h.
          let k = h.arg_pool.0 in
          (
            refl,
            λ w.
                exec-dot R env t inputs params w slot_of dst a b (length p.arg_pool)
                  (
                    p.arg_pool,
                    bs ++ k,
                    h.arg_pool.1
                        ∙ append_assoc (p.arg_pool ++ firsts) bs k
                        ∙ append_assoc p.arg_pool firsts (bs ++ k),
                    refl,
                  )
                  (
                    p.arg_pool ++ firsts,
                    k,
                    h.arg_pool.1 ∙ append_assoc (p.arg_pool ++ firsts) bs k,
                    sym (
                        length-append p.arg_pool firsts
                        ∙ ap (λ m. length p.arg_pool + m) (length-map (slot_in R slot_of) a)),
                  )
                  runnable room,
          ))
        backs
