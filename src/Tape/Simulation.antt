-- ===== src/Tape/Simulation.antt =====
-- ssa/tape.rs: the run of a tape keeps the values of the nodes that are still in use.
use fastsim.Common.{
  ℕ, suc, ◌+◌, ◌*◌, ◌≤◌, ◌<◌, ◌≡◌, ◌≢◌, ◌⊎◌, refl, sym, ap, subst, ◌∙◌, true, inl, inr, List, [],
  ◌∷◌, Option, none, some, some-inj, none≢some, Option-cases, ◌>>=◌, >>=-eq-some, All, All-map,
  length, length-set, get_elem?, get_elem?-set_self, get_elem?-set_ne, get_or, set, ltb, lt→ltb,
  if◌then◌else◌, arith,
}
use fastsim.F64.{F64}
use fastsim.Graph.Node.{Node, children}
use fastsim.Graph.Signature.{InputSignature}
use fastsim.Graph.Eval.{eval_node}
use fastsim.Graph.Meaning.Operands.{eval_node-congr}
use fastsim.Tape.Build.{Tape, TapeOp, Pools, emit, emit_all, slot_in, arity}
use fastsim.Tape.Eval.{check_inputs, exec_op, exec_value, eval_ops}
use fastsim.Tape.PoolsGrow.{Grows, Grows-refl, Grows-trans, Extends-trans, emit-Grows}
use fastsim.Tape.EmitSound.{Backs, Computes, IsRunnable, env, emit-Computes}

module _ (R : F64) where
  -- The first op of the emitted ones, and the others.
  pub emit_all-cons :
      (sig : InputSignature) (slot_of : List ℕ) (i : ℕ) (n : Node) (nodes : List Node) (p : Pools R)
      (q : Pools R) (ops : List TapeOp)
      → emit_all R sig slot_of i (n ∷ nodes) p ≡ some (q, ops)
      → (r : Pools R × TapeOp) × (rest : List TapeOp) × (emit R sig slot_of
            (slot_in R slot_of i)
            n
            p
          ≡ some r)
        × (emit_all R sig slot_of (suc i) nodes r.0 ≡ some (q, rest))
        × (r.1 ∷ rest ≡ ops)
  unfolding emit_all
  emit_all-cons sig slot_of i n nodes p q ops e =
      let go : Option (Pools R × TapeOp) → Option (Pools R × List TapeOp) = λ o. elim o [
        | none ↦ none
        | some r ↦ emit_all R sig slot_of (suc i) nodes r.0 >>= λ s. some (s.0, r.1 ∷ s.1)
      ] in
      elim (Option-cases (emit R sig slot_of (slot_in R slot_of i) n p)) [
        | inl missing ↦ absurd (none≢some (sym (ap go missing) ∙ e))
        | inr (r, found) ↦
            let (s, later, e') =
              >>=-eq-some (emit_all R sig slot_of (suc i) nodes r.0) (λ s. some (s.0, r.1 ∷ s.1))
                (sym (ap go found) ∙ e) in
            (
              r,
              s.1,
              found,
              later ∙ ap (λ k. some (k, s.1)) (ap (λ k. k.0) (some-inj e')),
              ap (λ k. k.1) (some-inj e'),
            )
      ]

  pub emit_all-Grows :
      (sig : InputSignature) (slot_of : List ℕ) (i : ℕ) (nodes : List Node) (p q : Pools R)
      (ops : List TapeOp)
      → emit_all R sig slot_of i nodes p ≡ some (q, ops)
      → Grows R p q
  unfolding emit_all
  emit_all-Grows sig slot_of i [] p q ops e =
      subst (Grows R p) (ap (λ k. k.0) (some-inj e)) (Grows-refl R p)
  emit_all-Grows sig slot_of i (n ∷ nodes) p q ops e =
      let (r, rest, here, later, _) = emit_all-cons sig slot_of i n nodes p q ops e in
      Grows-trans R p r.0 q (emit-Grows R sig slot_of (slot_in R slot_of i) n p r here)
        (emit_all-Grows sig slot_of (suc i) nodes r.0 q rest later)

module _ (R : F64) (t : Tape R) (inputs : List (List R.F)) (params : List R.F)
    (sig : InputSignature) (slot_of last_use : List ℕ) (vs : List R.F) where
  Backs-weaken :
      (p q : Pools R)
      → Grows R p q
      → Backs R t inputs params sig slot_of q
      → Backs R t inputs params sig slot_of p
  Backs-weaken p q g b = record {
    consts = Extends-trans p.consts q.consts t.consts g.consts b.consts;
    arg_pool = Extends-trans p.arg_pool q.arg_pool t.arg_pool g.arg_pool b.arg_pool;
    lens = λ k. omega (arith, g.lens k, b.lens k);
  }

  -- What the analysis has settled for op `i`, whose node is `n`.
  pub record IsPlanned (i : ℕ) (n : Node) : Type 0 where
    pub operands : All (λ c. (c < i) × (i ≤ get_or last_use c 0)) (children n)
    pub value :
        (v : R.F) × (get_elem? vs i ≡ some v)
        × (eval_node R (get_elem? vs) (env R t inputs params sig slot_of) n ≡ some v)
    pub fresh :
        (c : ℕ) → c < i → suc i ≤ get_or last_use c 0 → slot_in R slot_of c ≢ slot_in R slot_of i
    pub room : slot_in R slot_of i < t.n_work
    pub runnable : IsRunnable (length params) n
    pub fits : 2 * arity n ≤ t.scratch_len

  -- Before op `i` the work slots hold the values of the nodes that it or a later op reads.
  pub record IsHeld (i : ℕ) (w : List R.F) : Type 0 where
    pub size : length w ≡ t.n_work
    pub holds :
        (c : ℕ)
        → c < i
        → i ≤ get_or last_use c 0
        → get_elem? w (slot_in R slot_of c) ≡ get_elem? vs c

  -- One op.
  exec_op-IsHeld :
      (i : ℕ) (n : Node) (op : TapeOp) (w : List R.F)
      → Computes R t inputs params sig slot_of (slot_in R slot_of i) n op
      → IsPlanned i n
      → IsHeld i w
      → (w' : List R.F) × (exec_op R t inputs params w op ≡ some w') × IsHeld (suc i) w'
  unfolding exec_op
  exec_op-IsHeld i n op w computes plan held =
      let (v, at, runs) = plan.value in
      let s = slot_in R slot_of i in
      let result : exec_value R t inputs params w op ≡ some v =
        computes.1 w
        ∙ eval_node-congr R (env R t inputs params sig slot_of) (get_elem? vs)
            (λ c. get_elem? w (slot_in R slot_of c)) n
            (All-map (λ c p. held.holds c p.0 p.1) (children n) plan.operands)
        ∙ runs in
      let inside : op.dst < length w =
        subst (λ d. d < length w) (sym computes.0) (omega (arith, plan.room, held.size)) in
      (
        set w s v,
        ap (λ o. o >>= λ x. if ltb op.dst (length w) then some (set w op.dst x) else none) result
            ∙ ap (λ b. if b then some (set w op.dst v) else none) (lt→ltb op.dst (length w) inside)
            ∙ ap (λ d. some (set w d v)) computes.0,
        record {
          size = length-set w s v ∙ held.size;
          holds = λ c lt reads. elim (split c i lt) [
            | inr e ↦
                ap (λ k. get_elem? (set w s v) (slot_in R slot_of k)) e
                ∙ get_elem?-set_self w s v (omega (arith, plan.room, held.size))
                ∙ sym (ap (get_elem? vs) e ∙ at)
            | inl lt' ↦
                get_elem?-set_ne w s (slot_in R slot_of c) v (λ e. plan.fresh c lt' reads (sym e))
                ∙ held.holds c lt' (omega (arith, reads))
          ];
        },
      )
    where
      split : (c k : ℕ) → c < suc k → (c < k) ⊎ (c ≡ k)
      split c k h = ground arith

  -- The ops that are emitted for a list of nodes.
  pub eval_ops-IsHeld :
      (i : ℕ) (nodes : List Node) (p q : Pools R) (ops : List TapeOp) (w : List R.F)
      → check_inputs R t inputs ≡ true
      → emit_all R sig slot_of i nodes p ≡ some (q, ops)
      → Backs R t inputs params sig slot_of q
      → ((j : ℕ) (n : Node) → get_elem? nodes j ≡ some n → IsPlanned (i + j) n)
      → IsHeld i w
      → (w' : List R.F) × (eval_ops R t inputs params w ops ≡ some w')
        × IsHeld (i + length nodes) w'
  unfolding eval_ops emit_all
  eval_ops-IsHeld i [] p q ops w checked e backs plan held = (
    w,
    ap (eval_ops R t inputs params w) (sym (ap (λ k. k.1) (some-inj e))),
    subst (λ k. IsHeld k w) (omega arith) held,
  )
  eval_ops-IsHeld i (n ∷ nodes) p q ops w checked e backs plan held =
      let (r, rest, here, later, split) = emit_all-cons R sig slot_of i n nodes p q ops e in
      let first : IsPlanned i n = subst (λ k. IsPlanned k n) (omega arith) (plan 0 n refl) in
      let b =
        Backs-weaken r.0 q (emit_all-Grows R sig slot_of (suc i) nodes r.0 q rest later) backs in
      let computes =
        emit-Computes R t inputs params sig slot_of (slot_in R slot_of i) n p r checked first.fits
          first.runnable here b in
      let (w1, runs, held1) = exec_op-IsHeld i n r.1 w computes first held in
      let (w2, runs2, held2) =
        eval_ops-IsHeld (suc i) nodes r.0 q rest w1 checked later backs
          (λ j m f. subst (λ k. IsPlanned k m) (omega arith) (plan (suc j) m f)) held1 in
      (
        w2,
        ap (eval_ops R t inputs params w) (sym split)
            ∙ ap (λ o. elim o [ none ↦ none | some x ↦ eval_ops R t inputs params x rest ]) runs
            ∙ runs2,
        subst (λ k. IsHeld k w2) (omega arith) held2,
      )
