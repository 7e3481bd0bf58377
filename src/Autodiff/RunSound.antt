-- ===== src/Autodiff/RunSound.antt =====
-- ssa/autodiff.rs: running a rule gives a node with the value that the rule has on values.
use fastsim.Common.{
  ℕ, zero, suc, ◌≤◌, ◌<◌, ◌^◌, ◌≡◌, refl, sym, ap, subst, ◌∙◌, Bool, true, ◌&&◌, Bool-cases, inl,
  inr, List, [], ◌∷◌, ◌++◌, some, Option-cases, length, length-push, length-append, lt-length,
  get_elem?, get_elem?-append, get_or, ltb, ltb→lt, if◌then◌else◌, arith,
}
use mathlib.Core.List.{append-nil, append_assoc}
use fastsim.F64.{F64, zero_f}
use fastsim.F64.Laws.{IeeeLaws}
use fastsim.Op.Apply.{apply_binary, apply_unary, apply_cmp}
use fastsim.Graph.Node.{Node, NodeId, children}
use fastsim.Graph.Build.{Graph, add, dedup_get}
use fastsim.Graph.Eval.{Env, eval_node, eval_nodes, select_value}
use fastsim.Graph.Meaning.Values.{Below, eval_nodes-Solves}
use fastsim.Graph.HashCons.{IsHashConsed}
use fastsim.Optimize.CanonicalSound.{add-Gives}
use fastsim.Autodiff.Rules.{Call, constant, unary, binary, cmp, select, node_of, run_rule}

-- One array of nodes begins another.
abbrev pub Extends : {R : F64} → Graph R → Graph R → Type 0
Extends g g' = (more : List Node) × (g'.nodes ≡ g.nodes ++ more)

-- What an array of values holds, a later one holds.
abbrev pub Later : {A : Type 0} → List A → List A → Type 0
Later {A} vs vs' = (i : ℕ) (y : A) → get_elem? vs i ≡ some y → get_elem? vs' i ≡ some y

module _ (R : F64) where
  pub Extends-refl : (g : Graph R) → Extends g g
  Extends-refl g = ([], sym (append-nil g.nodes))

  pub Extends-trans : (g g' g'' : Graph R) → Extends g g' → Extends g' g'' → Extends g g''
  Extends-trans g g' g'' (xs, p) (ys, q) =
      (xs ++ ys, q ∙ ap (λ l. l ++ ys) p ∙ append_assoc g.nodes xs ys)

  pub Extends-length : (g g' : Graph R) → Extends g g' → length g.nodes ≤ length g'.nodes
  Extends-length g g' (xs, p) = omega (arith, ap length p, length-append g.nodes xs)

  pub Extends-add : (g : Graph R) (n : Node) → Extends g (add R g n).0
  unfolding add
  Extends-add g n = elim (Option-cases (dedup_get n g.dedup)) [
    | inl fresh ↦ rw (fresh, add) (n ∷ [], refl)
    | inr (id, known) ↦ rw (known, add) (Extends-refl g)
  ]

  pub Extends-run_rule :
      (calls : List (Call R.F)) (env : List NodeId) (g : Graph R) (last : NodeId)
      → Extends g (run_rule R calls env g last).0
  unfolding run_rule
  Extends-run_rule [] env g last = Extends-refl g
  Extends-run_rule (c ∷ calls) env g last =
      let r = add R g (node_of R env c) in
      Extends-trans g r.0 (run_rule R calls (env ++ r.1 ∷ []) r.0 r.1).0
        (Extends-add g (node_of R env c)) (Extends-run_rule calls (env ++ r.1 ∷ []) r.0 r.1)

  -- The value of a call, from the values at the positions.
  unfoldable pub call_value : List R.F → Call R.F → R.F
  call_value xs (constant v) = v
  call_value xs (unary op i) = apply_unary R op (get_or xs i (zero_f R))
  call_value xs (binary op i j) =
      apply_binary R op (get_or xs i (zero_f R)) (get_or xs j (zero_f R))
  call_value xs (cmp op i j) = apply_cmp R op (get_or xs i (zero_f R)) (get_or xs j (zero_f R))
  call_value xs (select c i j) =
      if R.eq (get_or xs c (zero_f R)) (zero_f R)
      then get_or xs j (zero_f R)
      else get_or xs i (zero_f R)

  unfoldable pub rule_value : List (Call R.F) → List R.F → R.F → R.F
  unfolding call_value
  rule_value [] xs last = last
  rule_value (c ∷ calls) xs last = rule_value calls (xs ++ call_value xs c ∷ []) (call_value xs c)

  -- The arguments of a call are positions below `n`.
  unfoldable pub is_scoped : ℕ → Call R.F → Bool
  is_scoped n (constant v) = true
  is_scoped n (unary op i) = ltb i n
  is_scoped n (binary op i j) = ltb i n && ltb j n
  is_scoped n (cmp op i j) = ltb i n && ltb j n
  is_scoped n (select c i j) = ltb c n && ltb i n && ltb j n

  unfoldable pub all_scoped : ℕ → List (Call R.F) → Bool
  unfolding is_scoped
  all_scoped n [] = true
  all_scoped n (c ∷ calls) = is_scoped n c && all_scoped (suc n) calls

-- The nodes `env` have the values `xs`.
abbrev pub Holds : {A : Type 0} → List A → List NodeId → List A → Type 0
Holds vs [] [] = Unit
Holds vs (id ∷ env) (x ∷ xs) = (get_elem? vs id ≡ some x) × Holds vs env xs
Holds vs [] (x ∷ xs) = ⊥
Holds vs (id ∷ env) [] = ⊥

module _ {A : Type 0} where
  pub Holds-Later :
      (vs vs' : List A) (env : List NodeId) (xs : List A)
      → Later vs vs'
      → Holds vs env xs
      → Holds vs' env xs
  Holds-Later vs vs' [] [] f h = tt
  Holds-Later vs vs' [] (x ∷ xs) f h = h
  Holds-Later vs vs' (id ∷ env) [] f h = h
  Holds-Later vs vs' (id ∷ env) (x ∷ xs) f h = (f id x h.0, Holds-Later vs vs' env xs f h.1)

  Holds-push :
      (vs : List A) (env : List NodeId) (xs : List A) (id : NodeId) (x : A)
      → Holds vs env xs
      → get_elem? vs id ≡ some x
      → Holds vs (env ++ id ∷ []) (xs ++ x ∷ [])
  Holds-push vs [] [] id x h e = (e, tt)
  Holds-push vs [] (y ∷ xs) id x h e = elim h [ ]
  Holds-push vs (j ∷ env) [] id x h e = elim h [ ]
  Holds-push vs (j ∷ env) (y ∷ xs) id x h e = (h.0, Holds-push vs env xs id x h.1 e)

  Holds-get :
      (vs : List A) (env : List NodeId) (xs : List A) (k : ℕ) (d : A)
      → Holds vs env xs
      → k < length env
      → get_elem? vs (get_or env k 0) ≡ some (get_or xs k d)
  Holds-get vs [] xs k d h lt = elim lt [ ]
  Holds-get vs (id ∷ env) [] k d h lt = elim h [ ]
  Holds-get vs (id ∷ env) (x ∷ xs) zero d h lt = h.0
  Holds-get vs (id ∷ env) (x ∷ xs) (suc k) d h lt = Holds-get vs env xs k d h.1 (omega (arith, lt))

pub Later-append : {A : Type 0} (vs ws : List A) → Later vs (vs ++ ws)
Later-append vs ws i y e = get_elem?-append vs ws i (lt-length vs i e) ∙ e

-- Without a call the result is the last one.
abbrev pub IsReady : {A F : Type 0} → List A → NodeId → A → List (Call F) → Type 0
IsReady vs last y [] = get_elem? vs last ≡ some y
IsReady vs last y (c ∷ calls) = Unit

ready :
    {A F : Type 0} (vs : List A) (last : NodeId) (y : A) (calls : List (Call F))
    → get_elem? vs last ≡ some y
    → IsReady vs last y calls
ready vs last y [] e = e
ready vs last y (c ∷ calls) e = tt

module _ (R : F64) (env : Env R) (ieee : IeeeLaws R) where
  in_scope :
      (vs : List R.F) (n : ℕ) (ids : List NodeId) (xs : List R.F) (i : ℕ)
      → length vs ≡ n
      → Holds vs ids xs
      → ltb i (length ids) ≡ true
      → (get_or ids i 0 < n) × (get_elem? vs (get_or ids i 0) ≡ some (get_or xs i (zero_f R)))
  in_scope vs n ids xs i size h s =
      let e = Holds-get vs ids xs i (zero_f R) h (ltb→lt i (length ids) s) in
      (omega (arith, size, lt-length vs (get_or ids i 0) e), e)

  -- The node of a call has the value of the call, and its operands stand in the graph.
  pub call_sound :
      (vs : List R.F) (n : ℕ) (ids : List NodeId) (xs : List R.F) (c : Call R.F)
      → length vs ≡ n
      → Holds vs ids xs
      → is_scoped R (length ids) c ≡ true
      → Below n (node_of R ids c)
        × (eval_node R (get_elem? vs) env (node_of R ids c) ≡ some (call_value R xs c))
  unfolding node_of call_value is_scoped eval_node children
  call_sound vs n ids xs (constant v) size h s = (tt, ap some (ieee.from_bits-to_bits v))
  call_sound vs n ids xs (unary op i) size h s =
      let (lt, e) = in_scope vs n ids xs i size h s in ((lt, tt), rw e refl)
  call_sound vs n ids xs (binary op i j) size h s =
      let (lt, e) = in_scope vs n ids xs i size h ground (arith, s) in
      let (lt', e') = in_scope vs n ids xs j size h ground (arith, s) in
      ((lt, (lt', tt)), rw (e, e') refl)
  call_sound vs n ids xs (cmp op i j) size h s =
      let (lt, e) = in_scope vs n ids xs i size h ground (arith, s) in
      let (lt', e') = in_scope vs n ids xs j size h ground (arith, s) in
      ((lt, (lt', tt)), rw (e, e') refl)
  call_sound vs n ids xs (select c i j) size h s =
      let (lt, e) = in_scope vs n ids xs c size h ground (arith, s) in
      let (lt', e') = in_scope vs n ids xs i size h ground (arith, s) in
      let (lt'', e'') = in_scope vs n ids xs j size h ground (arith, s) in
      (
        (lt, (lt', (lt'', tt))),
        elim (Bool-cases (R.eq (get_or xs c (zero_f R)) (zero_f R))) [
          | inl zero_c ↦ rw (e, zero_c, select_value) e''
          | inr other ↦ rw (e, other, select_value) e'
        ],
      )

  -- A node in a later state of the graph: the graph is well-formed and has the values `vs'`.
  pub record Reaches (g : Graph R) (vs : List R.F) (r : Graph R × NodeId) (v : R.F) : Type 0 where
    pub values : List R.F
    pub well_formed : IsHashConsed r.0
    pub runs : eval_nodes R env [] r.0.nodes ≡ some values
    pub later : Later vs values
    pub value : get_elem? values r.1 ≡ some v

  pub add-Reaches :
      (g : Graph R) (vs : List R.F) (n : Node) (v : R.F)
      → IsHashConsed g
      → length (add R g n).0.nodes < 2 ^ 32
      → eval_nodes R env [] g.nodes ≡ some vs
      → Below (length g.nodes) n
      → eval_node R (get_elem? vs) env n ≡ some v
      → Reaches g vs (add R g n) v
  add-Reaches g vs n v h fits runs below e =
      let room : length g.nodes < 2 ^ 32 =
        omega (arith, fits, Extends-length R g (add R g n).0 (Extends-add R g n)) in
      let (ws, after, at, good) = add-Gives R env ieee g h room vs v n runs below e in
      record {
        values = vs ++ ws;
        well_formed = good;
        runs = after;
        later = Later-append vs ws;
        value = at;
      }

  -- Running a rule on a well-formed graph, where the operands have the values `xs`: the graph stays
  -- well-formed, what has a value keeps it, and the result has the value of the rule.
  pub rule_sound :
      (calls : List (Call R.F)) (ids : List NodeId) (xs : List R.F) (g : Graph R) (vs : List R.F)
      (last : NodeId) (y : R.F)
      → IsHashConsed g
      → length (run_rule R calls ids g last).0.nodes < 2 ^ 32
      → eval_nodes R env [] g.nodes ≡ some vs
      → Holds vs ids xs
      → all_scoped R (length ids) calls ≡ true
      → IsReady vs last y calls
      → Reaches g vs (run_rule R calls ids g last) (rule_value R calls xs y)
  unfolding run_rule rule_value all_scoped
  rule_sound [] ids xs g vs last y h fits runs holds s e = record {
    values = vs;
    well_formed = h;
    runs = runs;
    later = λ i z p. p;
    value = e;
  }
  rule_sound (c ∷ calls) ids xs g vs last y h fits runs holds s e =
      let size = (eval_nodes-Solves R env g.nodes vs h.ordered runs).0 in
      let (below, value) = call_sound vs (length g.nodes) ids xs c size holds ground (arith, s) in
      let r = add R g (node_of R ids c) in
      let rest = run_rule R calls (ids ++ r.1 ∷ []) r.0 r.1 in
      let grown =
        Extends-length R r.0 rest.0 (Extends-run_rule R calls (ids ++ r.1 ∷ []) r.0 r.1) in
      let step =
        add-Reaches g vs (node_of R ids c) (call_value R xs c) h (omega (arith, fits, grown)) runs
          below value in
      let last_scoped : all_scoped R (length (ids ++ r.1 ∷ [])) calls ≡ true =
        subst (λ k. all_scoped R k calls ≡ true) (sym (length-push ids r.1)) ground (arith, s) in
      let next =
        rule_sound calls (ids ++ r.1 ∷ []) (xs ++ call_value R xs c ∷ []) r.0 step.values r.1
          (call_value R xs c) step.well_formed fits step.runs
          (Holds-push step.values ids xs r.1 (call_value R xs c)
            (Holds-Later vs step.values ids xs step.later holds) step.value)
          last_scoped (ready step.values r.1 (call_value R xs c) calls step.value) in
      record {
        values = next.values;
        well_formed = next.well_formed;
        runs = next.runs;
        later = λ i z p. next.later i z (step.later i z p);
        value = next.value;
      }
