-- ===== src/Graph/Meaning/Values.antt =====
-- ssa/graph.rs: the loop of `interpret` ends with the fixed point of the node equations.

use mathlib.Core.List.{append_assoc, append-nil}
use fastsim.Common.{
  ℕ, zero, suc, ◌+◌, ◌<◌, ◌≡◌, refl, sym, ap, subst, ◌∙◌, List, [], ◌∷◌, ◌++◌, some, All, All-map,
  All-append_left, All-append_right, length, length-push, get_elem?, get_elem?-total,
  get_elem?-append, Bool-cases, inl, inr, some-inj, arith,
}
use fastsim.F64.{F64, zero_f}
use fastsim.Graph.Node.{Node, NodeId, children}
use native.Mathlib.Nat.{add-zero, zero-add}
use fastsim.Op.Apply.{apply_binary, apply_unary, apply_cmp}
use fastsim.Op.Lanes.{dot_scalar, reduce_scalar}
use fastsim.Graph.Eval.{
  Env, eval_node, eval_nodes, read_all, select_value, input_value, param_value,
}
use fastsim.Graph.Meaning.Operands.{eval_node-congr}

-- Every operand of the node has an id below `k`.
abbrev pub Below : ℕ → Node → Type 0
Below k n = All (λ c. c < k) (children n)

-- The operands of every node stand before it.
abbrev pub IsOrdered : List Node → Type 0
IsOrdered nodes = (i : ℕ) (n : Node) → get_elem? nodes i ≡ some n → Below i n

abbrev OrderedFrom : ℕ → List Node → Type 0
OrderedFrom k nodes = (i : ℕ) (n : Node) → get_elem? nodes i ≡ some n → Below (k + i) n

module _ (R : F64) (env : Env R) where
  -- Each value is that of its node, the operands read from the same list.
  abbrev pub Solves : List R.F → List Node → Type 0
  Solves vs nodes =
      (length vs ≡ length nodes)
      × ((i : ℕ) (n : Node)
          → get_elem? nodes i ≡ some n
          → eval_node R (get_elem? vs) env n ≡ get_elem? vs i)

  -- A node with its operands in a prefix has the same value over the prefix.
  pub eval_node-append :
      (vs ws : List R.F) (n : Node)
      → Below (length vs) n
      → eval_node R (get_elem? (vs ++ ws)) env n ≡ eval_node R (get_elem? vs) env n
  eval_node-append vs ws n h =
      eval_node-congr R env (get_elem? vs) (get_elem? (vs ++ ws)) n
        (All-map (λ c lt. get_elem?-append vs ws c lt) (children n) h)

  pub read_all_total :
      (vs : List R.F) (args : List NodeId)
      → All (λ c. c < length vs) args
      → (xs : List R.F) × (read_all R (get_elem? vs) args ≡ some xs)
  unfolding read_all
  read_all_total vs [] h = ([], refl)
  read_all_total vs (a ∷ args) h =
      let (x, p) = get_elem?-total vs a h.0 in
      let (xs, q) = read_all_total vs args h.1 in (x ∷ xs, rw (p, q))

  select_value_total :
      (vs : List R.F) (x : R.F) (t e : NodeId) {y z : R.F}
      → get_elem? vs t ≡ some y
      → get_elem? vs e ≡ some z
      → (v : R.F) × (select_value R (get_elem? vs) x t e ≡ some v)
  unfolding select_value
  select_value_total vs x t e {y} {z} q r = elim (Bool-cases (R.eq x (zero_f R))) [
    | inl zero_c ↦ (z, rw (zero_c, select_value) r)
    | inr other ↦ (y, rw (other, select_value) q)
  ]

  -- A node with its operands in range has a value.
  pub eval_node_total :
      (vs : List R.F) (n : Node)
      → Below (length vs) n
      → (v : R.F) × (eval_node R (get_elem? vs) env n ≡ some v)
  unfolding eval_node children
  eval_node_total vs (Node.const b) h = (R.from_bits b, refl)
  eval_node_total vs (Node.input i) h = (input_value R env i, refl)
  eval_node_total vs (Node.param i) h = (param_value R env i, refl)
  eval_node_total vs (Node.binary op a b) h =
      let (x, p) = get_elem?-total vs a h.0 in
      let (y, q) = get_elem?-total vs b h.1.0 in (apply_binary R op x y, rw (p, q))
  eval_node_total vs (Node.unary op a) h =
      let (x, p) = get_elem?-total vs a h.0 in (apply_unary R op x, rw p)
  eval_node_total vs (Node.cmp op a b) h =
      let (x, p) = get_elem?-total vs a h.0 in
      let (y, q) = get_elem?-total vs b h.1.0 in (apply_cmp R op x y, rw (p, q))
  eval_node_total vs (Node.select c t e) h =
      let (x, p) = get_elem?-total vs c h.0 in
      let (y, q) = get_elem?-total vs t h.1.0 in
      let (z, r) = get_elem?-total vs e h.1.1.0 in rw p (select_value_total vs x t e q r)
  eval_node_total vs (Node.fma a b c) h =
      let (x, p) = get_elem?-total vs a h.0 in
      let (y, q) = get_elem?-total vs b h.1.0 in
      let (z, r) = get_elem?-total vs c h.1.1.0 in (R.mul_add x y z, rw (p, q, r))
  eval_node_total vs (Node.reduce op args) h =
      let (xs, p) = read_all_total vs args h in (reduce_scalar R op xs, rw p)
  eval_node_total vs (Node.dot a b) h =
      let (xs, p) = read_all_total vs a (All-append_left _ a b h) in
      let (ys, q) = read_all_total vs b (All-append_right _ a b h) in
      (dot_scalar R xs ys, rw (p, q))

  abbrev SolvesFrom : List R.F → List R.F → List Node → Type 0
  SolvesFrom vs ws nodes =
      (length ws ≡ length nodes)
      × ((i : ℕ) (n : Node)
          → get_elem? nodes i ≡ some n
          → eval_node R (get_elem? (vs ++ ws)) env n ≡ get_elem? ws i)

  OrderedFrom-tail :
      (vs : List R.F) (v : R.F) (n : Node) (nodes : List Node)
      → OrderedFrom (length vs) (n ∷ nodes)
      → OrderedFrom (length (vs ++ v ∷ [])) nodes
  OrderedFrom-tail vs v n nodes h i m e =
      subst (λ k. Below k m) (omega (arith, length-push vs v)) (h (suc i) m e)

  SolvesFrom-cons :
      (vs ws : List R.F) (v : R.F) (n : Node) (nodes : List Node)
      → Below (length vs) n
      → eval_node R (get_elem? vs) env n ≡ some v
      → SolvesFrom (vs ++ v ∷ []) ws nodes
      → SolvesFrom vs (v ∷ ws) (n ∷ nodes)
  SolvesFrom-cons vs ws v n nodes below p h = (ap suc h.0, at)
    where
      at :
          (i : ℕ) (m : Node)
          → get_elem? (n ∷ nodes) i ≡ some m
          → eval_node R (get_elem? (vs ++ v ∷ ws)) env m ≡ get_elem? (v ∷ ws) i
      at zero m e =
          subst (λ k. eval_node R (get_elem? (vs ++ v ∷ ws)) env k ≡ some v) (some-inj e)
            (eval_node-append vs (v ∷ ws) n below ∙ p)
      at (suc i) m e =
          subst (λ l. eval_node R (get_elem? l) env m ≡ get_elem? ws i)
            (append_assoc vs (v ∷ []) ws) (h.1 i m e)

  -- The loop from a list of values runs to the end, and appends the values of its nodes.
  eval_nodes_runs :
      (vs : List R.F) (nodes : List Node)
      → OrderedFrom (length vs) nodes
      → (ws : List R.F) × (eval_nodes R env vs nodes ≡ some (vs ++ ws)) × SolvesFrom vs ws nodes
  unfolding eval_nodes
  eval_nodes_runs vs [] h = ([], ap some (sym (append-nil vs)), (refl, λ i n e. cc))
  eval_nodes_runs vs (n ∷ nodes) h =
      let below = subst (λ k. Below k n) (add-zero (length vs)) (h 0 n refl) in
      let (v, p) = eval_node_total vs n below in
      let (ws, runs, solves) =
        eval_nodes_runs (vs ++ v ∷ []) nodes (OrderedFrom-tail vs v n nodes h) in
      (
        v ∷ ws,
        rw (p, eval_nodes) (runs ∙ ap some (append_assoc vs (v ∷ []) ws)),
        SolvesFrom-cons vs ws v n nodes below p solves,
      )

  -- The solution is unique: the loop ends with any list that satisfies the equations.
  eval_nodes_unique :
      (vs ws : List R.F) (nodes : List Node)
      → OrderedFrom (length vs) nodes
      → SolvesFrom vs ws nodes
      → eval_nodes R env vs nodes ≡ some (vs ++ ws)
  unfolding eval_nodes
  eval_nodes_unique vs [] [] h s = ap some (sym (append-nil vs))
  eval_nodes_unique vs (w ∷ ws) [] h s = absurd (omega (arith, s.0))
  eval_nodes_unique vs [] (n ∷ nodes) h s = absurd (omega (arith, s.0))
  eval_nodes_unique vs (v ∷ ws) (n ∷ nodes) h s =
      let below = subst (λ k. Below k n) (add-zero (length vs)) (h 0 n refl) in
      let p = sym (eval_node-append vs (v ∷ ws) n below) ∙ s.1 0 n refl in
      let q = eval_nodes_unique (vs ++ v ∷ []) ws nodes (OrderedFrom-tail vs v n nodes h) (
        omega (arith, s.0),
        λ i m e.
            subst (λ l. eval_node R (get_elem? l) env m ≡ get_elem? ws i)
              (sym (append_assoc vs (v ∷ []) ws)) (s.1 (suc i) m e),
      ) in
      rw (p, eval_nodes) (q ∙ ap some (append_assoc vs (v ∷ []) ws))

  -- In a graph whose operands stand before their users every node has a value.
  pub eval_nodes_total :
      (nodes : List Node)
      → IsOrdered nodes
      → (vs : List R.F) × (eval_nodes R env [] nodes ≡ some vs) × Solves vs nodes
  eval_nodes_total nodes h =
      eval_nodes_runs [] nodes (λ i n e. subst (λ k. Below k n) (sym (zero-add i)) (h i n e))

  pub eval_nodes-eq-some :
      (nodes : List Node) (vs : List R.F)
      → IsOrdered nodes
      → Solves vs nodes
      → eval_nodes R env [] nodes ≡ some vs
  eval_nodes-eq-some nodes vs h s =
      eval_nodes_unique [] vs nodes (λ i n e. subst (λ k. Below k n) (sym (zero-add i)) (h i n e)) s

  pub eval_nodes-Solves :
      (nodes : List Node) (vs : List R.F)
      → IsOrdered nodes
      → eval_nodes R env [] nodes ≡ some vs
      → Solves vs nodes
  eval_nodes-Solves nodes vs h e =
      let (ws, p, s) = eval_nodes_total nodes h in
      subst (λ l. Solves l nodes) (some-inj (sym p ∙ e)) s
