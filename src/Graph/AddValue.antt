-- ===== src/Graph/AddValue.antt =====
-- ssa/graph.rs: what `add` does to the values of a graph.
use mathlib.Core.List.{append-nil}
use fastsim.Common.{
  ◌<◌, ◌^◌, ◌≡◌, refl, sym, ap, subst, ◌∙◌, List, [], ◌∷◌, ◌++◌, some, All-map, length, length-push,
  get_elem?, get_elem?-append, get_elem?-push, lt-length, Option-cases, inl, inr, arith,
}
use fastsim.F64.{F64}
use fastsim.Graph.Node.{Node, children}
use fastsim.Graph.Build.{Graph, add, dedup_get}
use fastsim.Graph.Eval.{Env, eval_node, eval_nodes, interpret, read_all, env_of}
use fastsim.Graph.Meaning.Values.{
  Below, IsOrdered, Solves, eval_nodes_total, eval_nodes-eq-some, eval_nodes-Solves,
  eval_node-append, eval_node_total,
}
use fastsim.Graph.Meaning.Operands.{read_all-congr}
use fastsim.Graph.Meaning.Interpret.{interpret-congr}
use fastsim.Graph.HashCons.{IsHashConsed, push_cases, add_found, add_fresh, push-IsHashConsed}

module _ (R : F64) where
  Solves-push :
      (env : Env R) (vs : List R.F) (v : R.F) (nodes : List Node) (node : Node)
      → IsOrdered nodes
      → Below (length nodes) node
      → Solves R env vs nodes
      → eval_node R (get_elem? vs) env node ≡ some v
      → Solves R env (vs ++ v ∷ []) (nodes ++ node ∷ [])
  Solves-push env vs v nodes node ordered below (size, solves) e = (
    omega (arith, length-push vs v, length-push nodes node),
    λ i n at. elim (push_cases nodes node n i at) [
      | inl old ↦
          eval_node-append R env vs (v ∷ []) n (
            All-map (λ c (lt : c < i). omega (arith, lt-length nodes i old)) (children n)
              (ordered i n old))
          ∙ solves i n old
          ∙ sym (get_elem?-append vs (v ∷ []) i (omega (arith, lt-length nodes i old)))
      | inr (last, same) ↦
          subst (λ m. eval_node R (get_elem? (vs ++ v ∷ [])) env m ≡ get_elem? (vs ++ v ∷ []) i)
            same
            (eval_node-append R env vs (v ∷ []) node (subst (λ k. Below k node) (sym size) below)
              ∙ e
              ∙ sym (get_elem?-push vs v)
              ∙ ap (get_elem? (vs ++ v ∷ [])) (size ∙ sym last))
    ],
  )

  -- Adding a node whose operands are ids of a well-formed graph with room for one more id: both graphs
  -- evaluate, the values of the new one extend those of the old one, and the value at the returned id
  -- is that of the node at the old values.
  pub eval_nodes-add :
      (env : Env R) (g : Graph R) (node : Node)
      → IsHashConsed g
      → length g.nodes < 2 ^ 32
      → Below (length g.nodes) node
      → (vs : List R.F) × (ws : List R.F) × (eval_nodes R env [] g.nodes ≡ some vs)
        × (eval_nodes R env [] (add R g node).0.nodes ≡ some (vs ++ ws))
        × (get_elem? (vs ++ ws) (add R g node).1 ≡ eval_node R (get_elem? vs) env node)
  eval_nodes-add env g node h lt below =
      let (vs, runs, sol) = eval_nodes_total R env g.nodes h.ordered in
      elim (Option-cases (dedup_get node g.dedup)) [
        | inl fresh ↦
            let (v, e) =
              eval_node_total R env vs node (subst (λ k. Below k node) (sym sol.0) below) in
            (
              vs,
              v ∷ [],
              runs,
              subst (λ r. eval_nodes R env [] r.0.nodes ≡ some (vs ++ v ∷ []))
                  (sym (add_fresh R g node fresh lt))
                  (eval_nodes-eq-some R env (g.nodes ++ node ∷ []) (vs ++ v ∷ [])
                    (push-IsHashConsed R g node h fresh lt below).ordered
                    (Solves-push env vs v g.nodes node h.ordered below sol e)),
              subst (λ r. get_elem? (vs ++ v ∷ []) r.1 ≡ eval_node R (get_elem? vs) env node)
                  (sym (add_fresh R g node fresh lt))
                  (ap (get_elem? (vs ++ v ∷ [])) (sym sol.0) ∙ get_elem?-push vs v ∙ sym e),
            )
        | inr (id, known) ↦ (
          vs,
          [],
          runs,
          subst (λ r. eval_nodes R env [] r.0.nodes ≡ some (vs ++ []))
              (sym (add_found R g node id known)) (runs ∙ ap some (sym (append-nil vs))),
          subst (λ r. get_elem? (vs ++ []) r.1 ≡ eval_node R (get_elem? vs) env node)
              (sym (add_found R g node id known))
              (ap (λ l. get_elem? l id) (append-nil vs)
                ∙ sym (sol.1 id node (h.found node id known))),
        )
      ]

  add_keeps :
      (g : Graph R) (node : Node)
      → ((add R g node).0.outputs ≡ g.outputs) × ((add R g node).0.signature ≡ g.signature)
  unfolding add
  add_keeps g node = elim (Option-cases (dedup_get node g.dedup)) [
    | inl fresh ↦ rw (fresh, add) (refl, refl)
    | inr (id, known) ↦ rw (known, add) (refl, refl)
  ]

  -- Adding a node whose operands are ids of a well-formed graph with room for one more id leaves what
  -- `interpret` returns unchanged.
  pub interpret-add :
      (g : Graph R) (node : Node) (inputs : List (List R.F)) (params : List R.F)
      → IsHashConsed g
      → length g.nodes < 2 ^ 32
      → Below (length g.nodes) node
      → interpret R (add R g node).0 inputs params ≡ interpret R g inputs params
  interpret-add g node inputs params h lt below =
      let (vs, ws, before, after, value) =
        eval_nodes-add (env_of R g inputs params) g node h lt below in
      let size = (eval_nodes-Solves R (env_of R g inputs params) g.nodes vs h.ordered before).0 in
      interpret-congr R g (add R g node).0 inputs params vs (vs ++ ws) (add_keeps g node).1 before
        after
        (ap (read_all R (get_elem? (vs ++ ws))) (add_keeps g node).0
          ∙ read_all-congr R (env_of R g inputs params) (get_elem? vs) (get_elem? (vs ++ ws))
              g.outputs
              (All-map (λ o p. get_elem?-append vs ws o (omega arith)) g.outputs
                h.outputs_in_range))
