-- ===== src/Optimize/CanonicalSound.antt =====
-- ssa/optimize.rs: `insert_canonical` gives an id at which the graph has the value of the node.
use mathlib.Core.List.{append-nil}
use fastsim.Common.{◌<◌, ◌^◌, ◌≡◌, sym, ap, ◌∙◌, List, [], ◌++◌, some, some-inj, length, get_elem?}
use fastsim.F64.{F64}
use fastsim.F64.Laws.{IeeeLaws}
use fastsim.Graph.Node.{Node, NodeId, children}
use fastsim.Graph.Build.{Graph, add, constant}
use fastsim.Graph.Eval.{Env, eval_node, eval_nodes}
use fastsim.Graph.Meaning.Values.{Below, eval_nodes_total}
use fastsim.Graph.HashCons.{IsHashConsed, add-IsHashConsed}
use fastsim.Graph.AddValue.{eval_nodes-add}
use fastsim.Optimize.RoundSound.{IsHashConsed-IsValued}
use fastsim.Optimize.Canonical.{Choice, folded, known, kept, choose, place, insert_canonical}
use fastsim.Optimize.FoldChoice.{Chooses}
use fastsim.Optimize.ChoiceSound.{choose_sound}

module _ (R : F64) (env : Env R) (ieee : IeeeLaws R) (g : Graph R) (h : IsHashConsed g)
    (room : length g.nodes < 2 ^ 32) where
  -- A graph that extends `g`, with an id at which it has the value `v`.
  abbrev pub Gives : List R.F → R.F → Graph R × NodeId → Type 0
  Gives vs v r =
      (ws : List R.F) × (eval_nodes R env [] r.0.nodes ≡ some (vs ++ ws))
      × (get_elem? (vs ++ ws) r.1 ≡ some v)
      × IsHashConsed r.0

  -- Adding a node of the value `v`.
  pub add-Gives :
      (vs : List R.F) (v : R.F) (n : Node)
      → eval_nodes R env [] g.nodes ≡ some vs
      → Below (length g.nodes) n
      → eval_node R (get_elem? vs) env n ≡ some v
      → Gives vs v (add R g n)
  add-Gives vs v n runs below e =
      let (us, ws, before, after, at) = eval_nodes-add R env g n h room below in
      let same : us ≡ vs = some-inj (sym before ∙ runs) in
      (
        ws,
        after ∙ ap (λ l. some (l ++ ws)) same,
        ap (λ l. get_elem? (l ++ ws) (add R g n).1) (sym same)
            ∙ at
            ∙ ap (λ l. eval_node R (get_elem? l) env n) same
            ∙ e,
        add-IsHashConsed R g n h room below,
      )

  place-Gives :
      (vs : List R.F) (v : R.F) (c : Choice R.F)
      → eval_nodes R env [] g.nodes ≡ some vs
      → Chooses R env vs g v c
      → Gives vs v (place R g c)
  unfolding place constant eval_node children
  place-Gives vs v (folded r) runs e =
      add-Gives vs v (Node.const (R.to_bits r)) runs tt (ap some (ieee.from_bits-to_bits r ∙ e))
  place-Gives vs v (known id) runs (lt, e) =
      ([], runs ∙ ap some (sym (append-nil vs)), ap (λ l. get_elem? l id) (append-nil vs) ∙ e, h)
  place-Gives vs v (kept n) runs (below, e) = add-Gives vs v n runs below e

  -- In IEEE arithmetic, inserting a node whose operands are ids of a well-formed graph with room for
  -- one more id: the new graph is well-formed, its values extend those of the old one, and the value at
  -- the returned id is that of the node, whatever is swapped, folded or left out.
  pub insert_canonical_sound :
      (node : Node)
      → Below (length g.nodes) node
      → (vs : List R.F) × (ws : List R.F) × (eval_nodes R env [] g.nodes ≡ some vs)
        × (eval_nodes R env [] (insert_canonical R g node).0.nodes ≡ some (vs ++ ws))
        × (get_elem? (vs ++ ws) (insert_canonical R g node).1 ≡ eval_node R (get_elem? vs) env node)
        × IsHashConsed (insert_canonical R g node).0
  unfolding insert_canonical
  insert_canonical_sound node below =
      let (vs, runs, _) = eval_nodes_total R env g.nodes h.ordered in
      let (v, e, chosen) =
        choose_sound R env vs g ieee (IsHashConsed-IsValued R g env vs h runs) node below in
      let (ws, after, at, good) = place-Gives vs v (choose R g node) runs chosen in
      (vs, ws, runs, after, at ∙ sym e, good)
