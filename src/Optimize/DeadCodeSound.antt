-- ===== src/Optimize/DeadCodeSound.antt =====
-- ssa/optimize.rs: `dead_code_elimination` keeps what the graph evaluates to.
use mathlib.Core.List.{map}
use fastsim.Common.{
  ℕ, suc, ◌<◌, ◌≡◌, refl, sym, ap, ap₂, subst, ◌∙◌, ◌↔◌, Bool, true, false, Bool-cases, List, [],
  ◌∷◌, some, ◌>>=◌, inl, inr, All, All-map, Mem, length, lt-length, get_elem?, get_or, ◌==◌, arith,
}
use fastsim.F64.{F64}
use fastsim.Graph.Node.{Node, NodeId, children, map_children}
use fastsim.Graph.Build.{Graph}
use fastsim.Graph.Eval.{Env, env_of, eval_node, interpret}
use fastsim.Graph.Meaning.Operands.{eval_node-map_children, read_all-map}
use fastsim.Graph.Meaning.Values.{IsOrdered, Below, Solves, eval_nodes_total, eval_nodes-eq-some}
use fastsim.Graph.Meaning.Interpret.{interpret-congr}
use fastsim.Optimize.DeadCode.{
  all_live, remap_from, keep_live, remap_nodes, rebuild_dedup, compact, dead_code_elimination,
}
use fastsim.Optimize.Mark.{Reachable, root, operand, IsLive, reachable-Reachable}
use fastsim.Optimize.Rank.{
  rank, remap_from-rank, length-remap_from, rank_mono, get_elem?-rank, keep_live_inv,
  length-keep_live, remap_ids_total, remap_nodes_total, children-map_children, get_elem?-map_inv,
}

pub All-Mem : (P : ℕ → Type 0) (xs : List ℕ) (c : ℕ) → All P xs → Mem c xs → P c
All-Mem P [] c h m = elim m [ ]
All-Mem P (x ∷ xs) c h (inl e) = subst P (sym e) h.0
All-Mem P (x ∷ xs) c h (inr m) = All-Mem P xs c h.1 m

pub Mem-All : (P : ℕ → Type 0) (xs : List ℕ) → ((c : ℕ) → Mem c xs → P c) → All P xs
Mem-All P [] h = tt
Mem-All P (x ∷ xs) h = (h x (inl refl), Mem-All P xs (λ c m. h c (inr m)))

pub All-of-map :
    (P : ℕ → Type 0) (f : ℕ → ℕ) (xs : List ℕ) → All (λ c. P (f c)) xs → All P (map f xs)
All-of-map P f [] h = tt
All-of-map P f (x ∷ xs) h = (h.0, All-of-map P f xs h.1)

All-of-get :
    {A : Type 0} (P : A → Type 0) (xs : List A)
    → ((i : ℕ) (x : A) → get_elem? xs i ≡ some x → P x)
    → All P xs
All-of-get P [] h = tt
All-of-get P (x ∷ xs) h = (h 0 x refl, All-of-get P xs (λ i y e. h (suc i) y e))

module _ (nodes : List Node) (live : List Bool) where
  -- A set of nodes with which their operands are kept.
  pub record IsClosed : Type 0 where
    pub size : length live ≡ length nodes
    pub closed :
        (i : ℕ) (n : Node)
        → IsLive live i
        → get_elem? nodes i ≡ some n
        → All (λ c. (c < i) × IsLive live c) (children n)

  abbrev renamed : NodeId → NodeId
  renamed c = get_or (remap_from 0 live) c 0

  -- The nodes after the renumbering.
  abbrev kept : List Node
  kept = map (map_children renamed) (keep_live live nodes)

  renamed-rank : (c : ℕ) → IsLive live c → renamed c ≡ rank live c
  renamed-rank c l = remap_from-rank 0 live c l ∙ omega arith

  -- Each node of the new graph is a node of the old one, renumbered.
  kept_inv :
      IsClosed
      → (j : ℕ) (m : Node) → get_elem? kept j ≡ some m
      → (i : ℕ) × (n : Node) × IsLive live i
        × (rank live i ≡ j)
        × (get_elem? nodes i ≡ some n)
        × (map_children renamed n ≡ m)
  kept_inv h j m e =
      let (n, at, same) = get_elem?-map_inv (map_children renamed) (keep_live live nodes) j e in
      let (i, l, r, old) = keep_live_inv live nodes j (sym h.size) at in (i, n, l, r, old, same)

  kept-IsOrdered : IsClosed → IsOrdered kept
  kept-IsOrdered h j m e =
      let (i, n, l, r, old, same) = kept_inv h j m e in
      subst (λ k. Below j k) same
        (subst (All (λ c. c < j)) (sym (children-map_children renamed n)) (
          All-of-map (λ c. c < j) renamed (children n)
            (All-map (λ c p. omega (arith, renamed-rank c p.1, rank_mono live c i p.1 p.0, r))
              (children n) (h.closed i n l old))))

  compact_nodes : IsClosed → remap_nodes (remap_from 0 live) (keep_live live nodes) ≡ some kept
  compact_nodes h = remap_nodes_total (remap_from 0 live) (keep_live live nodes) (
      All-of-get (λ n. All (λ c. c < length (remap_from 0 live)) (children n))
        (keep_live live nodes)
        (λ j n e.
          let (i, l, r, old) = keep_live_inv live nodes j (sym h.size) e in
          All-map
            (λ c p. omega (arith, p.0, lt-length nodes i old, length-remap_from 0 live, h.size))
            (children n) (h.closed i n l old)))

  module _ (R : F64) (env : Env R) (vs : List R.F) (h : IsClosed)
      (sol : Solves R env vs nodes) where
    kept_value :
        (c : ℕ) → IsLive live c → get_elem? (keep_live live vs) (renamed c) ≡ get_elem? vs c
    kept_value c l =
        ap (get_elem? (keep_live live vs)) (renamed-rank c l)
        ∙ get_elem?-rank live vs c (sol.0 ∙ sym h.size) l

    kept-Solves : Solves R env (keep_live live vs) kept
    kept-Solves = (
      length-keep_live live vs nodes sol.0 ∙ sym (length-map (keep_live live nodes)),
      λ j m e.
          let (i, n, l, r, old, same) = kept_inv h j m e in
          ap (eval_node R (get_elem? (keep_live live vs)) env) (sym same)
          ∙ eval_node-map_children R env renamed (get_elem? vs) (get_elem? (keep_live live vs)) n
              (All-map (λ c p. kept_value c p.1) (children n) (h.closed i n l old))
          ∙ sol.1 i n old
          ∙ sym (get_elem?-rank live vs i (sol.0 ∙ sym h.size) l)
          ∙ ap (get_elem? (keep_live live vs)) r,
    )
      where
        length-map : (ns : List Node) → length (map (map_children renamed) ns) ≡ length ns
        length-map [] = refl
        length-map (n ∷ ns) = ap suc (length-map ns)

module _ (R : F64) where
  -- The graph that is compacted to a closed set of nodes with the outputs.
  compact_sound :
      (g : Graph R) (live : List Bool)
      → IsOrdered g.nodes
      → IsClosed g.nodes live
      → All (λ o. (o < length g.nodes) × IsLive live o) g.outputs
      → (g' : Graph R) × (compact R g live ≡ some g')
        × IsOrdered g'.nodes
        × ((inputs : List (List R.F)) (params : List R.F)
            → interpret R g' inputs params ≡ interpret R g inputs params)
  unfolding compact
  compact_sound g live ordered h outs =
      let f = λ (c : NodeId). get_or (remap_from 0 live) c 0 in
      let g' : Graph R = record g {
        nodes = map (map_children f) (keep_live live g.nodes);
        outputs = map f g.outputs;
        dedup = rebuild_dedup 0 (map (map_children f) (keep_live live g.nodes)) [];
      } in
      let outputs_total =
        remap_ids_total (remap_from 0 live) g.outputs
          (All-map (λ o p. omega (arith, p.0, length-remap_from 0 live, h.size)) g.outputs outs) in
      (
        g',
        ap₂
            (λ ns os. ns >>= λ nodes. os >>= λ outputs.
              some
                (record g { nodes = nodes; outputs = outputs; dedup = rebuild_dedup 0 nodes [] }))
            (compact_nodes g.nodes live h) outputs_total,
        kept-IsOrdered g.nodes live h,
        λ inputs params.
            let env = env_of R g inputs params in
            let (vs, runs, sol) = eval_nodes_total R env g.nodes ordered in
            interpret-congr R g g' inputs params vs (keep_live live vs) refl runs
              (eval_nodes-eq-some R env g'.nodes (keep_live live vs) (kept-IsOrdered g.nodes live h)
                (kept-Solves g.nodes live R env vs h sol))
              (read_all-map R env f (get_elem? vs) (get_elem? (keep_live live vs)) g.outputs
                (All-map (λ o p. kept_value g.nodes live R env vs h sol o p.1) g.outputs outs)),
      )

  -- The reachable nodes are closed, and have the outputs among them.
  reachable-IsClosed :
      (nodes : List Node) (outputs : List NodeId) (live : List Bool)
      → IsOrdered nodes
      → length live ≡ length nodes
      → ((i : ℕ) → IsLive live i ↔ ((i < length nodes) × Reachable nodes outputs i))
      → IsClosed nodes live
  reachable-IsClosed nodes outputs live ordered size iff = record {
    size = size;
    closed = λ i n l e.
        Mem-All (λ c. (c < i) × IsLive live c) (children n)
          (λ c m.
            let lt = All-Mem (λ k. k < i) (children n) c (ordered i n e) m in
            (
              lt,
              (iff c).1 (omega (arith, lt, lt-length nodes i e), operand n ((iff i).0 l).1 e m),
            ));
  }

  -- In a graph whose operands stand before their users and whose outputs are nodes, the elimination
  -- does not panic, and the new graph is such a graph and evaluates as the old one, at all inputs and
  -- parameters.
  pub interpret-dead_code_elimination :
      (g : Graph R)
      → IsOrdered g.nodes
      → All (λ o. o < length g.nodes) g.outputs
      → (g' : Graph R) × (changed : Bool) × (dead_code_elimination R g ≡ some (g', changed))
        × IsOrdered g'.nodes
        × ((inputs : List (List R.F)) (params : List R.F)
            → interpret R g' inputs params ≡ interpret R g inputs params)
  unfolding dead_code_elimination
  interpret-dead_code_elimination g ordered outs = elim (Bool-cases (length g.nodes == 0)) [
    | inl none_there ↦ (g, false, rw none_there refl, ordered, λ inputs params. refl)
    | inr some_there ↦
        let (live, found, size, iff) = reachable-Reachable g.nodes g.outputs in
        elim (Bool-cases (all_live live)) [
          | inl every ↦
              (g, false, rw (some_there, found, every) refl, ordered, λ inputs params. refl)
          | inr dead ↦
              let (g', made, ordered', same) =
                compact_sound g live ordered
                  (reachable-IsClosed g.nodes g.outputs live ordered size iff)
                  (Mem-All (λ o. (o < length g.nodes) × IsLive live o) g.outputs
                    (λ o m.
                      let lt = All-Mem (λ k. k < length g.nodes) g.outputs o outs m in
                      (lt, (iff o).1 (lt, root m)))) in
              (g', true, rw (some_there, found, dead, made) refl, ordered', same)
        ]
  ]
