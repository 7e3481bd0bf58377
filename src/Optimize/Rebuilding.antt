-- ===== src/Optimize/Rebuilding.antt =====
-- ssa/optimize.rs: what holds on the way of the rebuild of a graph.
use fastsim.Common.{
  ℕ, suc, ◌+◌, ◌≤◌, ◌<◌, ◌^◌, ◌≡◌, ◌⊎◌, inl, inr, refl, sym, ap, subst, ◌∙◌, Bool, true, false,
  List, [], ◌∷◌, ◌++◌, some, some-inj, Mem, All, All-map, length, length-set, lt-length, get_elem?,
  get_elem?-total, get_elem?-append, get_or, get_or-set, set, ◌==◌, if◌then◌else◌, ℕ_discrete,
  arith,
}
use fastsim.F64.{F64}
use fastsim.Graph.Node.{Node, NodeId, children}
use fastsim.Graph.Build.{Graph}
use fastsim.Graph.Eval.{Env, eval_nodes}
use fastsim.Graph.Meaning.Values.{IsOrdered, eval_nodes-Solves}
use fastsim.Graph.HashCons.{IsHashConsed}
use fastsim.Optimize.Mark.{IsLive, set-IsLive_inv}
use fastsim.Optimize.DeadCodeSound.{Mem-All}
use fastsim.Optimize.Rebuild.{Entry, u32_max, push_all}
use fastsim.Optimize.Pending.{
  Mapped, unmapped, Waits, Waits-push_all, Waits-IsUnder, Descends, Descends-push_all, Pending,
  Pending-map, Pending-push_all, unmapped-set, IsUnder-trans,
}

pub All-push_all :
    (n : ℕ) (cs : List NodeId) (stack : List Entry)
    → All (λ c. c < n) cs
    → All (λ (e : Entry). e.0 < n) stack
    → All (λ (e : Entry). e.0 < n) (push_all cs stack)
unfolding push_all
All-push_all n [] stack h k = k
All-push_all n (c ∷ cs) stack h k = (h.0, All-push_all n cs stack h.1 k)

module _ (R : F64) (env : Env R) (nodes : List Node) (outputs : List NodeId) (vs : List R.F) where
  -- A new id has the value of the old one, a visited node has its new id or waits, and the nodes of
  -- the new graph are not more than the ids that are given out.
  pub record IsRebuilding (g : Graph R) (ws : List R.F) (remap : List NodeId) (visited : List Bool)
      (stack : List Entry) : Type 0 where
    pub well_formed : IsHashConsed g
    pub runs : eval_nodes R env [] g.nodes ≡ some ws
    pub remap_size : length remap ≡ length nodes
    pub visited_size : length visited ≡ length nodes
    pub room : length g.nodes + unmapped remap ≤ length nodes
    pub values :
        (i : ℕ)
        → i < length nodes
        → Mapped remap i
        → get_elem? ws (get_or remap i 0) ≡ get_elem? vs i
    pub waiting : (i : ℕ) → IsLive visited i → Mapped remap i ⊎ Waits i stack
    pub pending : Pending nodes outputs (Mapped remap) stack
    pub descends : Descends stack
    pub inside : All (λ e. e.0 < length nodes) stack

  module _ (size : length vs ≡ length nodes) where
    -- A new id is an id of the new graph.
    pub new_id_in_range :
        {g : Graph R} {ws : List R.F} {remap : List NodeId} {visited : List Bool}
        {stack : List Entry} (i : ℕ)
        → IsRebuilding g ws remap visited stack
        → i < length nodes
        → Mapped remap i
        → get_or remap i 0 < length g.nodes
    new_id_in_range {g} {ws} {remap} i h lt mapped =
        let (v, there) = get_elem?-total vs i (omega (arith, size, lt)) in
        let same = (eval_nodes-Solves R env g.nodes ws h.well_formed.ordered h.runs).0 in
        omega (arith, same, lt-length ws (get_or remap i 0) (h.values i lt mapped ∙ there))

    -- The entry on the top of the stack has its new id.
    pub IsRebuilding-pop :
        {g : Graph R} {ws : List R.F} {remap : List NodeId} {visited : List Bool} (e : Entry)
        {stack : List Entry}
        → Mapped remap e.0
        → IsRebuilding g ws remap visited (e ∷ stack)
        → IsRebuilding g ws remap visited stack
    IsRebuilding-pop {g} {ws} {remap} {visited} e {stack} mapped h = record {
      well_formed = h.well_formed;
      runs = h.runs;
      remap_size = h.remap_size;
      visited_size = h.visited_size;
      room = h.room;
      values = h.values;
      waiting = λ i l. elim (h.waiting i l) [
        | inl m ↦ inl m
        | inr (inl w) ↦ inl (subst (Mapped remap) (sym w.0) mapped)
        | inr (inr w) ↦ inr w
      ];
      pending =
          Pending-map nodes outputs (λ c. Mapped remap c ⊎ (c ≡ e.0)) (Mapped remap) stack
            (λ c p. elim p [ inl m ↦ m | inr same ↦ subst (Mapped remap) (sym same) mapped ])
            h.pending.1;
      descends = h.descends.1;
      inside = h.inside.1;
    }

    -- A node that is visited and on the top of the stack again has its new id.
    pub visited-Mapped :
        {g : Graph R} {ws : List R.F} {remap : List NodeId} {visited : List Bool} (id : ℕ)
        {stack : List Entry}
        → IsLive visited id
        → IsRebuilding g ws remap visited ((id, false) ∷ stack)
        → Mapped remap id
    visited-Mapped id {stack} live h = elim (h.waiting id live) [
      | inl m ↦ m
      | inr (inl w) ↦ cc
      | inr (inr w) ↦ absurd (Waits-IsUnder id stack w h.descends.0)
    ]

    -- A node is visited: it waits under its operands.
    pub IsRebuilding-visit :
        {g : Graph R} {ws : List R.F} {remap : List NodeId} {visited : List Bool} (id : ℕ)
        (n : Node) {stack : List Entry}
        → IsOrdered nodes
        → get_elem? nodes id ≡ some n
        → IsRebuilding g ws remap visited ((id, false) ∷ stack)
        → IsRebuilding g ws remap (set visited id true) (push_all (children n) ((id, true) ∷ stack))
    IsRebuilding-visit {g} {ws} {remap} {visited} id n {stack} ordered at h = record {
      well_formed = h.well_formed;
      runs = h.runs;
      remap_size = h.remap_size;
      visited_size = length-set visited id true ∙ h.visited_size;
      room = h.room;
      values = h.values;
      waiting = λ i l.
          elim (set-IsLive_inv visited id (omega (arith, h.visited_size, h.inside.0)) i l) [
            | inl same ↦ inr (Waits-push_all i (children n) ((id, true) ∷ stack) (inl (same, refl)))
            | inr old ↦ elim (h.waiting i old) [
              | inl m ↦ inl m
              | inr (inl w) ↦ cc
              | inr (inr w) ↦ inr (Waits-push_all i (children n) ((id, true) ∷ stack) (inr w))
            ]
          ];
      pending = Pending-push_all nodes outputs (Mapped remap) (children n) ((id, true) ∷ stack) (
        λ b m there.
            subst (λ k. All (λ c. Mapped remap c ⊎ Mem c (children n)) (children k))
              (some-inj (sym at ∙ there))
              (Mem-All (λ c. Mapped remap c ⊎ Mem c (children n)) (children n) (λ c m. inr m)),
        Pending-map nodes outputs (λ c. Mapped remap c ⊎ (c ≡ id))
            (λ c. (Mapped remap c ⊎ Mem c (children n)) ⊎ (c ≡ id)) stack
            (λ c p. elim p [ inl m ↦ inl (inl m) | inr same ↦ inr same ]) h.pending.1,
      );
      descends =
          Descends-push_all (children n) ((id, true) ∷ stack)
            (All-map (λ c (lt : c < id). (λ b. lt, IsUnder-trans c id stack lt h.descends.0))
              (children n) (ordered id n at))
            h.descends;
      inside =
          All-push_all (length nodes) (children n) ((id, true) ∷ stack)
            (All-map (λ c (lt : c < id). omega (arith, lt, h.inside.0)) (children n)
              (ordered id n at))
            h.inside;
    }

    module _ {g : Graph R} {ws : List R.F} {remap : List NodeId} {visited : List Bool}
        {stack : List Entry} (id k : ℕ) (g' : Graph R) (us : List R.F) where
      -- A node gets the new id `k`, where the new graph has its value.
      pub IsRebuilding-map :
          length nodes < 2 ^ 32
          → (get_or remap id 0 == u32_max) ≡ true
          → id < length nodes
          → IsHashConsed g'
          → eval_nodes R env [] g'.nodes ≡ some (ws ++ us)
          → length g'.nodes ≤ suc (length g.nodes)
          → get_elem? (ws ++ us) k ≡ get_elem? vs id
          → IsRebuilding g ws remap visited stack
          → Mapped (set remap id k) id × IsRebuilding g' (ws ++ us) (set remap id k) visited stack
      IsRebuilding-map bound missing lt good after grown value h = (
        mapped id (inl refl),
        record {
          well_formed = good;
          runs = after;
          remap_size = length-set remap id k ∙ h.remap_size;
          visited_size = h.visited_size;
          room = omega (arith, grown, h.room, unmapped-set remap id k inside missing small);
          values = λ i here m. elim (ℕ_discrete i id) [
            | yes same ↦
                ap (get_elem? (ws ++ us)) (read i ∙ ground (arith, same))
                ∙ value
                ∙ ap (get_elem? vs) (sym same)
            | no other ↦
                let kept : get_or (set remap id k) i 0 ≡ get_or remap i 0 =
                  read i ∙ ground (arith, other) in
                let old = subst (λ j. (j == u32_max) ≡ false) kept m in
                ap (get_elem? (ws ++ us)) kept
                ∙ get_elem?-append ws us (get_or remap i 0)
                    (omega (arith, new_id_in_range i h here old, before))
                ∙ h.values i here old
          ];
          waiting = λ i l. elim (h.waiting i l) [ inl m ↦ inl (mapped i (inr m)) | inr w ↦ inr w ];
          pending =
              Pending-map nodes outputs (Mapped remap) (Mapped (set remap id k)) stack
                (λ c m. mapped c (inr m)) h.pending;
          descends = h.descends;
          inside = h.inside;
        },
      )
        where
          inside : id < length remap
          inside = omega (arith, lt, h.remap_size)

          before : length ws ≡ length g.nodes
          before = (eval_nodes-Solves R env g.nodes ws h.well_formed.ordered h.runs).0

          small : k < u32_max
          small =
              let (v, there) = get_elem?-total vs id (omega (arith, size, lt)) in
              let same = (eval_nodes-Solves R env g'.nodes (ws ++ us) good.ordered after).0 in
              omega (
                arith,
                same,
                lt-length (ws ++ us) k (value ∙ there),
                grown,
                h.room,
                bound,
                unmapped-set remap id 0 inside missing (omega arith),
              )

          read : (i : ℕ) → get_or (set remap id k) i 0 ≡ (if id == i then k else get_or remap i 0)
          read i = get_or-set remap id i k 0 inside

          mapped : (i : ℕ) → (i ≡ id) ⊎ Mapped remap i → Mapped (set remap id k) i
          mapped i m = ap (λ j. j == u32_max) (read i) ∙ ground (arith, m, small)
