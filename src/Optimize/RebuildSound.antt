-- ===== src/Optimize/RebuildSound.antt =====
-- ssa/optimize.rs: the search of `canonicalize_once` ends, and gives the nodes new ids of the same value.
use fastsim.Common.{
  ℕ, zero, suc, ◌+◌, ◌≤◌, ◌<◌, ◌^◌, ◌≡◌, inl, inr, refl, sym, ap, subst, ◌∙◌, Bool, true, false,
  Bool-cases, Option-cases, List, [], ◌∷◌, ◌++◌, some, some-inj, All, All-map, length, length-push,
  get_elem?, get_elem?-total, get_or, set, ◌==◌, arith,
}
use fastsim.F64.{F64}
use fastsim.F64.Laws.{IeeeLaws}
use fastsim.Graph.Node.{Node, NodeId, children, map_children}
use fastsim.Graph.Build.{Graph, add, constant, dedup_get}
use fastsim.Graph.Eval.{Env, eval_node}
use fastsim.Graph.Meaning.Operands.{eval_node-map_children}
use fastsim.Graph.Meaning.Values.{Below, IsOrdered, Solves}
use fastsim.Graph.HashCons.{add_found, add_fresh}
use fastsim.Optimize.Rank.{in_range_of_All, children-map_children}
use fastsim.Optimize.DeadCodeSound.{All-of-map}
use fastsim.Optimize.Canonical.{Choice, folded, known, kept, choose, place, insert_canonical}
use fastsim.Optimize.CanonicalSound.{insert_canonical_sound}
use fastsim.Optimize.Rebuild.{Entry, u32_max, push_all, unvisited_work, remap_node, rebuild}
use fastsim.Optimize.Pending.{Mapped, length-push_all, unvisited_work-set}
use fastsim.Optimize.Rebuilding.{
  IsRebuilding, new_id_in_range, IsRebuilding-pop, visited-Mapped, IsRebuilding-visit,
  IsRebuilding-map,
}

pub All-both : (P Q : ℕ → Type 0) (xs : List ℕ) → All P xs → All Q xs → All (λ c. P c × Q c) xs
All-both P Q [] h k = tt
All-both P Q (x ∷ xs) h k = ((h.0, k.0), All-both P Q xs h.1 k.1)

module _ (R : F64) where
  add_grows :
      (g : Graph R) (node : Node)
      → length g.nodes < 2 ^ 32
      → length (add R g node).0.nodes ≤ suc (length g.nodes)
  add_grows g node room = elim (Option-cases (dedup_get node g.dedup)) [
    | inl fresh ↦
        subst (λ r. length r.0.nodes ≤ suc (length g.nodes)) (sym (add_fresh R g node fresh room))
          (omega (arith, length-push g.nodes node))
    | inr (id, at) ↦
        subst (λ r. length r.0.nodes ≤ suc (length g.nodes)) (sym (add_found R g node id at))
          (omega arith)
  ]

  place_grows :
      (g : Graph R) (c : Choice R.F)
      → length g.nodes < 2 ^ 32
      → length (place R g c).0.nodes ≤ suc (length g.nodes)
  unfolding place constant
  place_grows g (folded r) room = add_grows g (Node.const (R.to_bits r)) room
  place_grows g (known id) room = omega arith
  place_grows g (kept n) room = add_grows g n room

  insert_canonical_grows :
      (g : Graph R) (node : Node)
      → length g.nodes < 2 ^ 32
      → length (insert_canonical R g node).0.nodes ≤ suc (length g.nodes)
  unfolding insert_canonical
  insert_canonical_grows g node room = place_grows g (choose R g node) room

  module _ (ieee : IeeeLaws R) (env : Env R) (nodes : List Node) (outputs : List NodeId)
      (vs : List R.F) (ordered : IsOrdered nodes) (sol : Solves R env vs nodes)
      (bound : length nodes < 2 ^ 32) where
    -- The node on the top of the stack, whose operands have their new ids, is inserted.
    insert_step :
        {g : Graph R} {ws : List R.F} {remap : List NodeId} {visited : List Bool} (id : ℕ)
        (n : Node) {stack : List Entry}
        → get_elem? nodes id ≡ some n
        → (get_or remap id 0 == u32_max) ≡ true
        → IsRebuilding R env nodes outputs vs g ws remap visited ((id, true) ∷ stack)
        → (m : Node) × (remap_node remap n ≡ some m)
          × (us : List R.F) × IsRebuilding R env nodes outputs vs
              (insert_canonical R g m).0
              (ws ++ us)
              (set remap id (insert_canonical R g m).1)
              visited
              stack
    unfolding remap_node
    insert_step {g} {ws} {remap} {visited} id n {stack} at missing h =
        let f = λ (c : NodeId). get_or remap c 0 in
        let m = map_children f n in
        let ready =
          All-both (λ c. c < id) (Mapped remap) (children n) (ordered id n at)
            (h.pending.0 refl n at) in
        let below : Below (length g.nodes) m =
          subst (All (λ c. c < length g.nodes)) (sym (children-map_children f n)) (
            All-of-map (λ c. c < length g.nodes) f (children n)
              (All-map
                (λ c p.
                  new_id_in_range R env nodes outputs vs sol.0 c h (omega (arith, p.0, h.inside.0))
                    p.1)
                (children n) ready)) in
        let room : length g.nodes < 2 ^ 32 = omega (arith, h.room, bound) in
        let (ws', us, runs, after, value, good) =
          insert_canonical_sound R env ieee g h.well_formed room m below in
        let same : ws' ≡ ws = some-inj (sym runs ∙ h.runs) in
        let value' : get_elem? (ws ++ us) (insert_canonical R g m).1 ≡ get_elem? vs id =
          ap (λ l. get_elem? (l ++ us) (insert_canonical R g m).1) (sym same)
          ∙ value
          ∙ ap (λ l. eval_node R (get_elem? l) env m) same
          ∙ eval_node-map_children R env f (get_elem? vs) (get_elem? ws) n
              (All-map (λ c p. h.values c (omega (arith, p.0, h.inside.0)) p.1) (children n) ready)
          ∙ sol.1 id n at in
        let (mapped, next) =
          IsRebuilding-map R env nodes outputs vs sol.0 id (insert_canonical R g m).1
            (insert_canonical R g m).0 us bound missing h.inside.0 good
            (after ∙ ap (λ l. some (l ++ us)) same) (insert_canonical_grows g m room) value' h in
        (
          m,
          rw
              (in_range_of_All (length remap) (children n)
                (All-map (λ c p. omega (arith, p.0, h.inside.0, h.remap_size)) (children n) ready))
              refl,
          us,
          IsRebuilding-pop R env nodes outputs vs sol.0 (id, true) mapped next,
        )

    pub rebuild_total :
        (fuel : ℕ) {g : Graph R} {ws : List R.F} {remap : List NodeId} {visited : List Bool}
        (stack : List Entry)
        → IsRebuilding R env nodes outputs vs g ws remap visited stack
        → length stack + unvisited_work visited nodes ≤ fuel
        → (r : Graph R × List NodeId) × (us : List R.F) × (visited' : List Bool) × (rebuild R nodes
              fuel g remap visited stack
            ≡ some r)
          × IsRebuilding R env nodes outputs vs r.0 us r.1 visited' []
    unfolding rebuild
    rebuild_total fuel {g} {ws} {remap} {visited} [] h enough = ((g, remap), ws, visited, refl, h)
    rebuild_total zero (e ∷ stack) h enough = absurd (omega (arith, enough))
    rebuild_total (suc fuel) {g} {ws} {remap} {visited} ((id, true) ∷ stack) h enough =
        let (n, at) = get_elem?-total nodes id h.inside.0 in
        elim (Bool-cases (get_or remap id 0 == u32_max)) [
          | inl missing ↦
              let (m, remapped, us, next) = insert_step id n at missing h in
              let (r, ws', visited', runs, done) =
                rebuild_total fuel stack next (omega (arith, enough)) in
              (r, ws', visited', rw (at, missing, remapped, rebuild) runs, done)
          | inr there ↦
              let (r, ws', visited', runs, done) =
                rebuild_total fuel stack
                  (IsRebuilding-pop R env nodes outputs vs sol.0 (id, true) there h)
                  (omega (arith, enough)) in
              (r, ws', visited', rw (at, there, rebuild) runs, done)
        ]
    rebuild_total (suc fuel) {g} {ws} {remap} {visited} ((id, false) ∷ stack) h enough =
        let (n, at) = get_elem?-total nodes id h.inside.0 in
        elim (Bool-cases (get_or visited id false)) [
          | inl live ↦
              let (r, ws', visited', runs, done) =
                rebuild_total fuel stack
                  (IsRebuilding-pop R env nodes outputs vs sol.0 (id, false)
                    (visited-Mapped R env nodes outputs vs sol.0 id live h) h)
                  (omega (arith, enough)) in
              (r, ws', visited', rw (at, live, rebuild) runs, done)
          | inr fresh ↦
              let counted =
                unvisited_work-set visited nodes id n at (omega (arith, h.visited_size, h.inside.0))
                  fresh in
              let (r, ws', visited', runs, done) =
                rebuild_total fuel (push_all (children n) ((id, true) ∷ stack))
                  (IsRebuilding-visit R env nodes outputs vs sol.0 id n ordered at h)
                  (omega
                    (arith, enough, counted, length-push_all (children n) ((id, true) ∷ stack))) in
              (r, ws', visited', rw (at, fresh, rebuild) runs, done)
        ]
