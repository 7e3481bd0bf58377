-- ===== src/Optimize/Fixpoint.antt =====
-- ssa/optimize.rs: a pass of `canonicalize_once` that reports no change has reached a fixed point.
use fastsim.Common.{
  ◌≡◌, refl, sym, ap, ap₂, ◌∙◌, true, false, not, ◌&&◌, ◌||◌, Bool-cases, inl, inr, List, [], ◌∷◌,
  some, some-inj, ◌>>=◌, >>=-eq-some, subst, length, ◌==◌, ==_iff, arith,
}
use fastsim.F64.{F64}
use fastsim.Graph.Node.{Node, NodeId, Node-discrete}
use fastsim.Graph.Build.{Graph}
use fastsim.Optimize.DeadCode.{remap_ids}
use fastsim.Optimize.Rebuild.{rebuild_all, emptied, canonicalize_once, same_nodes, same_ids}

same_head : (m n : Node) (ms ns : List Node) → same_nodes (m ∷ ms) (n ∷ ns) ≡ true → m ≡ n
unfolding same_nodes
same_head m n ms ns =
    elim (Node-discrete m n)
      as (λ t. (elim t [ yes _ ↦ true | no _ ↦ false ] && same_nodes ms ns) ≡ true → m ≡ n) [
        | yes e ↦ λ h. e
        | no ne ↦ λ h. cc
      ]

same_tail :
    (m n : Node) (ms ns : List Node) → same_nodes (m ∷ ms) (n ∷ ns) ≡ true → same_nodes ms ns ≡ true
unfolding same_nodes
same_tail m n ms ns =
    elim (Node-discrete m n)
      as (λ t.
        (elim t [ yes _ ↦ true | no _ ↦ false ] && same_nodes ms ns) ≡ true
        → same_nodes ms ns ≡ true) [ yes e ↦ λ h. h | no ne ↦ λ h. cc ]

same_nodes-≡ : (ms ns : List Node) → same_nodes ms ns ≡ true → ms ≡ ns
unfolding same_nodes
same_nodes-≡ [] [] h = refl
same_nodes-≡ [] (n ∷ ns) h = cc
same_nodes-≡ (m ∷ ms) [] h = cc
same_nodes-≡ (m ∷ ms) (n ∷ ns) h = elim (Node-discrete m n) [
  | yes e ↦ ap₂ (λ a l. a ∷ l) e (same_nodes-≡ ms ns (same_tail m n ms ns h))
  | no ne ↦ absurd (ne (same_head m n ms ns h))
]

same_ids-≡ : (xs ys : List NodeId) → same_ids xs ys ≡ true → xs ≡ ys
unfolding same_ids
same_ids-≡ [] [] h = refl
same_ids-≡ [] (y ∷ ys) h = cc
same_ids-≡ (x ∷ xs) [] h = cc
same_ids-≡ (x ∷ xs) (y ∷ ys) h = elim (Bool-cases (x == y)) [
  | inl e ↦ ap₂ (λ a l. a ∷ l) ((==_iff x y).0 e) (same_ids-≡ xs ys ground (arith, h, e))
  | inr ne ↦ ground (arith, h, ne)
]

module _ (R : F64) where
  module _ (g : Graph R) (r : Graph R × List NodeId) (outs : List NodeId) where
    abbrev rebuilt : Graph R
    rebuilt = record g { nodes = r.0.nodes; dedup = r.0.dedup; outputs = outs }

    -- The rebuild does not read the map `dedup` of the old graph.
    rebuild_all-rebuilt :
        r.0.nodes ≡ g.nodes → outs ≡ g.outputs → rebuild_all R rebuilt ≡ rebuild_all R g
    unfolding rebuild_all emptied
    rebuild_all-rebuilt p q =
        ap₂ (λ ns os. rebuild_all R (record g { nodes = ns; dedup = r.0.dedup; outputs = os })) p q

    canonicalize_once-rebuilt :
        (length g.nodes == 0) ≡ false
        → rebuild_all R g ≡ some r
        → remap_ids r.1 g.outputs ≡ some outs
        → (not (same_nodes r.0.nodes g.nodes) || not (same_ids outs g.outputs)) ≡ false
        → (rebuilt.nodes ≡ g.nodes)
          × (rebuilt.outputs ≡ g.outputs)
          × (canonicalize_once R rebuilt ≡ some (rebuilt, false))
    unfolding canonicalize_once
    canonicalize_once-rebuilt there found mapped unchanged =
        let p = same_nodes-≡ r.0.nodes g.nodes ground (arith, unchanged) in
        let q = same_ids-≡ outs g.outputs ground (arith, unchanged) in
        let there' = ap (λ ns. length ns == 0) p ∙ there in
        let found' = rebuild_all-rebuilt p q ∙ found in
        let mapped' = ap (remap_ids r.1) q ∙ mapped in
        let unchanged' =
          ap₂ (λ ns os. not (same_nodes r.0.nodes ns) || not (same_ids outs os)) p q ∙ unchanged in
        (p, q, rw (there', found', mapped') (ap (λ b. some (rebuilt, b)) unchanged'))

  canonicalize_once_nonempty :
      (g : Graph R)
      → (length g.nodes == 0) ≡ false
      → canonicalize_once R g ≡ (
          rebuild_all R g >>= λ r. remap_ids r.1 g.outputs >>= λ outs.
          some
            (rebuilt g r outs, not (same_nodes r.0.nodes g.nodes) || not (same_ids outs g.outputs)))
  unfolding canonicalize_once
  canonicalize_once_nonempty g there = rw there refl

  -- A pass that reports no change has left the nodes and the outputs as they were, and a further pass
  -- reports no change either and returns the same graph.
  pub canonicalize_once_idem :
      (g g' : Graph R)
      → canonicalize_once R g ≡ some (g', false)
      → (g'.nodes ≡ g.nodes)
        × (g'.outputs ≡ g.outputs)
        × (canonicalize_once R g' ≡ some (g', false))
  unfolding canonicalize_once
  canonicalize_once_idem g g' h = elim (Bool-cases (length g.nodes == 0)) [
    | inl none_there ↦
        let stays : canonicalize_once R g ≡ some (g, false) = rw none_there refl in
        let same : g ≡ g' = ap (λ p. p.0) (some-inj (sym stays ∙ h)) in
        subst
          (λ k.
            (k.nodes ≡ g.nodes)
            × (k.outputs ≡ g.outputs)
            × (canonicalize_once R k ≡ some (k, false)))
          same (refl, refl, stays)
    | inr there ↦
        let (r, found, rest) =
          >>=-eq-some (rebuild_all R g) _ (sym (canonicalize_once_nonempty g there) ∙ h) in
        let (outs, mapped, last) = >>=-eq-some (remap_ids r.1 g.outputs) _ rest in
        let same : rebuilt g r outs ≡ g' = ap (λ p. p.0) (some-inj last) in
        subst
          (λ k.
            (k.nodes ≡ g.nodes)
            × (k.outputs ≡ g.outputs)
            × (canonicalize_once R k ≡ some (k, false)))
          same
          (canonicalize_once-rebuilt g r outs there found mapped (ap (λ p. p.1) (some-inj last)))
  ]
