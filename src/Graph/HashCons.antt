-- ===== src/Graph/HashCons.antt =====
-- ssa/graph.rs: the invariant of hash-consing, which `add` keeps, and what `add` does to the values.
use fastsim.Common.{
  ℕ, zero, suc, ◌<◌, ◌≤◌, ◌^◌, ◌≡◌, refl, sym, ap, subst, ◌∙◌, List, [], ◌∷◌, ◌++◌, none, some, All,
  All-map, length, length-push, get_elem?, get_elem?-append, get_elem?-push, lt-length,
  Option-cases, ◌⊎◌, ◌≢◌, inl, inr, some-inj, none≢some, arith,
}
use fastsim.F64.{F64}
use fastsim.Graph.Node.{Node, NodeId, Node-discrete}
use fastsim.Graph.Signature.{InputSignature}
use fastsim.Graph.Build.{Graph, new, add, dedup_get, Dedup, as_u32}
use fastsim.Graph.Meaning.Values.{Below, IsOrdered}

-- The map `dedup` is the inverse of the node array, the operands stand before their users, and the
-- ids fit a `u32`.
pub record IsHashConsed {R : F64} (g : Graph R) : Type 0 where
  pub ordered : IsOrdered g.nodes
  pub outputs_in_range : All (λ o. o < length g.nodes) g.outputs
  pub found :
      (n : Node) (id : NodeId) → dedup_get n g.dedup ≡ some id → get_elem? g.nodes id ≡ some n
  pub indexed :
      (n : Node) (id : NodeId) → get_elem? g.nodes id ≡ some n → dedup_get n g.dedup ≡ some id
  pub fits : length g.nodes ≤ 2 ^ 32

-- A pushed node is the last one, and the others keep their ids.
pub push_cases :
    {A : Type 0} (xs : List A) (x y : A) (i : ℕ)
    → get_elem? (xs ++ x ∷ []) i ≡ some y
    → (get_elem? xs i ≡ some y) ⊎ ((i ≡ length xs) × (x ≡ y))
push_cases [] x y zero e = inr (refl, some-inj e)
push_cases [] x y (suc i) e = cc
push_cases (z ∷ xs) x y zero e = inl e
push_cases (z ∷ xs) x y (suc i) e = ground (arith, push_cases xs x y i e)

module _ (R : F64) where
  pub new-IsHashConsed : (sig : InputSignature) → IsHashConsed (new R sig)
  unfolding new dedup_get
  new-IsHashConsed sig = record {
    ordered = λ i n e. cc;
    outputs_in_range = tt;
    found = λ n id e. cc;
    indexed = λ n id e. cc;
    fits = omega arith;
  }

  dedup_get_self : (n : Node) (id : NodeId) (d : Dedup) → dedup_get n ((n, id) ∷ d) ≡ some id
  unfolding dedup_get
  dedup_get_self n id d =
      elim (Node-discrete n n)
        as (λ t. (elim t [ yes _ ↦ some id | no _ ↦ dedup_get n d ]) ≡ some id) [
          | yes _ ↦ refl
          | no ne ↦ absurd (ne refl)
        ]

  dedup_get_ne :
      (n m : Node) (id : NodeId) (d : Dedup) → n ≢ m → dedup_get n ((m, id) ∷ d) ≡ dedup_get n d
  unfolding dedup_get
  dedup_get_ne n m id d ne =
      elim (Node-discrete n m)
        as (λ t. (elim t [ yes _ ↦ some id | no _ ↦ dedup_get n d ]) ≡ dedup_get n d) [
          | yes e ↦ absurd (ne e)
          | no _ ↦ refl
        ]

  -- The graph with a fresh node.
  abbrev pub push : Graph R → Node → Graph R
  push g node = record g { dedup = (node, length g.nodes) ∷ g.dedup; nodes = g.nodes ++ node ∷ [] }

  pub add_found :
      (g : Graph R) (node : Node) (id : NodeId)
      → dedup_get node g.dedup ≡ some id
      → add R g node ≡ (g, id)
  unfolding add
  add_found g node id e = rw (e, add)

  pub add_fresh :
      (g : Graph R) (node : Node)
      → dedup_get node g.dedup ≡ none
      → length g.nodes < 2 ^ 32
      → add R g node ≡ (push g node, length g.nodes)
  unfolding add
  add_fresh g node e lt =
      let cast : as_u32 (length g.nodes) ≡ length g.nodes = omega arith in
      rw (e, add)
        (ap (λ id. (record g { dedup = (node, id) ∷ g.dedup; nodes = g.nodes ++ node ∷ [] }, id))
          cast)

  pub push-IsHashConsed :
      (g : Graph R) (node : Node)
      → IsHashConsed g
      → dedup_get node g.dedup ≡ none
      → length g.nodes < 2 ^ 32
      → Below (length g.nodes) node
      → IsHashConsed (push g node)
  push-IsHashConsed g node h fresh lt below = record {
    ordered = λ i n e. elim (push_cases g.nodes node n i e) [
      | inl old ↦ h.ordered i n old
      | inr (at, same) ↦ subst (λ k. Below k n) (sym at) (subst (Below (length g.nodes)) same below)
    ];
    outputs_in_range =
        All-map (λ o p. omega (arith, length-push g.nodes node)) g.outputs h.outputs_in_range;
    found = λ n id e. elim (Node-discrete n node) [
      | yes same ↦
          let at = some-inj (
            sym (dedup_get_self node (length g.nodes) g.dedup)
            ∙ subst (λ m. dedup_get m ((node, length g.nodes) ∷ g.dedup) ≡ some id) same e) in
          subst (λ j. get_elem? (g.nodes ++ node ∷ []) j ≡ some n) at
            (get_elem?-push g.nodes node ∙ ap some (sym same))
      | no other ↦
          let old = h.found n id (sym (dedup_get_ne n node (length g.nodes) g.dedup other) ∙ e) in
          get_elem?-append g.nodes (node ∷ []) id (lt-length g.nodes id old) ∙ old
    ];
    indexed = λ n id e. elim (push_cases g.nodes node n id e) [
      | inl old ↦
          let known = h.indexed n id old in
          dedup_get_ne n node (length g.nodes) g.dedup
            (λ same. none≢some (sym fresh ∙ subst (λ m. dedup_get m g.dedup ≡ some id) same known))
          ∙ known
      | inr (at, same) ↦
          subst (λ m. dedup_get m ((node, length g.nodes) ∷ g.dedup) ≡ some id) same
            (dedup_get_self node (length g.nodes) g.dedup ∙ ap some (sym at))
    ];
    fits = omega (arith, length-push g.nodes node);
  }

  -- Adding a node whose operands are ids of the graph, with room for one more id, keeps the graph
  -- well-formed.
  pub add-IsHashConsed :
      (g : Graph R) (node : Node)
      → IsHashConsed g
      → length g.nodes < 2 ^ 32
      → Below (length g.nodes) node
      → IsHashConsed (add R g node).0
  add-IsHashConsed g node h lt below = elim (Option-cases (dedup_get node g.dedup)) [
    | inl fresh ↦
        subst (λ r. IsHashConsed r.0) (sym (add_fresh g node fresh lt))
          (push-IsHashConsed g node h fresh lt below)
    | inr (id, known) ↦ subst (λ r. IsHashConsed r.0) (sym (add_found g node id known)) h
  ]

  -- The returned id is that of the node.
  pub get_elem?-add :
      (g : Graph R) (node : Node)
      → IsHashConsed g
      → length g.nodes < 2 ^ 32
      → get_elem? (add R g node).0.nodes (add R g node).1 ≡ some node
  get_elem?-add g node h lt = elim (Option-cases (dedup_get node g.dedup)) [
    | inl fresh ↦
        subst (λ r. get_elem? r.0.nodes r.1 ≡ some node) (sym (add_fresh g node fresh lt))
          (get_elem?-push g.nodes node)
    | inr (id, known) ↦
        subst (λ r. get_elem? r.0.nodes r.1 ≡ some node) (sym (add_found g node id known))
          (h.found node id known)
  ]

  -- Adding a node twice to a well-formed graph with room for one more id returns the same id, and the
  -- second time changes nothing.
  add-add :
      (g : Graph R) (node : Node)
      → IsHashConsed g
      → length g.nodes < 2 ^ 32
      → Below (length g.nodes) node
      → add R (add R g node).0 node ≡ add R g node
  add-add g node h lt below = add_found (add R g node).0 node (add R g node).1 (
      (add-IsHashConsed g node h lt below).indexed node (add R g node).1
        (get_elem?-add g node h lt))
