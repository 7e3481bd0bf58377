-- ===== src/Optimize/InPlace.antt =====
-- ssa/optimize.rs: when a stored node leaves every value of the graph as it was.
use fastsim.Common.{
  zero, suc, ◌<◌, ◌≡◌, ◌⊎◌, inl, inr, refl, sym, ap, subst, ◌∙◌, Bool, List, [], ◌∷◌, Option, none,
  some, length, length-set, get_elem?, get_elem?-total, set, some-inj, arith,
}
use fastsim.F64.{F64}
use fastsim.Graph.Node.{Node, NodeId}
use fastsim.Graph.Build.{Graph, dedup_get}
use fastsim.Graph.Eval.{Env, eval_node}
use fastsim.Graph.Meaning.Values.{Below, IsOrdered, Solves}
use fastsim.Optimize.Store.{Rewrite, store, rewrite_at}

module _ (R : F64) (env : Env R) (vs : List R.F) where
  -- The operands stand before their users, `vs` are the values of the nodes, and the map `dedup`
  -- leads to nodes of the same value. (After a rewrite it may lead to a node that is spelled
  -- otherwise.)
  pub record IsValued (g : Graph R) : Type 0 where
    pub ordered : IsOrdered g.nodes
    pub solves : Solves R env vs g.nodes
    pub deduped :
        (n : Node) (id : NodeId)
        → dedup_get n g.dedup ≡ some id
        → eval_node R (get_elem? vs) env n ≡ get_elem? vs id

  -- A decision that is fit for the place `id`: operands below it, and the value of the place.
  abbrev pub Fits : NodeId → Rewrite R → Type 0
  Fits id none = Unit
  Fits id (some n) = Below id n × (eval_node R (get_elem? vs) env n ≡ get_elem? vs id)

  -- A pass that decides without a panic, and always fittingly.
  abbrev pub IsSound : (Graph R → NodeId → Node → Option (Rewrite R)) → Type 0
  IsSound decide =
      (g : Graph R) (id : NodeId) (n : Node)
      → IsValued g
      → get_elem? g.nodes id ≡ some n
      → (r : Rewrite R) × (decide g id n ≡ some r) × Fits id r

  -- Storing changes the node at the place, and no other.
  set_cases :
      (nodes : List Node) (id i : NodeId) (n m : Node)
      → get_elem? (set nodes id n) i ≡ some m
      → ((i ≡ id) × (n ≡ m)) ⊎ (get_elem? nodes i ≡ some m)
  set_cases [] id i n m e = inr e
  set_cases (x ∷ nodes) zero zero n m e = inl (refl, some-inj e)
  set_cases (x ∷ nodes) zero (suc i) n m e = inr e
  set_cases (x ∷ nodes) (suc id) zero n m e = inr e
  set_cases (x ∷ nodes) (suc id) (suc i) n m e = ground (arith, set_cases nodes id i n m e)

  pub store-IsValued :
      (g : Graph R) (id : NodeId) (r : Rewrite R)
      → IsValued g
      → Fits id r
      → IsValued (store R g id r).0
  unfolding store
  store-IsValued g id none v fits = v
  store-IsValued g id (some n) v fits = record {
    ordered = λ i m e. elim (set_cases g.nodes id i n m e) [
      | inl (at, same) ↦ subst (λ k. Below k m) (sym at) (subst (Below id) same fits.0)
      | inr old ↦ v.ordered i m old
    ];
    solves = (
      v.solves.0 ∙ sym (length-set g.nodes id n),
      λ i m e. elim (set_cases g.nodes id i n m e) [
        | inl (at, same) ↦
            subst (λ k. eval_node R (get_elem? vs) env k ≡ get_elem? vs i) same
              (fits.1 ∙ ap (get_elem? vs) (sym at))
        | inr old ↦ v.solves.1 i m old
      ],
    );
    deduped = v.deduped;
  }

  -- What a step leaves alone besides the values.
  pub record SameFrame (g g' : Graph R) : Type 0 where
    pub outputs : g'.outputs ≡ g.outputs
    pub signature : g'.signature ≡ g.signature
    pub size : length g'.nodes ≡ length g.nodes

  pub store-SameFrame : (g : Graph R) (id : NodeId) (r : Rewrite R) → SameFrame g (store R g id r).0
  unfolding store
  store-SameFrame g id none = record { outputs = refl; signature = refl; size = refl }
  store-SameFrame g id (some n) = record {
    outputs = refl;
    signature = refl;
    size = length-set g.nodes id n;
  }

  -- A sound pass at an id of the graph does not panic, and keeps all values.
  pub rewrite_at_sound :
      (decide : Graph R → NodeId → Node → Option (Rewrite R)) (g : Graph R) (id : NodeId)
      → IsSound decide
      → IsValued g
      → id < length g.nodes
      → (g' : Graph R) × (changed : Bool) × (rewrite_at R decide g id ≡ some (g', changed))
        × IsValued g'
        × SameFrame g g'
  unfolding rewrite_at
  rewrite_at_sound decide g id sound v lt =
      let (n, e) = get_elem?-total g.nodes id lt in
      let (r, decided, fits) = sound g id n v e in
      (
        (store R g id r).0,
        (store R g id r).1,
        rw (e, decided),
        store-IsValued g id r v fits,
        store-SameFrame g id r,
      )
