-- ===== src/Autodiff/Correct.antt =====
-- ssa/autodiff.rs: the recursion of `differentiate`.
use fastsim.Common.{
  ℕ, zero, suc, ◌≤◌, ◌<◌, ◌^◌, ◌≡◌, refl, sym, ap, subst, ◌∙◌, true, Bool-cases, inl, inr, List, [],
  ◌++◌, Option, some, some-inj, none≢some, Option-cases, ◌>>=◌, length, All-map, get_elem?,
  get_elem?-total, get_elem?-append, get_elem?-get_or, get_or, ◌==◌, ==_iff, arith,
}
use mathlib.Core.List.{append-nil}
use fastsim.F64.{F64, zero_f, one_f}
use fastsim.F64.Laws.{IeeeLaws}
use fastsim.Graph.Node.{Node, NodeId, children}
use fastsim.Graph.Build.{Graph, constant}
use fastsim.Graph.Eval.{Env, eval_nodes}
use fastsim.Graph.Meaning.Values.{IsOrdered, eval_nodes-Solves}
use fastsim.Graph.HashCons.{IsHashConsed}
use fastsim.Autodiff.Diff.{
  Memo, memo_get, Diff, finish, diff_kind, diff_node, remember, differentiate,
}
use fastsim.Autodiff.Tangent.{tangent_kind, tangent_node, derivative}
use fastsim.Autodiff.RunSound.{Extends, Extends-refl, Later}
use fastsim.Autodiff.Prepared.{Finds, FindsBelow, constant-Finds}
use fastsim.Autodiff.DiffSound.{has_chain_rule, diff_kind-Finds}
use fastsim.Autodiff.Chain.{derivative-tangent_node}

-- No node is a `Mod` or a `Digamma`.
abbrev pub HasChainRules : List Node → Type 0
HasChainRules nodes = (i : ℕ) (n : Node) → get_elem? nodes i ≡ some n → has_chain_rule n ≡ true

module _ (R : F64) (env : Env R) (ieee : IeeeLaws R) (nodes : List Node) (x t : NodeId → R.F)
    (wrt : NodeId) (target : Node) (wrt_at : get_elem? nodes wrt ≡ some target)
    (ordered : IsOrdered nodes) (has_rules : HasChainRules nodes)
    (chain : (i : NodeId) (n : Node)
      → get_elem? nodes i ≡ some n
      → t i ≡ tangent_node R nodes target x t wrt i n) where
  abbrev Found : Graph R → Memo → Option (Diff R) → R.F → Type 0
  Found = Finds R env ieee nodes x t

  -- A derivative that the memo has.
  cached-Finds :
      (g : Graph R) (memo : Memo) (c id : NodeId)
      → memo_get c memo ≡ some id
      → Found g memo (some (record { graph = g; memo = memo; id = id })) (t c)
  cached-Finds g memo c id e = (
    record { graph = g; memo = memo; id = id },
    refl,
    record {
      grows = Extends-refl R g;
      gives = λ room vs st. (vs, λ i y p. p, st, (st.kept c id e, tt));
    },
  )

  -- The memo is extended by the derivative that was found.
  remember-Finds :
      (g : Graph R) (memo : Memo) (c : NodeId) (result : Option (Diff R))
      → Found g memo result (t c)
      → Found g memo (result >>= λ r. some (remember R c r)) (t c)
  unfolding remember memo_get
  remember-Finds g memo c result (r, runs, o) = (
    remember R c r,
    rw runs refl,
    record {
      grows = o.grows;
      gives = λ room vs st.
          let (vs', later, st', holds) = o.gives room vs st in
          (
            vs',
            later,
            record {
              well_formed = st'.well_formed;
              runs = st'.runs;
              base = st'.base;
              kept = λ k id e. elim (Bool-cases (c == k)) [
                | inl same ↦
                    let at : r.id ≡ id = some-inj (sym (rw (same, memo_get) refl) ∙ e) in
                    subst (λ j. get_elem? vs' j ≡ some (t k)) at
                      (holds.0 ∙ ap (λ j. some (t j)) ((==_iff c k).0 same))
                | inr other ↦ st'.kept k id (sym (rw (other, memo_get) refl) ∙ e)
              ];
            },
            holds,
          );
    },
  )

  module _ (fuel : ℕ) (inside : fuel ≤ length nodes)
      (found : FindsBelow R env ieee nodes x t (differentiate R fuel wrt) fuel) where
    diff_node-Finds :
        (g : Graph R) (memo : Memo) (c : NodeId) (more : List Node)
        → g.nodes ≡ nodes ++ more
        → c ≤ fuel
        → c < length nodes
        → Found g memo (diff_node R (differentiate R fuel wrt) g memo wrt c) (t c)
    unfolding diff_node tangent_node
    diff_node-Finds g memo c more extended le lt =
        let (n, at) = get_elem?-total nodes c lt in
        let here = ap (λ l. get_elem? l c) extended ∙ get_elem?-append nodes more c lt ∙ at in
        elim (Bool-cases (c == wrt)) [
          | inl same ↦
              let one : one_f R ≡ t c = sym (chain c n at ∙ rw (same, tangent_node) refl) in
              rw same (
                subst (Found g memo (some (finish R memo (constant R g (one_f R))))) one (
                  constant-Finds R env ieee nodes x t (differentiate R fuel wrt) fuel inside found g
                    memo more extended (one_f R)))
          | inr other ↦
              let kind : tangent_kind R nodes target x t n ≡ t c =
                sym (chain c n at ∙ rw (other, tangent_node) refl) in
              rw (other, here)
                (subst (Found g memo (diff_kind R (differentiate R fuel wrt) g memo wrt n)) kind (
                  diff_kind-Finds R env ieee nodes x t (differentiate R fuel wrt) fuel inside found
                    g memo more extended wrt target wrt_at n
                    (All-map (λ k (below : k < c). omega (arith, below, le)) (children n)
                      (ordered c n at))
                    (has_rules c n at)))
        ]

  differentiate-Finds :
      (fuel : ℕ)
      → fuel ≤ length nodes
      → FindsBelow R env ieee nodes x t (differentiate R fuel wrt) fuel
  unfolding differentiate
  differentiate-Finds zero inside g memo c more extended lt = absurd (omega (arith, lt))
  differentiate-Finds (suc fuel) inside g memo c more extended lt =
      elim (Option-cases (memo_get c memo)) [
        | inr (id, cached) ↦ rw (cached, differentiate) (cached-Finds g memo c id cached)
        | inl missing ↦
            rw (missing, differentiate)
              (remember-Finds g memo c (diff_node R (differentiate R fuel wrt) g memo wrt c) (
                diff_node-Finds fuel (omega (arith, inside))
                  (differentiate-Finds fuel (omega (arith, inside))) g memo c more extended
                  (omega (arith, lt)) (omega (arith, lt, inside))))
      ]

module _ (R : F64) where
  -- Differentiating, from an empty memo, a node of a well-formed graph without `Mod` and `Digamma`:
  -- the recursion ends in its depth and does not panic, and only appends nodes. If there are less
  -- than 2^32 of them, then in IEEE arithmetic the new graph is well-formed, what had a value keeps
  -- it, and the value of the returned node is the derivative by the chain rule.
  pub differentiate_sound :
      (env : Env R) (g : Graph R) (vs : List R.F) (wrt : NodeId) (target : Node) (node : NodeId)
      → IeeeLaws R
      → IsHashConsed g
      → HasChainRules g.nodes
      → eval_nodes R env [] g.nodes ≡ some vs
      → get_elem? g.nodes wrt ≡ some target
      → node < length g.nodes
      → (r : Diff R) × (differentiate R (suc node) wrt g [] node ≡ some r)
        × Extends g r.graph
        × (length r.graph.nodes < 2 ^ 32
            → (vs' : List R.F) × IsHashConsed r.graph
              × (eval_nodes R env [] r.graph.nodes ≡ some vs')
              × Later vs vs'
              × (get_elem? vs' r.id
                  ≡ some (derivative R g.nodes target (λ i. get_or vs i (zero_f R)) wrt node)))
  unfolding memo_get
  differentiate_sound env g vs wrt target node ieee h has_rules runs at lt =
      let x = λ (i : NodeId). get_or vs i (zero_f R) in
      let t = derivative R g.nodes target x wrt in
      let size = (eval_nodes-Solves R env g.nodes vs h.ordered runs).0 in
      let (r, found, o) =
        differentiate-Finds R env ieee g.nodes x t wrt target at h.ordered has_rules
          (λ i n e. derivative-tangent_node R g.nodes target x wrt i n h.ordered e) (suc node)
          (omega (arith, lt)) g [] node [] (sym (append-nil g.nodes)) (omega arith) in
      (
        r,
        found,
        o.grows,
        λ room.
            let (vs', later, st, holds) = o.gives room vs (record {
              well_formed = h;
              runs = runs;
              base = λ i below. get_elem?-get_or vs i (zero_f R) (omega (arith, size, below));
              kept = λ k id e. absurd (none≢some e);
            }) in
            (vs', st.well_formed, st.runs, later, holds.0),
      )
