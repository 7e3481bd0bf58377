-- ===== src/Autodiff/Steps.antt =====
-- ssa/autodiff.rs: the calls between the derivatives in the loops of `diff_node`.
use fastsim.Common.{
  ℕ, ◌<◌, ◌≡◌, refl, ap, true, List, [], ◌∷◌, ◌++◌, some, All, length, lt-length, get_elem?, arith,
}
use fastsim.F64.{F64}
use fastsim.F64.Laws.{IeeeLaws}
use fastsim.Op.Kinds.{ReduceOp}
use fastsim.Op.Lanes.{reduce_scalar}
use fastsim.Graph.Node.{Node, NodeId, children}
use fastsim.Graph.Build.{Graph, add, constant}
use fastsim.Graph.Eval.{Env, eval_node, read_all}
use fastsim.Graph.Meaning.Values.{Below, eval_nodes-Solves}
use fastsim.Autodiff.Rules.{Call, node_of}
use fastsim.Autodiff.Diff.{Memo, reduce_or_collapse_with_identity}
use fastsim.Autodiff.Tangent.{collapsed}
use fastsim.Autodiff.RunSound.{
  Extends-trans, Extends-add, Extends-length, Holds, Holds-Later, call_value, is_scoped, call_sound,
  add-Reaches,
}
use fastsim.Autodiff.Prepared.{Prepares, Holds-append}

module _ (R : F64) (vs : List R.F) where
  Holds-read_all :
      (ids : List NodeId) (ys : List R.F)
      → Holds vs ids ys
      → read_all R (get_elem? vs) ids ≡ some ys
  unfolding read_all
  Holds-read_all [] [] h = refl
  Holds-read_all [] (y ∷ ys) h = elim h [ ]
  Holds-read_all (i ∷ ids) [] h = elim h [ ]
  Holds-read_all (i ∷ ids) (y ∷ ys) h = rw (h.0, Holds-read_all ids ys h.1) refl

  Holds-Below :
      (n : ℕ) (ids : List NodeId) (ys : List R.F)
      → length vs ≡ n
      → Holds vs ids ys
      → All (λ c. c < n) ids
  Holds-Below n [] ys size h = tt
  Holds-Below n (i ∷ ids) [] size h = elim h [ ]
  Holds-Below n (i ∷ ids) (y ∷ ys) size h =
      (omega (arith, size, lt-length vs i h.0), Holds-Below n ids ys size h.1)

module _ (R : F64) (env : Env R) (ieee : IeeeLaws R) (nodes : List Node) (x t : NodeId → R.F)
    (g : Graph R) (memo : Memo) (g1 : Graph R) (memo1 : Memo) (ids : List NodeId) (ys : List R.F)
    (p : Prepares R env ieee nodes x t g memo g1 memo1 ids ys) where
  -- Some of the nodes.
  pub keep :
      (ids' : List NodeId) (ys' : List R.F)
      → ((vs : List R.F)
          → ((i : ℕ) → i < length nodes → get_elem? vs i ≡ some (x i))
          → Holds vs ids ys
          → Holds vs ids' ys')
      → Prepares R env ieee nodes x t g memo g1 memo1 ids' ys'
  keep ids' ys' f = record {
    grows = p.grows;
    gives = λ room vs st.
        let (vs', later, st', holds) = p.gives room vs st in
        (vs', later, st', f vs' st'.base holds);
  }

  -- One more node, whose value is known where the nodes `ids` have their values.
  pub with_node :
      (n : Node) (v : R.F)
      → ((vs : List R.F) (size : ℕ)
          → length vs ≡ size
          → ((i : ℕ) → i < length nodes → get_elem? vs i ≡ some (x i))
          → Holds vs ids ys
          → Below size n × (eval_node R (get_elem? vs) env n ≡ some v))
      → Prepares R env ieee nodes x t g memo
          (add R g1 n).0
          memo1
          (ids ++ (add R g1 n).1 ∷ [])
          (ys ++ v ∷ [])
  with_node n v f =
      let r = add R g1 n in
      let more = Extends-add R g1 n in
      record {
        grows = Extends-trans R g g1 r.0 p.grows more;
        gives = λ room vs st.
            let (vs', later, st', holds) =
              p.gives (omega (arith, room, Extends-length R g1 r.0 more)) vs st in
            let size = (eval_nodes-Solves R env g1.nodes vs' st'.well_formed.ordered st'.runs).0 in
            let (below, e) = f vs' (length g1.nodes) size st'.base holds in
            let done = add-Reaches R env ieee g1 vs' n v st'.well_formed room st'.runs below e in
            (
              done.values,
              λ i y q. done.later i y (later i y q),
              record {
                well_formed = done.well_formed;
                runs = done.runs;
                base = λ i lt. done.later i (x i) (st'.base i lt);
                kept = λ k id m. done.later id (t k) (st'.kept k id m);
              },
              Holds-append done.values ids ys r.1 v
                  (Holds-Later vs' done.values ids ys done.later holds) done.value,
            );
      }

  -- One more call.
  pub with_call :
      (c : Call R.F)
      → is_scoped R (length ids) c ≡ true
      → Prepares R env ieee nodes x t g memo
          (add R g1 (node_of R ids c)).0
          memo1
          (ids ++ (add R g1 (node_of R ids c)).1 ∷ [])
          (ys ++ call_value R ys c ∷ [])
  with_call c scoped =
      with_node (node_of R ids c) (call_value R ys c)
        (λ vs size e base holds. call_sound R env ieee vs size ids ys c e holds scoped)

  -- The result of `reduce_or_collapse_with_identity` on some of the nodes.
  pub with_collapse :
      (op : ReduceOp) (os : List NodeId) (zs : List R.F) (identity : R.F)
      → length os ≡ length zs
      → ((vs : List R.F)
          → ((i : ℕ) → i < length nodes → get_elem? vs i ≡ some (x i))
          → Holds vs ids ys
          → Holds vs os zs)
      → (r : Graph R × NodeId) × (reduce_or_collapse_with_identity R g1 op os identity ≡ r)
        × Prepares R env ieee nodes x t g memo r.0 memo1
            (ids ++ r.1 ∷ [])
            (ys ++ collapsed R op zs identity ∷ [])
  unfolding reduce_or_collapse_with_identity collapsed constant eval_node children
  with_collapse op [] [] identity same f = (
    constant R g1 identity,
    refl,
    with_node (Node.const (R.to_bits identity)) identity
        (λ vs size e base holds. (tt, ap some (ieee.from_bits-to_bits identity))),
  )
  with_collapse op (o ∷ []) (z ∷ []) identity same f = (
    (g1, o),
    refl,
    record {
      grows = p.grows;
      gives = λ room vs st.
          let (vs', later, st', holds) = p.gives room vs st in
          (vs', later, st', Holds-append vs' ids ys o z holds (f vs' st'.base holds).0);
    },
  )
  with_collapse op (o ∷ o' ∷ os) (z ∷ z' ∷ zs) identity same f = (
    add R g1 (Node.reduce op (o ∷ o' ∷ os)),
    refl,
    with_node (Node.reduce op (o ∷ o' ∷ os)) (reduce_scalar R op (z ∷ z' ∷ zs))
        (λ vs size e base holds. (
          Holds-Below R vs size (o ∷ o' ∷ os) (z ∷ z' ∷ zs) e (f vs base holds),
          rw (Holds-read_all R vs (o ∷ o' ∷ os) (z ∷ z' ∷ zs) (f vs base holds)) refl,
        )),
  )
  with_collapse op [] (z ∷ zs) identity same f = absurd (omega (arith, same))
  with_collapse op (o ∷ os) [] identity same f = absurd (omega (arith, same))
  with_collapse op (o ∷ []) (z ∷ z' ∷ zs) identity same f = absurd (omega (arith, same))
  with_collapse op (o ∷ o' ∷ os) (z ∷ []) identity same f = absurd (omega (arith, same))
