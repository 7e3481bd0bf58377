-- ===== src/Autodiff/Running.antt =====
-- ssa/autodiff.rs: the loops of `diff_node` that keep a running sum or a running extremum.
use fastsim.Common.{
  ℕ, suc, ◌≤◌, ◌<◌, ◌≡◌, refl, ◌∙◌, List, [], ◌∷◌, ◌++◌, map, Option, none, some, ◌>>=◌, All,
  length, arith,
}
use fastsim.F64.{F64, zero_f}
use fastsim.F64.Laws.{IeeeLaws}
use fastsim.Op.Kinds.{BinOp, CmpOp, ReduceOp}
use fastsim.Op.Apply.{apply_binary}
use fastsim.Graph.Node.{Node, NodeId}
use fastsim.Graph.Build.{Graph, binary, cmp, select}
use fastsim.Graph.Eval.{Env}
use fastsim.Autodiff.Rules.{Call, node_of}
use fastsim.Autodiff.Diff.{
  Memo, Diff, finish, extremum_ops, diff_all, product_terms, diff_extremum, diff_reduce, accumulate,
  diff_dot,
}
use fastsim.Autodiff.Tangent.{
  product_tangents, tangent_extremum, dot_term, tangent_dot_from, tangent_dot, tangent_reduce,
}
use fastsim.Autodiff.RunSound.{call_value, is_scoped}
use fastsim.Autodiff.Prepared.{Prepares, Finds, FindsBelow, constant-Finds, nothing}
use fastsim.Autodiff.Steps.{keep}
use fastsim.Autodiff.Loops.{
  pair_more, call_more, diff_all-Finds, product_terms-Finds, sum-Finds, length-map,
}

length-product_tangents :
    (R : F64) (x t : NodeId → R.F) (args : List NodeId) (i : ℕ) (later : List NodeId)
    → length later ≡ length (product_tangents R x t args i later)
unfolding product_tangents
length-product_tangents R x t args i [] = refl
length-product_tangents R x t args i (a ∷ later) =
    omega (arith, length-product_tangents R x t args (suc i) later)

module _ (R : F64) (env : Env R) (ieee : IeeeLaws R) (nodes : List Node) (x t : NodeId → R.F)
    (diff : Graph R → Memo → NodeId → Option (Diff R)) (bound : ℕ) (bound_in : bound ≤ length nodes)
    (found : FindsBelow R env ieee nodes x t diff bound) (g : Graph R) (memo : Memo)
    (more : List Node) (extended : g.nodes ≡ nodes ++ more) where
  abbrev Prep : Graph R → Memo → List NodeId → List R.F → Type 0
  Prep = Prepares R env ieee nodes x t g memo

  abbrev Found : Option (Diff R) → R.F → Type 0
  Found = Finds R env ieee nodes x t g memo

  extremum-Finds :
      (op : CmpOp) (bin_op : BinOp) (args : List NodeId) (g1 : Graph R) (memo1 : Memo)
      (running d : NodeId) (y dy : R.F)
      → Prep g1 memo1 (running ∷ d ∷ []) (y ∷ dy ∷ [])
      → All (λ c. c < bound) args
      → Found
          (diff_extremum R diff op bin_op args running d g1 memo1)
          (tangent_extremum R x t op bin_op args y dy)
  unfolding diff_extremum tangent_extremum finish cmp select binary node_of call_value is_scoped
  extremum-Finds op bin_op [] g1 memo1 running d y dy p h = (
    record { graph = g1; memo = memo1; id = d },
    refl,
    keep R env ieee nodes x t g memo g1 memo1 (running ∷ d ∷ []) (y ∷ dy ∷ []) p (d ∷ []) (dy ∷ [])
        (λ vs base holds. holds.1),
  )
  extremum-Finds op bin_op (a ∷ args) g1 memo1 running d y dy p h =
      let ids = running ∷ d ∷ [] in
      let ys = y ∷ dy ∷ [] in
      let (da, runs, p1) =
        pair_more R env ieee nodes x t diff bound bound_in found g memo more extended g1 memo1 ids
          ys p a h.0 in
      let ids1 = running ∷ d ∷ a ∷ da.id ∷ [] in
      let ys1 = y ∷ dy ∷ x a ∷ t a ∷ [] in
      let c1 = Call.cmp op 2 0 in
      let r1 = cmp R da.graph op a running in
      let p2 =
        call_more R env ieee nodes x t diff bound bound_in found g memo more extended da.graph
          da.memo ids1 ys1 p1 c1 refl in
      let ids2 = running ∷ d ∷ a ∷ da.id ∷ r1.1 ∷ [] in
      let ys2 = y ∷ dy ∷ x a ∷ t a ∷ call_value R ys1 c1 ∷ [] in
      let c2 = Call.select 4 3 1 in
      let r2 = select R r1.0 r1.1 da.id d in
      let p3 =
        call_more R env ieee nodes x t diff bound bound_in found g memo more extended r1.0 da.memo
          ids2 ys2 p2 c2 refl in
      let ids3 = running ∷ d ∷ a ∷ da.id ∷ r1.1 ∷ r2.1 ∷ [] in
      let ys3 = y ∷ dy ∷ x a ∷ t a ∷ call_value R ys1 c1 ∷ call_value R ys2 c2 ∷ [] in
      let c3 = Call.binary bin_op 0 2 in
      let r3 = binary R r2.0 bin_op running a in
      let p4 =
        call_more R env ieee nodes x t diff bound bound_in found g memo more extended r2.0 da.memo
          ids3 ys3 p3 c3 refl in
      let q =
        keep R env ieee nodes x t g memo r3.0 da.memo (ids3 ++ r3.1 ∷ [])
          (ys3 ++ call_value R ys3 c3 ∷ []) p4 (r3.1 ∷ r2.1 ∷ [])
          (call_value R ys3 c3 ∷ call_value R ys2 c2 ∷ [])
          (λ vs base holds. (holds.1.1.1.1.1.1.0, (holds.1.1.1.1.1.0, tt))) in
      let (r, runs', o) =
        extremum-Finds op bin_op args r3.0 da.memo r3.1 r2.1 (call_value R ys3 c3)
          (call_value R ys2 c2) q h.1 in
      (r, rw (runs) runs', o)

  -- A minimum or a maximum, from its first operand on.
  running_from :
      (op : ReduceOp) (a : NodeId) (args : List NodeId)
      → All (λ c. c < bound) (a ∷ args)
      → Found
          (do
            d ← diff g memo a
            diff_extremum R diff
                (extremum_ops R op).0
                (extremum_ops R op).1
                args
                a
                d.id
                d.graph
                d.memo)
          (tangent_extremum R x t (extremum_ops R op).0 (extremum_ops R op).1 args (x a) (t a))
  running_from op a args h =
      let (d, runs, p) =
        pair_more R env ieee nodes x t diff bound bound_in found g memo more extended g memo [] []
          (nothing R env ieee nodes x t g memo) a h.0 in
      let (r, runs', o) =
        extremum-Finds (extremum_ops R op).0 (extremum_ops R op).1 args d.graph d.memo a d.id (x a)
          (t a) p h.1 in
      (r, rw runs runs', o)

  dot_from-Finds :
      (us ws : List NodeId) (g1 : Graph R) (memo1 : Memo) (acc : NodeId) (y : R.F)
      → Prep g1 memo1 (acc ∷ []) (y ∷ [])
      → All (λ c. c < bound) us
      → All (λ c. c < bound) ws
      → Found (diff_dot R diff g1 memo1 (some acc) us ws) (tangent_dot_from R x t y us ws)
  unfolding diff_dot tangent_dot_from dot_term finish accumulate binary node_of call_value is_scoped
      apply_binary
  dot_from-Finds [] ws g1 memo1 acc y p h k =
      (record { graph = g1; memo = memo1; id = acc }, refl, p)
  dot_from-Finds (a ∷ us) [] g1 memo1 acc y p h k =
      (record { graph = g1; memo = memo1; id = acc }, refl, p)
  dot_from-Finds (a ∷ us) (b ∷ ws) g1 memo1 acc y p h k =
      let (da, runs, p1) =
        pair_more R env ieee nodes x t diff bound bound_in found g memo more extended g1 memo1
          (acc ∷ []) (y ∷ []) p a h.0 in
      let (db, runs', p2) =
        pair_more R env ieee nodes x t diff bound bound_in found g memo more extended da.graph
          da.memo (acc ∷ a ∷ da.id ∷ []) (y ∷ x a ∷ t a ∷ []) p1 b k.0 in
      let ids2 = acc ∷ a ∷ da.id ∷ b ∷ db.id ∷ [] in
      let ys2 = y ∷ x a ∷ t a ∷ x b ∷ t b ∷ [] in
      let adb = binary R db.graph BinOp.mul a db.id in
      let p3 =
        call_more R env ieee nodes x t diff bound bound_in found g memo more extended db.graph
          db.memo ids2 ys2 p2 (Call.binary BinOp.mul 1 4) refl in
      let bda = binary R adb.0 BinOp.mul da.id b in
      let v1 = R.mul (x a) (t b) in
      let p4 =
        call_more R env ieee nodes x t diff bound bound_in found g memo more extended adb.0 db.memo
          (ids2 ++ adb.1 ∷ []) (ys2 ++ v1 ∷ []) p3 (Call.binary BinOp.mul 2 3) refl in
      let term = binary R bda.0 BinOp.add adb.1 bda.1 in
      let v2 = R.mul (t a) (x b) in
      let p5 =
        call_more R env ieee nodes x t diff bound bound_in found g memo more extended bda.0 db.memo
          (ids2 ++ adb.1 ∷ bda.1 ∷ []) (ys2 ++ v1 ∷ v2 ∷ []) p4 (Call.binary BinOp.add 5 6) refl in
      let sum = binary R term.0 BinOp.add acc term.1 in
      let v3 = R.add v1 v2 in
      let p6 =
        call_more R env ieee nodes x t diff bound bound_in found g memo more extended term.0 db.memo
          (ids2 ++ adb.1 ∷ bda.1 ∷ term.1 ∷ []) (ys2 ++ v1 ∷ v2 ∷ v3 ∷ []) p5
          (Call.binary BinOp.add 0 7) refl in
      let q =
        keep R env ieee nodes x t g memo sum.0 db.memo (ids2 ++ adb.1 ∷ bda.1 ∷ term.1 ∷ sum.1 ∷ [])
          (ys2 ++ v1 ∷ v2 ∷ v3 ∷ R.add y v3 ∷ []) p6 (sum.1 ∷ []) (R.add y v3 ∷ [])
          (λ vs base holds. holds.1.1.1.1.1.1.1.1) in
      let (r, runs'', o) = dot_from-Finds us ws sum.0 db.memo sum.1 (R.add y v3) q h.1 k.1 in
      (r, rw (runs, runs') runs'', o)

  -- A dot product whose operands have their derivatives found.
  pub dot-Finds :
      (us ws : List NodeId)
      → All (λ c. c < bound) us
      → All (λ c. c < bound) ws
      → Found (diff_dot R diff g memo none us ws) (tangent_dot R x t us ws)
  unfolding diff_dot tangent_dot dot_term finish accumulate binary node_of call_value is_scoped
      apply_binary
  dot-Finds [] ws h k =
      constant-Finds R env ieee nodes x t diff bound bound_in found g memo more extended (zero_f R)
  dot-Finds (a ∷ us) [] h k =
      constant-Finds R env ieee nodes x t diff bound bound_in found g memo more extended (zero_f R)
  dot-Finds (a ∷ us) (b ∷ ws) h k =
      let (da, runs, p1) =
        pair_more R env ieee nodes x t diff bound bound_in found g memo more extended g memo [] []
          (nothing R env ieee nodes x t g memo) a h.0 in
      let (db, runs', p2) =
        pair_more R env ieee nodes x t diff bound bound_in found g memo more extended da.graph
          da.memo (a ∷ da.id ∷ []) (x a ∷ t a ∷ []) p1 b k.0 in
      let ids2 = a ∷ da.id ∷ b ∷ db.id ∷ [] in
      let ys2 = x a ∷ t a ∷ x b ∷ t b ∷ [] in
      let adb = binary R db.graph BinOp.mul a db.id in
      let p3 =
        call_more R env ieee nodes x t diff bound bound_in found g memo more extended db.graph
          db.memo ids2 ys2 p2 (Call.binary BinOp.mul 0 3) refl in
      let bda = binary R adb.0 BinOp.mul da.id b in
      let v1 = R.mul (x a) (t b) in
      let p4 =
        call_more R env ieee nodes x t diff bound bound_in found g memo more extended adb.0 db.memo
          (ids2 ++ adb.1 ∷ []) (ys2 ++ v1 ∷ []) p3 (Call.binary BinOp.mul 1 2) refl in
      let term = binary R bda.0 BinOp.add adb.1 bda.1 in
      let v2 = R.mul (t a) (x b) in
      let p5 =
        call_more R env ieee nodes x t diff bound bound_in found g memo more extended bda.0 db.memo
          (ids2 ++ adb.1 ∷ bda.1 ∷ []) (ys2 ++ v1 ∷ v2 ∷ []) p4 (Call.binary BinOp.add 4 5) refl in
      let q =
        keep R env ieee nodes x t g memo term.0 db.memo (ids2 ++ adb.1 ∷ bda.1 ∷ term.1 ∷ [])
          (ys2 ++ v1 ∷ v2 ∷ R.add v1 v2 ∷ []) p5 (term.1 ∷ []) (R.add v1 v2 ∷ [])
          (λ vs base holds. holds.1.1.1.1.1.1) in
      let (r, runs'', o) = dot_from-Finds us ws term.0 db.memo term.1 (R.add v1 v2) q h.1 k.1 in
      (r, rw (runs, runs') runs'', o)

  -- A reduction whose operands have their derivatives found.
  pub reduce-Finds :
      (op : ReduceOp) (args : List NodeId)
      → All (λ c. c < bound) args
      → Found (diff_reduce R diff g memo op args) (tangent_reduce R x t op args)
  unfolding diff_reduce tangent_reduce extremum_ops
  reduce-Finds ReduceOp.sum args h =
      let (r, runs, p, same) =
        diff_all-Finds R env ieee nodes x t diff bound bound_in found g memo more extended args g
          memo [] [] (nothing R env ieee nodes x t g memo) h in
      sum-Finds R env ieee nodes x t diff bound bound_in found g memo more extended
        (diff_all R diff g memo args) r (map t args) runs p (same ∙ length-map t args)
  reduce-Finds ReduceOp.product args h =
      let (r, runs, p, same) =
        product_terms-Finds R env ieee nodes x t diff bound bound_in found g memo more extended args
          0 args g memo [] [] refl (nothing R env ieee nodes x t g memo) h h in
      sum-Finds R env ieee nodes x t diff bound bound_in found g memo more extended
        (product_terms R diff args 0 args g memo) r (product_tangents R x t args 0 args) runs p
        (same ∙ length-product_tangents R x t args 0 args)
  reduce-Finds ReduceOp.min [] h =
      constant-Finds R env ieee nodes x t diff bound bound_in found g memo more extended (zero_f R)
  reduce-Finds ReduceOp.max [] h =
      constant-Finds R env ieee nodes x t diff bound bound_in found g memo more extended (zero_f R)
  reduce-Finds ReduceOp.min (a ∷ args) h = running_from ReduceOp.min a args h
  reduce-Finds ReduceOp.max (a ∷ args) h = running_from ReduceOp.max a args h
