-- ===== src/Autodiff/Loops.antt =====
-- ssa/autodiff.rs: the loops of `diff_node` over the operands of sums and products.
use fastsim.Common.{
  ap, ℕ, zero, suc, ◌≤◌, ◌<◌, ◌≡◌, refl, sym, subst, true, List, [], ◌∷◌, ◌++◌, map, Option, some,
  ◌>>=◌, All, All-map, length, length-push, lt-length, get_elem?, arith,
}
use mathlib.Core.List.{append-nil, append_assoc}
use fastsim.F64.{F64, zero_f, one_f}
use fastsim.F64.Laws.{IeeeLaws}
use fastsim.Op.Kinds.{BinOp, ReduceOp}
use fastsim.Op.Apply.{apply_binary}
use fastsim.Graph.Node.{Node, NodeId, children}
use fastsim.Graph.Build.{Graph, add, binary}
use fastsim.Graph.Eval.{Env, eval_node}
use fastsim.Autodiff.Rules.{Call, node_of}
use fastsim.Autodiff.Diff.{
  Memo, Diff, finish, others, identity_of, reduce_or_collapse_with_identity, reduce_or_collapse,
  diff_all, product_terms,
}
use fastsim.Autodiff.Tangent.{without, collapsed, product_tangents}
use fastsim.Autodiff.RunSound.{Holds, call_value, is_scoped}
use fastsim.Autodiff.Prepared.{Prepares, Finds, FindsBelow, Holds-append, next, next_pair}
use fastsim.Autodiff.Steps.{keep, with_node, with_call, with_collapse}

module _ {A : Type 0} (vs : List A) where
  Holds-split :
      (ids : List NodeId) (ys : List A) (id : NodeId) (y : A)
      → length ids ≡ length ys
      → Holds vs (ids ++ id ∷ []) (ys ++ y ∷ [])
      → Holds vs ids ys × (get_elem? vs id ≡ some y)
  Holds-split [] [] id y same h = (tt, h.0)
  Holds-split [] (z ∷ ys) id y same h = absurd (omega (arith, same))
  Holds-split (i ∷ ids) [] id y same h = absurd (omega (arith, same))
  Holds-split (i ∷ ids) (z ∷ ys) id y same h =
      let (rest, last) = Holds-split ids ys id y (omega (arith, same)) h.1 in ((h.0, rest), last)

  -- Operands have their values.
  Holds-operands :
      (n : ℕ) (x : NodeId → A) (ids : List NodeId)
      → ((i : ℕ) → i < n → get_elem? vs i ≡ some (x i))
      → All (λ c. c < n) ids
      → Holds vs ids (map x ids)
  Holds-operands n x [] base h = tt
  Holds-operands n x (i ∷ ids) base h = (base i h.0, Holds-operands n x ids base h.1)

others-without : (i : ℕ) (ids : List NodeId) → others i ids ≡ without i ids
unfolding others
others-without zero [] = refl
others-without (suc i) [] = refl
others-without zero (c ∷ ids) = refl
others-without (suc i) (c ∷ ids) = ap (λ l. c ∷ l) (others-without i ids)

All-others : (P : ℕ → Type 0) (i : ℕ) (ids : List NodeId) → All P ids → All P (others i ids)
unfolding others
All-others P i [] h = tt
All-others P zero (c ∷ ids) h = h.1
All-others P (suc i) (c ∷ ids) h = (h.0, All-others P i ids h.1)

pub length-map : {A B : Type 0} (f : A → B) (xs : List A) → length xs ≡ length (map f xs)
length-map f [] = refl
length-map f (x ∷ xs) = omega (arith, length-map f xs)

module _ (R : F64) (env : Env R) (ieee : IeeeLaws R) (nodes : List Node) (x t : NodeId → R.F)
    (diff : Graph R → Memo → NodeId → Option (Diff R)) (bound : ℕ) (bound_in : bound ≤ length nodes)
    (found : FindsBelow R env ieee nodes x t diff bound) (g : Graph R) (memo : Memo)
    (more : List Node) (extended : g.nodes ≡ nodes ++ more) where
  abbrev Prep : Graph R → Memo → List NodeId → List R.F → Type 0
  Prep = Prepares R env ieee nodes x t g memo

  -- A derivative more, by the hypothesis `found`.
  pub one_more :
      (g1 : Graph R) (memo1 : Memo) (ids : List NodeId) (ys : List R.F)
      → Prep g1 memo1 ids ys
      → (a : NodeId) → a < bound
      → (r : Diff R) × (diff g1 memo1 a ≡ some r)
        × Prep r.graph r.memo (ids ++ r.id ∷ []) (ys ++ t a ∷ [])
  one_more = next R env ieee nodes x t diff bound bound_in found g memo more extended

  pub pair_more :
      (g1 : Graph R) (memo1 : Memo) (ids : List NodeId) (ys : List R.F)
      → Prep g1 memo1 ids ys
      → (a : NodeId) → a < bound
      → (r : Diff R) × (diff g1 memo1 a ≡ some r)
        × Prep r.graph r.memo ((ids ++ a ∷ []) ++ r.id ∷ []) ((ys ++ x a ∷ []) ++ t a ∷ [])
  pair_more = next_pair R env ieee nodes x t diff bound bound_in found g memo more extended

  pub call_more :
      (g1 : Graph R) (memo1 : Memo) (ids : List NodeId) (ys : List R.F)
      → Prep g1 memo1 ids ys
      → (c : Call R.F) → is_scoped R (length ids) c ≡ true
      → Prep
          (add R g1 (node_of R ids c)).0
          memo1
          (ids ++ (add R g1 (node_of R ids c)).1 ∷ [])
          (ys ++ call_value R ys c ∷ [])
  call_more = with_call R env ieee nodes x t g memo

  pub diff_all-Finds :
      (args : List NodeId) (g1 : Graph R) (memo1 : Memo) (ids : List NodeId) (ys : List R.F)
      → Prep g1 memo1 ids ys
      → All (λ c. c < bound) args
      → (r : Graph R × Memo × List NodeId) × (diff_all R diff g1 memo1 args ≡ some r)
        × Prep r.0 r.1 (ids ++ r.2) (ys ++ map t args)
        × (length r.2 ≡ length args)
  unfolding diff_all
  diff_all-Finds [] g1 memo1 ids ys p h = (
    (g1, memo1, []),
    refl,
    subst (λ l. Prep g1 memo1 l (ys ++ [])) (sym (append-nil ids))
        (subst (Prep g1 memo1 ids) (sym (append-nil ys)) p),
    refl,
  )
  diff_all-Finds (a ∷ args) g1 memo1 ids ys p h =
      let (d, runs, q) = one_more g1 memo1 ids ys p a h.0 in
      let (r, runs', q', same) =
        diff_all-Finds args d.graph d.memo (ids ++ d.id ∷ []) (ys ++ t a ∷ []) q h.1 in
      (
        (r.0, r.1, d.id ∷ r.2),
        rw (runs, runs') refl,
        subst (λ l. Prep r.0 r.1 l (ys ++ map t (a ∷ args))) (append_assoc ids (d.id ∷ []) r.2)
            (subst (Prep r.0 r.1 ((ids ++ d.id ∷ []) ++ r.2))
              (append_assoc ys (t a ∷ []) (map t args)) q'),
        omega (arith, same),
      )

  -- One term of the product rule.
  product_term-Finds :
      (rest_ids : List NodeId) (a : NodeId) (g1 : Graph R) (memo1 : Memo) (ids : List NodeId)
      (ys : List R.F)
      → length ids ≡ length ys
      → Prep g1 memo1 ids ys
      → All (λ c. c < length nodes) rest_ids
      → a < bound
      → (d : Diff R) × (diff g1 memo1 a ≡ some d)
        × (r : Graph R × NodeId) × (reduce_or_collapse_with_identity R d.graph ReduceOp.product
              rest_ids
              (one_f R)
            ≡ r)
        × Prep
            (binary R r.0 BinOp.mul d.id r.1).0
            d.memo
            (ids ++ (binary R r.0 BinOp.mul d.id r.1).1 ∷ [])
            (ys ++ R.mul (t a) (collapsed R ReduceOp.product (map x rest_ids) (one_f R)) ∷ [])
  unfolding binary eval_node children apply_binary
  product_term-Finds rest_ids a g1 memo1 ids ys same p h lt =
      let (d, runs, p1) = one_more g1 memo1 ids ys p a lt in
      let ids1 = ids ++ d.id ∷ [] in
      let ys1 = ys ++ t a ∷ [] in
      let v = collapsed R ReduceOp.product (map x rest_ids) (one_f R) in
      let (r, collapses, p2) =
        with_collapse R env ieee nodes x t g memo d.graph d.memo ids1 ys1 p1 ReduceOp.product
          rest_ids (map x rest_ids) (one_f R) (length-map x rest_ids)
          (λ vs base holds. Holds-operands vs (length nodes) x rest_ids base h) in
      let same1 : length ids1 ≡ length ys1 =
        omega (arith, same, length-push ids d.id, length-push ys (t a)) in
      let same2 : length (ids1 ++ r.1 ∷ []) ≡ length (ys1 ++ v ∷ []) =
        omega (arith, same1, length-push ids1 r.1, length-push ys1 v) in
      let n = Node.binary BinOp.mul d.id r.1 in
      let p3 =
        with_node R env ieee nodes x t g memo r.0 d.memo (ids1 ++ r.1 ∷ []) (ys1 ++ v ∷ []) p2 n
          (R.mul (t a) v)
          (λ vs size e base holds.
            let (before, last) = Holds-split vs ids1 ys1 r.1 v same1 holds in
            let (_, first) = Holds-split vs ids ys d.id (t a) same before in
            (
              (
                omega (arith, e, lt-length vs d.id first),
                (omega (arith, e, lt-length vs r.1 last), tt),
              ),
              rw (first, last) refl,
            )) in
      (
        d,
        runs,
        r,
        collapses,
        keep R env ieee nodes x t g memo (add R r.0 n).0 d.memo
            ((ids1 ++ r.1 ∷ []) ++ (add R r.0 n).1 ∷ []) ((ys1 ++ v ∷ []) ++ R.mul (t a) v ∷ []) p3
            (ids ++ (add R r.0 n).1 ∷ []) (ys ++ R.mul (t a) v ∷ [])
            (λ vs base holds.
              let (before, term) =
                Holds-split vs (ids1 ++ r.1 ∷ []) (ys1 ++ v ∷ []) (add R r.0 n).1 (R.mul (t a) v)
                  same2 holds in
              let (before', _) = Holds-split vs ids1 ys1 r.1 v same1 before in
              let (start, _) = Holds-split vs ids ys d.id (t a) same before' in
              Holds-append vs ids ys (add R r.0 n).1 (R.mul (t a) v) start term),
      )

  pub product_terms-Finds :
      (args : List NodeId) (i : ℕ) (later : List NodeId) (g1 : Graph R) (memo1 : Memo)
      (ids : List NodeId) (ys : List R.F)
      → length ids ≡ length ys
      → Prep g1 memo1 ids ys
      → All (λ c. c < bound) args
      → All (λ c. c < bound) later
      → (r : Graph R × Memo × List NodeId) × (product_terms R diff args i later g1 memo1 ≡ some r)
        × Prep r.0 r.1 (ids ++ r.2) (ys ++ product_tangents R x t args i later)
        × (length r.2 ≡ length later)
  unfolding product_terms product_tangents
  product_terms-Finds args i [] g1 memo1 ids ys same p all h = (
    (g1, memo1, []),
    refl,
    subst (λ l. Prep g1 memo1 l (ys ++ [])) (sym (append-nil ids))
        (subst (Prep g1 memo1 ids) (sym (append-nil ys)) p),
    refl,
  )
  product_terms-Finds args i (a ∷ later) g1 memo1 ids ys same p all h =
      let rest_ids = others i args in
      let (d, runs, r, collapses, q) =
        product_term-Finds rest_ids a g1 memo1 ids ys same p
          (All-others (λ c. c < length nodes) i args
            (All-map (λ c (lt : c < bound). omega (arith, lt, bound_in)) args all))
          h.0 in
      let term = binary R r.0 BinOp.mul d.id r.1 in
      let v = R.mul (t a) (collapsed R ReduceOp.product (map x (without i args)) (one_f R)) in
      let prepared =
        subst
          (λ l.
            Prep term.0 d.memo (ids ++ term.1 ∷ [])
              (ys ++ R.mul (t a) (collapsed R ReduceOp.product (map x l) (one_f R)) ∷ []))
          (others-without i args) q in
      let (tail, runs', q', size) =
        product_terms-Finds args (suc i) later term.0 d.memo (ids ++ term.1 ∷ []) (ys ++ v ∷ [])
          (omega (arith, same, length-push ids term.1, length-push ys v)) prepared all h.1 in
      (
        (tail.0, tail.1, term.1 ∷ tail.2),
        rw (runs, collapses, runs') refl,
        subst (λ l. Prep tail.0 tail.1 l (ys ++ v ∷ product_tangents R x t args (suc i) later))
            (append_assoc ids (term.1 ∷ []) tail.2)
            (subst (Prep tail.0 tail.1 ((ids ++ term.1 ∷ []) ++ tail.2))
              (append_assoc ys (v ∷ []) (product_tangents R x t args (suc i) later)) q'),
        omega (arith, size),
      )

  -- A list of nodes is summed up.
  pub sum-Finds :
      (result : Option (Graph R × Memo × List NodeId)) (r : Graph R × Memo × List NodeId)
      (ys : List R.F)
      → result ≡ some r
      → Prep r.0 r.1 r.2 ys
      → length r.2 ≡ length ys
      → Finds R env ieee nodes x t g memo
          (do r' ← result; some (finish R r'.1 (reduce_or_collapse R r'.0 ReduceOp.sum r'.2)))
          (collapsed R ReduceOp.sum ys (zero_f R))
  unfolding reduce_or_collapse identity_of finish
  sum-Finds result r ys runs p same =
      let (c, collapses, q) =
        with_collapse R env ieee nodes x t g memo r.0 r.1 r.2 ys p ReduceOp.sum r.2 ys (zero_f R)
          same (λ vs base holds. holds) in
      let v = collapsed R ReduceOp.sum ys (zero_f R) in
      (
        record { graph = c.0; memo = r.1; id = c.1 },
        rw (runs, collapses) refl,
        keep R env ieee nodes x t g memo c.0 r.1 (r.2 ++ c.1 ∷ []) (ys ++ v ∷ []) q (c.1 ∷ [])
            (v ∷ []) (λ vs base holds. ((Holds-split vs r.2 ys c.1 v same holds).1, tt)),
      )
