-- ===== src/Optimize/Decide.antt =====
-- ssa/optimize.rs: what the arms of the passes have in common.
use fastsim.Common.{
  ℕ, ◌<◌, ◌≡◌, refl, sym, subst, ◌∙◌, Bool, true, false, List, Option, none, some, ◌>>=◌, All-map,
  get_elem?, get_elem?-total, lt-length, some-inj, if◌then◌else◌, arith,
}
use fastsim.F64.{F64}
use fastsim.Op.Kinds.{BinOp, UnaryOp}
use fastsim.Op.Apply.{apply_binary, apply_unary}
use fastsim.Graph.Node.{Node, NodeId, children}
use fastsim.Graph.Build.{Graph, is_const}
use fastsim.Graph.Eval.{Env, eval_node}
use fastsim.Graph.Meaning.Values.{Below}
use fastsim.Optimize.Store.{Rewrite}
use fastsim.Optimize.Strength.{copy}
use fastsim.Optimize.InPlace.{IsValued, Fits}
use fastsim.Optimize.FoldSound.{is_const_sound}

module _ (R : F64) (env : Env R) (vs : List R.F) where
  -- A decision that is made without a panic and is fit for the place.
  abbrev pub Decides : NodeId → Option (Rewrite R) → Type 0
  Decides id d = (r : Rewrite R) × (d ≡ some r) × Fits R env vs id r

  pub Decides-none : (id : NodeId) → Decides id (some none)
  Decides-none id = (none, refl, tt)

  pub Decides-if :
      (id : NodeId) (t : Bool) (d e : Option (Rewrite R))
      → (t ≡ true → Decides id d)
      → (t ≡ false → Decides id e)
      → Decides id (if t then d else e)
  Decides-if id true d e h k = h refl
  Decides-if id false d e h k = k refl

  pub Decides-node :
      (id : NodeId) (n : Node) {v : R.F}
      → Below id n
      → eval_node R (get_elem? vs) env n ≡ some v
      → get_elem? vs id ≡ some v
      → Decides id (some (some n))
  Decides-node id n below e at = (some n, refl, (below, e ∙ sym at))

  Below-mono : (n : Node) (j k : NodeId) → j < k → Below j n → Below k n
  Below-mono n j k lt h = All-map (λ c (p : c < j). omega arith) (children n) h

  -- A copy of the node of an operand that has the value of the place.
  pub Decides-copy :
      (g : Graph R) (id x : NodeId) {v : R.F}
      → IsValued R env vs g
      → x < id
      → get_elem? vs x ≡ some v
      → get_elem? vs id ≡ some v
      → Decides id (copy R g x)
  unfolding copy
  Decides-copy g id x valued lt p q =
      let (n, e) = get_elem?-total g.nodes x (omega (arith, lt-length vs x p, valued.solves.0)) in
      (
        some n,
        rw e,
        (Below-mono n x id lt (valued.ordered x n e), valued.solves.1 x n e ∙ p ∙ sym q),
      )

  -- The operands of a node of the graph have values, which make its value.
  pub binary_operands :
      (g : Graph R) (id a b : NodeId) (op : BinOp)
      → IsValued R env vs g
      → get_elem? g.nodes id ≡ some (Node.binary op a b)
      → (x : R.F) × (y : R.F) × (get_elem? vs a ≡ some x)
        × (get_elem? vs b ≡ some y)
        × (get_elem? vs id ≡ some (apply_binary R op x y))
        × (a < id)
        × (b < id)
  unfolding children eval_node
  binary_operands g id a b op valued e =
      let below = valued.ordered id (Node.binary op a b) e in
      let lt = lt-length g.nodes id e in
      let (x, p) = get_elem?-total vs a (omega (arith, below.0, valued.solves.0)) in
      let (y, q) = get_elem?-total vs b (omega (arith, below.1.0, valued.solves.0)) in
      (
        x,
        y,
        p,
        q,
        rw (p, q) at (sym (valued.solves.1 id (Node.binary op a b) e)),
        below.0,
        below.1.0,
      )

  pub unary_operand :
      (g : Graph R) (id a : NodeId) (op : UnaryOp)
      → IsValued R env vs g
      → get_elem? g.nodes id ≡ some (Node.unary op a)
      → (x : R.F) × (get_elem? vs a ≡ some x)
        × (get_elem? vs id ≡ some (apply_unary R op x))
        × (a < id)
  unfolding children eval_node
  unary_operand g id a op valued e =
      let below = valued.ordered id (Node.unary op a) e in
      let lt = lt-length g.nodes id e in
      let (x, p) = get_elem?-total vs a (omega (arith, below.0, valued.solves.0)) in
      (x, p, rw p at (sym (valued.solves.1 id (Node.unary op a) e)), below.0)

  pub eval_binary :
      (op : BinOp) (a b : NodeId) {x y : R.F}
      → get_elem? vs a ≡ some x
      → get_elem? vs b ≡ some y
      → eval_node R (get_elem? vs) env (Node.binary op a b) ≡ some (apply_binary R op x y)
  unfolding eval_node
  eval_binary op a b p q = rw (p, q)

  pub eval_unary :
      (op : UnaryOp) (a : NodeId) {x : R.F}
      → get_elem? vs a ≡ some x
      → eval_node R (get_elem? vs) env (Node.unary op a) ≡ some (apply_unary R op x)
  unfolding eval_node
  eval_unary op a p = rw p

  pub eval_const :
      (bits : ℕ) → eval_node R (get_elem? vs) env (Node.const bits) ≡ some (R.from_bits bits)
  unfolding eval_node
  eval_const bits = refl

  -- An operand that is spelled as a constant has its value.
  pub is_const_value :
      (g : Graph R) (a : NodeId) (bits : ℕ) {x : R.F}
      → IsValued R env vs g
      → is_const R g a bits ≡ true
      → get_elem? vs a ≡ some x
      → x ≡ R.from_bits bits
  is_const_value g a bits valued e p = some-inj (sym p ∙ is_const_sound R env vs g a bits valued e)

  -- A read of a node that is there.
  pub Decides-read :
      (g : Graph R) (id a : NodeId) (f : Node → Option (Rewrite R)) {x : R.F}
      → IsValued R env vs g
      → get_elem? vs a ≡ some x
      → ((n : Node) → get_elem? g.nodes a ≡ some n → Decides id (f n))
      → Decides id (get_elem? g.nodes a >>= f)
  Decides-read g id a f valued p h =
      let (n, e) = get_elem?-total g.nodes a (omega (arith, lt-length vs a p, valued.solves.0)) in
      subst (λ o. Decides id (o >>= f)) (sym e) (h n e)
