-- ===== src/Optimize/FoldSound.antt =====
-- ssa/optimize.rs: `constant_fold` keeps every value, bit for bit.
use fastsim.Common.{
  ℕ, ◌<◌, ◌≡◌, refl, sym, ap, ◌∙◌, Bool, true, false, List, Option, none, some, get_elem?, some-inj,
  ◌&&◌, ◌||◌, length, if◌then◌else◌, arith,
}
use fastsim.F64.{F64, zero_f, infinity, neg_infinity}
use fastsim.F64.Laws.{IeeeLaws}
use fastsim.Op.Kinds.{BinOp, UnaryOp}
use fastsim.Op.Apply.{apply_binary, apply_unary}
use fastsim.Graph.Node.{Node, NodeId, children}
use fastsim.Graph.Build.{Graph, const_value, is_const, const_of, is_const_bits}
use fastsim.Graph.Eval.{Env, eval_node}
use fastsim.Optimize.Store.{Rewrite}
use fastsim.Optimize.InPlace.{IsValued, Fits, IsSound, SameFrame, rewrite_at_sound}
use fastsim.Optimize.Fold.{
  fold_result, fold_binary, fold_unary, fold_node, constant_fold, is_division, unary_fold_in_domain,
}

module _ (R : F64) where
  const_of_inv :
      (o : Option Node) {v : R.F}
      → const_of R o ≡ some v
      → (bits : ℕ) × (o ≡ some (Node.const bits)) × (R.from_bits bits ≡ v)
  unfolding const_of
  const_of_inv (some (Node.const bits)) e = (bits, refl, some-inj e)
  const_of_inv (some _) e = cc
  const_of_inv none e = cc

  is_const_bits_inv :
      (o : Option Node) (bits : ℕ) → is_const_bits R o bits ≡ true → o ≡ some (Node.const bits)
  unfolding is_const_bits
  is_const_bits_inv (some (Node.const b)) bits e = ground arith
  is_const_bits_inv (some _) bits e = cc
  is_const_bits_inv none bits e = cc

module _ (R : F64) (env : Env R) (vs : List R.F) where
  pub const_value_sound :
      (g : Graph R) (a : NodeId) {v : R.F}
      → IsValued R env vs g
      → const_value R g a ≡ some v
      → get_elem? vs a ≡ some v
  unfolding const_value eval_node
  const_value_sound g a valued e =
      let (bits, at, value) = const_of_inv R (get_elem? g.nodes a) e in
      sym (valued.solves.1 a (Node.const bits) at) ∙ ap some value

  pub is_const_sound :
      (g : Graph R) (a : NodeId) (bits : ℕ)
      → IsValued R env vs g
      → is_const R g a bits ≡ true
      → get_elem? vs a ≡ some (R.from_bits bits)
  unfolding is_const eval_node
  is_const_sound g a bits valued e =
      sym (valued.solves.1 a (Node.const bits) (is_const_bits_inv R (get_elem? g.nodes a) bits e))

  -- A decision by a test is fit if both outcomes are.
  pub Fits-if :
      (id : NodeId) (t : Bool) (r s : Rewrite R)
      → Fits R env vs id r
      → Fits R env vs id s
      → Fits R env vs id (if t then r else s)
  Fits-if id true r s h k = h
  Fits-if id false r s h k = k

  module _ (laws : IeeeLaws R) where
    fold_result-Fits :
        (id : NodeId) (v : R.F) → get_elem? vs id ≡ some v → Fits R env vs id (fold_result R v)
    unfolding fold_result eval_node children
    fold_result-Fits id v e =
        Fits-if id (R.is_finite v || R.eq v (infinity R) || R.eq v (neg_infinity R))
          (some (Node.const (R.to_bits v))) none (tt, ap some (laws.from_bits-to_bits v) ∙ sym e) tt

    binary-Fits :
        (op : BinOp) (id a b : NodeId) (ca cb : Option R.F)
        → ((v : R.F) → ca ≡ some v → get_elem? vs a ≡ some v)
        → ((v : R.F) → cb ≡ some v → get_elem? vs b ≡ some v)
        → eval_node R (get_elem? vs) env (Node.binary op a b) ≡ get_elem? vs id
        → Fits R env vs id (fold_binary R op ca cb)
    unfolding fold_binary eval_node
    binary-Fits op id a b (some va) (some vb) ha hb e =
        Fits-if id (is_division R op && R.eq vb (zero_f R)) none
          (fold_result R (apply_binary R op va vb)) tt
          (fold_result-Fits id (apply_binary R op va vb) (rw (ha va refl, hb vb refl) at (sym e)))
    binary-Fits op id a b (some va) none ha hb e = tt
    binary-Fits op id a b none cb ha hb e = tt

    unary-Fits :
        (op : UnaryOp) (id a : NodeId) (ca : Option R.F)
        → ((v : R.F) → ca ≡ some v → get_elem? vs a ≡ some v)
        → eval_node R (get_elem? vs) env (Node.unary op a) ≡ get_elem? vs id
        → Fits R env vs id (fold_unary R op ca)
    unfolding fold_unary eval_node
    unary-Fits op id a (some va) ha e =
        Fits-if id (unary_fold_in_domain R op va) (fold_result R (apply_unary R op va)) none
          (fold_result-Fits id (apply_unary R op va) (rw (ha va refl) at (sym e))) tt
    unary-Fits op id a none ha e = tt

    pub fold_node-IsSound : IsSound R env vs (fold_node R)
    unfolding fold_node
    fold_node-IsSound g id (Node.binary op a b) valued e = (
      fold_binary R op (const_value R g a) (const_value R g b),
      refl,
      binary-Fits op id a b (const_value R g a) (const_value R g b)
          (λ v h. const_value_sound g a valued h) (λ v h. const_value_sound g b valued h)
          (valued.solves.1 id (Node.binary op a b) e),
    )
    fold_node-IsSound g id (Node.unary op a) valued e = (
      fold_unary R op (const_value R g a),
      refl,
      unary-Fits op id a (const_value R g a) (λ v h. const_value_sound g a valued h)
          (valued.solves.1 id (Node.unary op a) e),
    )
    fold_node-IsSound g id _ valued e = (none, refl, tt)

    -- In an arithmetic with the IEEE identities, `constant_fold` at an id of a valued graph
    -- does not panic, and it keeps the value of every node, the outputs and the signature.
    pub constant_fold_sound :
        (g : Graph R) (id : NodeId)
        → IsValued R env vs g
        → id < length g.nodes
        → (g' : Graph R) × (changed : Bool) × (constant_fold R g id ≡ some (g', changed))
          × IsValued R env vs g'
          × SameFrame R env vs g g'
    unfolding constant_fold
    constant_fold_sound g id valued lt =
        rewrite_at_sound R env vs (fold_node R) g id fold_node-IsSound valued lt
