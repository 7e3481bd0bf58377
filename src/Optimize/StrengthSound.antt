-- ===== src/Optimize/StrengthSound.antt =====
-- ssa/optimize.rs: `strength_reduce` keeps every value at which its identities are exact.
use fastsim.Common.{
  ℕ, ◌<◌, ◌≡◌, inl, inr, refl, sym, ap, subst, ◌∙◌, Bool, true, Option-cases, List, Option, none,
  some, get_elem?, length, some-inj, none≢some, ltb, if◌then◌else◌, arith,
}
use fastsim.F64.{F64, one_f, one_bits, neg_one_bits, half_bits, two_bits, three_bits}
use fastsim.F64.Laws.{IeeeLaws, IsValue, IsExactAt}
use fastsim.Op.Kinds.{BinOp, UnaryOp}
use fastsim.Op.Apply.{apply_binary, apply_unary}
use fastsim.Graph.Node.{Node, NodeId, children}
use fastsim.Graph.Build.{Graph, is_const, dedup_get}
use fastsim.Graph.Eval.{Env, eval_node}
use fastsim.Optimize.InPlace.{IsValued, IsSound, SameFrame, rewrite_at_sound}
use fastsim.Optimize.Strength.{
  known_below, cube, reciprocal, reduce_pow, cancel_neg, strength_node, strength_reduce,
}
use fastsim.Optimize.Decide.{
  Decides, Decides-none, Decides-if, Decides-node, Decides-copy, binary_operands, unary_operand,
  eval_binary, eval_unary, eval_const, is_const_value, Decides-read,
}

module _ (R : F64) (env : Env R) (vs : List R.F) (ieee : IeeeLaws R) (exact : IsExactAt R vs) where
  -- A node that `dedup` knows below the place is an operand with the value of the node.
  known_below_sound :
      (g : Graph R) (id : NodeId) (n : Node) (k : NodeId)
      → IsValued R env vs g
      → known_below R g id n ≡ some k
      → (k < id) × (eval_node R (get_elem? vs) env n ≡ get_elem? vs k)
  unfolding known_below
  known_below_sound g id n k valued e = elim (Option-cases (dedup_get n g.dedup)) [
    | inl out ↦ absurd (none≢some (rw out at e))
    | inr (j, found) ↦
        let same = known_at j (rw found at e) in
        (subst (λ i. i < id) same.1 same.0, valued.deduped n j found ∙ ap (get_elem? vs) same.1)
  ]
    where
      known_at : (j : NodeId) → (if ltb j id then some j else none) ≡ some k → (j < id) × (j ≡ k)
      known_at j h = ground arith

  module _ (g : Graph R) (valued : IsValued R env vs g) where
    cube_sound :
        (id x : NodeId) (k : Option NodeId) {v : R.F}
        → k ≡ known_below R g id (Node.binary BinOp.mul x x)
        → x < id
        → get_elem? vs x ≡ some v
        → get_elem? vs id ≡ some (R.mul (R.mul v v) v)
        → Decides R env vs id (some (cube R k x))
    unfolding cube children apply_binary
    cube_sound id x none known lt p at = Decides-none R env vs id
    cube_sound id x (some k) known lt p at =
        let (below, same) =
          known_below_sound g id (Node.binary BinOp.mul x x) k valued (sym known) in
        let square = sym same ∙ eval_binary R env vs BinOp.mul x x p p in
        Decides-node R env vs id (Node.binary BinOp.mul k x) (below, (lt, tt))
          (eval_binary R env vs BinOp.mul k x square p) at

    reciprocal_sound :
        (id x : NodeId) (k : Option NodeId) {v : R.F}
        → k ≡ known_below R g id (Node.const one_bits)
        → x < id
        → get_elem? vs x ≡ some v
        → get_elem? vs id ≡ some (R.div (one_f R) v)
        → Decides R env vs id (some (reciprocal R k x))
    unfolding reciprocal children apply_binary
    reciprocal_sound id x none known lt p at = Decides-none R env vs id
    reciprocal_sound id x (some k) known lt p at =
        let (below, same) = known_below_sound g id (Node.const one_bits) k valued (sym known) in
        let one = sym same ∙ eval_const R env vs one_bits in
        Decides-node R env vs id (Node.binary BinOp.div k x) (below, (lt, tt))
          (eval_binary R env vs BinOp.div k x one p) at

    module _ (id x c : NodeId) (a b : R.F) (xp : get_elem? vs x ≡ some a)
        (cp : get_elem? vs c ≡ some b) (at : get_elem? vs id ≡ some (R.powf a b))
        (lt : x < id) where
      -- The value of the place when the exponent is a known constant.
      with_exponent :
          (bits : ℕ) {r : R.F}
          → is_const R g c bits ≡ true
          → R.powf a (R.from_bits bits) ≡ r
          → get_elem? vs id ≡ some r
      with_exponent bits e law =
          at ∙ ap some (ap (R.powf a) (is_const_value R env vs g c bits valued e cp) ∙ law)

      power : (bits : ℕ) → is_const R g c bits ≡ true → IsValue vs (R.powf a (R.from_bits bits))
      power bits e = (id, with_exponent bits e refl)

      reduce_pow_sound : Decides R env vs id (reduce_pow R g id x c)
      unfolding reduce_pow children apply_binary apply_unary
      reduce_pow_sound =
          Decides-if R env vs id (is_const R g c two_bits) _ _
            (λ e.
              Decides-node R env vs id (Node.binary BinOp.mul x x) (lt, (lt, tt))
                (eval_binary R env vs BinOp.mul x x xp xp)
                (with_exponent two_bits e (exact.powf_two a (x, xp) (power two_bits e))))
            λ _.
              Decides-if R env vs id (is_const R g c three_bits) _ _
                (λ e.
                  cube_sound id x (known_below R g id (Node.binary BinOp.mul x x)) refl lt xp
                    (with_exponent three_bits e (exact.powf_three a (x, xp) (power three_bits e))))
                λ _.
                  Decides-if R env vs id (is_const R g c half_bits) _ _
                    (λ e.
                      Decides-node R env vs id (Node.unary UnaryOp.sqrt x) (lt, tt)
                        (eval_unary R env vs UnaryOp.sqrt x xp)
                        (with_exponent half_bits e (exact.powf_half a (x, xp) (power half_bits e))))
                    λ _.
                      Decides-if R env vs id (is_const R g c one_bits) _ _
                        (λ e.
                          Decides-copy R env vs g id x valued lt xp
                            (with_exponent one_bits e (ieee.powf_one a)))
                        λ _.
                          Decides-if R env vs id (is_const R g c 0) _ _
                            (λ e.
                              Decides-node R env vs id (Node.const one_bits) tt
                                (eval_const R env vs one_bits)
                                (with_exponent 0 e (ieee.powf_zero a)))
                            λ _.
                              Decides-if R env vs id (is_const R g c neg_one_bits) _ _
                                (λ e.
                                  reciprocal_sound id x (known_below R g id (Node.const one_bits))
                                    refl lt xp
                                    (with_exponent neg_one_bits e
                                      (exact.powf_neg_one a (x, xp) (power neg_one_bits e))))
                                λ _. Decides-none R env vs id

    pub cancel_neg_sound :
        (id a : NodeId) (n : Node) {v : R.F}
        → get_elem? g.nodes a ≡ some n
        → a < id
        → get_elem? vs a ≡ some v
        → get_elem? vs id ≡ some (R.neg v)
        → Decides R env vs id (cancel_neg R g n)
    unfolding cancel_neg apply_unary
    cancel_neg_sound id a (Node.unary UnaryOp.neg inner) e lt p at =
        let (x, q, outer, below) = unary_operand R env vs g a inner UnaryOp.neg valued e in
        Decides-copy R env vs g id inner valued (omega arith) q
          (at ∙ ap some (ap R.neg (some-inj (sym p ∙ outer)) ∙ ieee.neg_neg x))
    cancel_neg_sound id a _ e lt p at = Decides-none R env vs id

  pub strength_node-IsSound : IsSound R env vs (strength_node R)
  unfolding strength_node apply_binary apply_unary
  strength_node-IsSound g id (Node.binary BinOp.pow x c) valued e =
      let (a, b, xp, cp, at, xlt, clt) = binary_operands R env vs g id x c BinOp.pow valued e in
      reduce_pow_sound g valued id x c a b xp cp at xlt
  strength_node-IsSound g id (Node.unary UnaryOp.neg a) valued e =
      let (x, p, at, lt) = unary_operand R env vs g id a UnaryOp.neg valued e in
      Decides-read R env vs g id a (cancel_neg R g) valued p
        λ n m. cancel_neg_sound g valued id a n m lt p at
  strength_node-IsSound g id _ valued e = Decides-none R env vs id

  -- In IEEE arithmetic, at a graph with values at which the identities that the passes use are
  -- exact, `strength_reduce` at an id does not panic, and it keeps the value of every node, the
  -- outputs and the signature.
  pub strength_reduce_sound :
      (g : Graph R) (id : NodeId)
      → IsValued R env vs g
      → id < length g.nodes
      → (g' : Graph R) × (changed : Bool) × (strength_reduce R g id ≡ some (g', changed))
        × IsValued R env vs g'
        × SameFrame R env vs g g'
  unfolding strength_reduce
  strength_reduce_sound g id valued lt =
      rewrite_at_sound R env vs (strength_node R) g id strength_node-IsSound valued lt
