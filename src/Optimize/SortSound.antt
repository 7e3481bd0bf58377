-- ===== src/Optimize/SortSound.antt =====
-- ssa/optimize.rs: the values of the operands of a node that is inserted, and the order of the operands.
use fastsim.Common.{
  ◌<◌, ◌≡◌, refl, sym, ap, ◌∙◌, ◌&&◌, List, [], ◌∷◌, some, some-inj, Bool-cases, inl, inr, All,
  get_elem?, get_elem?-total, length, ltb, arith,
}
use fastsim.F64.{F64}
use fastsim.F64.Laws.{IeeeLaws}
use fastsim.Graph.Node.{Node, NodeId, children}
use fastsim.Graph.Build.{Graph, const_value}
use fastsim.Graph.Eval.{Env, eval_node, read_all}
use fastsim.Graph.Meaning.Values.{Below}
use fastsim.Optimize.InPlace.{IsValued}
use fastsim.Optimize.FoldSound.{const_value_sound}
use fastsim.Optimize.Canonical.{commutes, is_symmetric, sort_operands, const_values}
use fastsim.Optimize.FoldChoice.{
  Agrees, AgreesAll, AgreesAll-cons, Agrees-intro, commutes_lem, is_symmetric_lem, and_true,
}

module _ (R : F64) (env : Env R) (vs : List R.F) (g : Graph R) (ieee : IeeeLaws R)
    (valued : IsValued R env vs g) where
  -- The value of an operand, with which a known constant agrees.
  pub operand_value :
      (a : NodeId)
      → a < length g.nodes
      → (x : R.F) × (get_elem? vs a ≡ some x) × Agrees R env vs g (const_value R g a) x
  operand_value a lt =
      let (x, p) = get_elem?-total vs a (omega (arith, lt, valued.solves.0)) in
      (
        x,
        p,
        Agrees-intro R env vs g (const_value R g a) x
            (λ v e. some-inj (sym (const_value_sound R env vs g a valued e) ∙ p)),
      )

  pub operand_values :
      (args : List NodeId)
      → All (λ c. c < length g.nodes) args
      → (xs : List R.F) × (read_all R (get_elem? vs) args ≡ some xs)
        × AgreesAll R env vs g (const_values R g args) xs
  unfolding read_all const_values
  operand_values [] h = ([], refl, refl)
  operand_values (a ∷ args) h =
      let (x, p, e) = operand_value a h.0 in
      let (xs, q, f) = operand_values args h.1 in
      (
        x ∷ xs,
        rw (p, q),
        AgreesAll-cons R env vs g (const_value R g a) (const_values R g args) x xs e f,
      )

  pub sort_lem :
      (n : Node)
      → Below (length g.nodes) n
      → Below (length g.nodes) (sort_operands n)
        × (eval_node R (get_elem? vs) env (sort_operands n) ≡ eval_node R (get_elem? vs) env n)
  unfolding sort_operands children eval_node
  sort_lem (Node.binary op a b) h = elim (Bool-cases (commutes op && ltb b a)) [
    | inr stay ↦ rw stay (h, refl)
    | inl swap ↦
        let (x, p, _) = operand_value a h.0 in
        let (y, q, _) = operand_value b h.1.0 in
        rw swap (
          (h.1.0, (h.0, tt)),
          rw (p, q) (ap some (commutes_lem R ieee op x y (and_true (commutes op) (ltb b a) swap))),
        )
  ]
  sort_lem (Node.cmp op a b) h = elim (Bool-cases (is_symmetric op && ltb b a)) [
    | inr stay ↦ rw stay (h, refl)
    | inl swap ↦
        let (x, p, _) = operand_value a h.0 in
        let (y, q, _) = operand_value b h.1.0 in
        rw swap (
          (h.1.0, (h.0, tt)),
          rw (p, q)
              (ap some
                (is_symmetric_lem R ieee op x y (and_true (is_symmetric op) (ltb b a) swap))),
        )
  ]
  sort_lem (Node.unary op a) h = (h, refl)
  sort_lem (Node.const b) h = (h, refl)
  sort_lem _ h = (h, refl)
