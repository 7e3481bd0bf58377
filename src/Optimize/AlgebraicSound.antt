-- ===== src/Optimize/AlgebraicSound.antt =====
-- ssa/optimize.rs: `algebraic_simplify` keeps every value at which its identities are exact.
use fastsim.Common.{
  ℕ, ◌<◌, ◌≡◌, refl, sym, ap, ap₂, ◌∙◌, Bool, true, List, some, get_elem?, length, some-inj, ◌==◌,
  ==_iff, arith,
}
use fastsim.F64.{F64, zero_f, one_f, one_bits}
use fastsim.F64.Laws.{IeeeLaws, IsExactAt}
use fastsim.Op.Kinds.{BinOp, UnaryOp}
use fastsim.Op.Apply.{apply_binary, apply_unary}
use fastsim.Graph.Node.{Node, NodeId, children}
use fastsim.Graph.Build.{Graph, is_const}
use fastsim.Graph.Eval.{Env}
use fastsim.Optimize.InPlace.{IsValued, IsSound, SameFrame, rewrite_at_sound}
use fastsim.Optimize.Strength.{copy, cancel_neg}
use fastsim.Optimize.StrengthSound.{cancel_neg_sound}
use fastsim.Optimize.Algebraic.{
  cancel_sqrt, square, simplify_add, simplify_sub, simplify_mul, simplify_div, simplify_abs,
  simplify_log, algebraic_node, algebraic_simplify,
}
use fastsim.Optimize.Decide.{
  Decides, Decides-none, Decides-if, Decides-node, Decides-copy, Decides-read, binary_operands,
  unary_operand, eval_unary, eval_const, is_const_value,
}

module _ (R : F64) (env : Env R) (vs : List R.F) (ieee : IeeeLaws R) (exact : IsExactAt R vs) where
  module _ (g : Graph R) (valued : IsValued R env vs g) where
    module _ (id a b : NodeId) (x y : R.F) (p : get_elem? vs a ≡ some x)
        (q : get_elem? vs b ≡ some y) (la : a < id) (lb : b < id) where
      -- What the place is worth when an operand is a known constant.
      left_known :
          (f : R.F → R.F → R.F) (bits : ℕ) {r : R.F}
          → get_elem? vs id ≡ some (f x y)
          → is_const R g a bits ≡ true
          → f (R.from_bits bits) y ≡ r
          → get_elem? vs id ≡ some r
      left_known f bits at e law =
          at ∙ ap some (ap (λ k. f k y) (is_const_value R env vs g a bits valued e p) ∙ law)

      right_known :
          (f : R.F → R.F → R.F) (bits : ℕ) {r : R.F}
          → get_elem? vs id ≡ some (f x y)
          → is_const R g b bits ≡ true
          → f x (R.from_bits bits) ≡ r
          → get_elem? vs id ≡ some r
      right_known f bits at e law =
          at ∙ ap some (ap (f x) (is_const_value R env vs g b bits valued e q) ∙ law)

      keep_left : get_elem? vs id ≡ some x → Decides R env vs id (copy R g a)
      keep_left at = Decides-copy R env vs g id a valued la p at

      keep_right : get_elem? vs id ≡ some y → Decides R env vs id (copy R g b)
      keep_right at = Decides-copy R env vs g id b valued lb q at

      zero_node :
          get_elem? vs id ≡ some (zero_f R) → Decides R env vs id (some (some (Node.const 0)))
      unfolding children
      zero_node at = Decides-node R env vs id (Node.const 0) tt (eval_const R env vs 0) at

      simplify_add_sound :
          get_elem? vs id ≡ some (R.add x y) → Decides R env vs id (simplify_add R g a b)
      unfolding simplify_add
      simplify_add_sound at =
          Decides-if R env vs id (is_const R g b 0) _ _
            (λ e. keep_left (
              right_known R.add 0 at e
                (exact.add_zero x (a, p) (id, right_known R.add 0 at e refl))))
            λ _.
              Decides-if R env vs id (is_const R g a 0) _ _
                (λ e. keep_right (
                  left_known R.add 0 at e (
                    ieee.add_comm (zero_f R) y
                    ∙ exact.add_zero y (b, q)
                        (id, left_known R.add 0 at e (ieee.add_comm (zero_f R) y)))))
                λ _. Decides-none R env vs id

      simplify_sub_sound :
          get_elem? vs id ≡ some (R.sub x y) → Decides R env vs id (simplify_sub R g a b)
      unfolding simplify_sub
      simplify_sub_sound at =
          Decides-if R env vs id (is_const R g b 0) _ _
            (λ e. keep_left (right_known R.sub 0 at e (ieee.sub_zero x)))
            λ _.
              Decides-if R env vs id (a == b) _ _
                (λ e.
                  let same = some-inj (sym p ∙ ap (get_elem? vs) ((==_iff a b).0 e) ∙ q) in
                  zero_node (
                    at
                    ∙ ap some (
                        ap (R.sub x) (sym same)
                        ∙ exact.sub_self x (a, p) (id, at ∙ ap some (ap (R.sub x) (sym same))))))
                λ _. Decides-none R env vs id

      simplify_div_sound :
          get_elem? vs id ≡ some (R.div x y) → Decides R env vs id (simplify_div R g a b)
      unfolding simplify_div
      simplify_div_sound at =
          Decides-if R env vs id (is_const R g b one_bits) _ _
            (λ e. keep_left (right_known R.div one_bits at e (ieee.div_one x)))
            λ _. Decides-none R env vs id

      -- For a node of the shared operand: its root times itself.
      cancel_sqrt_sound :
          (n : Node)
          → get_elem? g.nodes a ≡ some n
          → get_elem? vs id ≡ some (R.mul x x)
          → Decides R env vs id (cancel_sqrt R g n)
      unfolding cancel_sqrt apply_unary
      cancel_sqrt_sound (Node.unary UnaryOp.sqrt c) e at =
          let (z, r, outer, below) = unary_operand R env vs g a c UnaryOp.sqrt valued e in
          let root = some-inj (sym p ∙ outer) in
          Decides-copy R env vs g id c valued (omega arith) r (
            at
            ∙ ap some (
                ap₂ R.mul root root
                ∙ exact.sqrt_mul_sqrt z (c, r) (a, outer) (id, at ∙ ap some (ap₂ R.mul root root))))
      cancel_sqrt_sound _ e at = Decides-none R env vs id

      square_sound : get_elem? vs id ≡ some (R.mul x y) → Decides R env vs id (square R g a b)
      unfolding square
      square_sound at =
          Decides-if R env vs id (a == b) _ _
            (λ e.
              let same = some-inj (sym p ∙ ap (get_elem? vs) ((==_iff a b).0 e) ∙ q) in
              Decides-read R env vs g id a (cancel_sqrt R g) valued p
                λ n m. cancel_sqrt_sound n m (at ∙ ap some (ap (R.mul x) (sym same))))
            λ _. Decides-none R env vs id

      simplify_mul_sound :
          get_elem? vs id ≡ some (R.mul x y) → Decides R env vs id (simplify_mul R g a b)
      unfolding simplify_mul
      simplify_mul_sound at =
          Decides-if R env vs id (is_const R g b 0) _ _
            (λ e. zero_node (
              right_known R.mul 0 at e
                (exact.mul_zero x (a, p) (id, right_known R.mul 0 at e refl))))
            λ _.
              Decides-if R env vs id (is_const R g a 0) _ _
                (λ e. zero_node (
                  left_known R.mul 0 at e (
                    ieee.mul_comm (zero_f R) y
                    ∙ exact.mul_zero y (b, q)
                        (id, left_known R.mul 0 at e (ieee.mul_comm (zero_f R) y)))))
                λ _.
                  Decides-if R env vs id (is_const R g b one_bits) _ _
                    (λ e. keep_left (
                      right_known R.mul one_bits at e (ieee.mul_comm x (one_f R) ∙ ieee.one_mul x)))
                    λ _.
                      Decides-if R env vs id (is_const R g a one_bits) _ _
                        (λ e. keep_right (left_known R.mul one_bits at e (ieee.one_mul y)))
                        λ _. square_sound at

    simplify_abs_sound :
        (id a : NodeId) (n : Node) {x : R.F}
        → get_elem? g.nodes a ≡ some n
        → a < id
        → get_elem? vs a ≡ some x
        → get_elem? vs id ≡ some (R.abs x)
        → Decides R env vs id (simplify_abs R g a n)
    unfolding simplify_abs apply_unary children
    simplify_abs_sound id a (Node.unary UnaryOp.abs c) e lt p at =
        let (z, r, outer, below) = unary_operand R env vs g a c UnaryOp.abs valued e in
        let inner = some-inj (sym p ∙ outer) in
        Decides-copy R env vs g id a valued lt p
          (at ∙ ap some (ap R.abs inner ∙ ieee.abs_abs z ∙ sym inner))
    simplify_abs_sound id a (Node.unary UnaryOp.sqrt c) e lt p at =
        let (z, r, outer, below) = unary_operand R env vs g a c UnaryOp.sqrt valued e in
        let inner = some-inj (sym p ∙ outer) in
        Decides-copy R env vs g id a valued lt p (
          at
          ∙ ap some (
              ap R.abs inner
              ∙ exact.abs_sqrt z (c, r) (a, outer) (id, at ∙ ap some (ap R.abs inner))
              ∙ sym inner))
    simplify_abs_sound id a (Node.unary UnaryOp.neg c) e lt p at =
        let (z, r, outer, below) = unary_operand R env vs g a c UnaryOp.neg valued e in
        let inner = some-inj (sym p ∙ outer) in
        Decides-node R env vs id (Node.unary UnaryOp.abs c) (omega arith, tt)
          (eval_unary R env vs UnaryOp.abs c r) (at ∙ ap some (ap R.abs inner ∙ ieee.abs_neg z))
    simplify_abs_sound id a _ e lt p at = Decides-none R env vs id

    simplify_log_sound :
        (id a : NodeId) (n : Node) {x : R.F}
        → get_elem? g.nodes a ≡ some n
        → a < id
        → get_elem? vs a ≡ some x
        → get_elem? vs id ≡ some (R.ln x)
        → Decides R env vs id (simplify_log R g n)
    unfolding simplify_log apply_unary
    simplify_log_sound id a (Node.unary UnaryOp.exp c) e lt p at =
        let (z, r, outer, below) = unary_operand R env vs g a c UnaryOp.exp valued e in
        Decides-copy R env vs g id c valued (omega arith) r (
          at
          ∙ ap some (
              ap R.ln (some-inj (sym p ∙ outer))
              ∙ exact.ln_exp z (c, r) (a, outer)
                  (id, at ∙ ap some (ap R.ln (some-inj (sym p ∙ outer))))))
    simplify_log_sound id a _ e lt p at = Decides-none R env vs id

  pub algebraic_node-IsSound : IsSound R env vs (algebraic_node R)
  unfolding algebraic_node apply_binary apply_unary
  algebraic_node-IsSound g id (Node.binary BinOp.add a b) valued e =
      let (x, y, p, q, at, la, lb) = binary_operands R env vs g id a b BinOp.add valued e in
      simplify_add_sound g valued id a b x y p q la lb at
  algebraic_node-IsSound g id (Node.binary BinOp.sub a b) valued e =
      let (x, y, p, q, at, la, lb) = binary_operands R env vs g id a b BinOp.sub valued e in
      simplify_sub_sound g valued id a b x y p q la lb at
  algebraic_node-IsSound g id (Node.binary BinOp.mul a b) valued e =
      let (x, y, p, q, at, la, lb) = binary_operands R env vs g id a b BinOp.mul valued e in
      simplify_mul_sound g valued id a b x y p q la lb at
  algebraic_node-IsSound g id (Node.binary BinOp.div a b) valued e =
      let (x, y, p, q, at, la, lb) = binary_operands R env vs g id a b BinOp.div valued e in
      simplify_div_sound g valued id a b x y p q la lb at
  algebraic_node-IsSound g id (Node.unary UnaryOp.neg a) valued e =
      let (x, p, at, lt) = unary_operand R env vs g id a UnaryOp.neg valued e in
      Decides-read R env vs g id a (cancel_neg R g) valued p
        λ n m. cancel_neg_sound R env vs ieee exact g valued id a n m lt p at
  algebraic_node-IsSound g id (Node.unary UnaryOp.abs a) valued e =
      let (x, p, at, lt) = unary_operand R env vs g id a UnaryOp.abs valued e in
      Decides-read R env vs g id a (simplify_abs R g a) valued p
        λ n m. simplify_abs_sound g valued id a n m lt p at
  algebraic_node-IsSound g id (Node.unary UnaryOp.log a) valued e =
      let (x, p, at, lt) = unary_operand R env vs g id a UnaryOp.log valued e in
      Decides-read R env vs g id a (simplify_log R g) valued p
        λ n m. simplify_log_sound g valued id a n m lt p at
  algebraic_node-IsSound g id _ valued e = Decides-none R env vs id

  -- In IEEE arithmetic, at a graph with values at which the identities that the passes use are
  -- exact, `algebraic_simplify` at an id does not panic, and it keeps the value of every node, the
  -- outputs and the signature.
  pub algebraic_simplify_sound :
      (g : Graph R) (id : NodeId)
      → IsValued R env vs g
      → id < length g.nodes
      → (g' : Graph R) × (changed : Bool) × (algebraic_simplify R g id ≡ some (g', changed))
        × IsValued R env vs g'
        × SameFrame R env vs g g'
  unfolding algebraic_simplify
  algebraic_simplify_sound g id valued lt =
      rewrite_at_sound R env vs (algebraic_node R) g id algebraic_node-IsSound valued lt
