-- ===== src/Optimize/FmaSound.antt =====
-- ssa/optimize.rs: `detect_fma` keeps every value, where the fused operation rounds as the two do.
use fastsim.Common.{◌<◌, ◌≡◌, sym, ap, ◌∙◌, Bool, List, some, get_elem?, length, some-inj, arith}
use fastsim.F64.{F64}
use fastsim.F64.Laws.{IeeeLaws, IsExactAt}
use fastsim.Op.Kinds.{BinOp}
use fastsim.Op.Apply.{apply_binary}
use fastsim.Graph.Node.{Node, NodeId, children}
use fastsim.Graph.Build.{Graph}
use fastsim.Graph.Eval.{Env, eval_node}
use fastsim.Optimize.InPlace.{IsValued, IsSound, SameFrame, rewrite_at_sound}
use fastsim.Optimize.Fma.{fma_left, fma_right, fma_node, detect_fma}
use fastsim.Optimize.Decide.{Decides, Decides-none, Decides-node, Decides-read, binary_operands}

module _ (R : F64) (env : Env R) (vs : List R.F) (ieee : IeeeLaws R) (exact : IsExactAt R vs) where
  eval_fma :
      (a b c : NodeId) {x y z : R.F}
      → get_elem? vs a ≡ some x
      → get_elem? vs b ≡ some y
      → get_elem? vs c ≡ some z
      → eval_node R (get_elem? vs) env (Node.fma a b c) ≡ some (R.mul_add x y z)
  unfolding eval_node
  eval_fma a b c p q r = rw (p, q, r)

  module _ (g : Graph R) (valued : IsValued R env vs g) (id : NodeId) where
    -- The product at `m` and the operand `c`, in either order.
    fuse :
        (m c a b : NodeId) {x z : R.F}
        → get_elem? g.nodes m ≡ some (Node.binary BinOp.mul a b)
        → get_elem? vs m ≡ some x
        → get_elem? vs c ≡ some z
        → m < id
        → c < id
        → get_elem? vs id ≡ some (R.add x z)
        → Decides R env vs id (some (some (Node.fma a b c)))
    unfolding apply_binary children
    fuse m c a b {x} {z} e p q lm lc at =
        let (u, v, r, s, product, la, lb) = binary_operands R env vs g m a b BinOp.mul valued e in
        Decides-node R env vs id (Node.fma a b c) (omega arith, (omega arith, (lc, tt)))
          (eval_fma a b c r s q)
          (at
            ∙ ap some (
                ap (λ k. R.add k z) (some-inj (sym p ∙ product))
                ∙ sym (
                    exact.mul_add_split u v z (a, r) (b, s) (c, q) (m, product)
                      (id, at ∙ ap some (ap (λ k. R.add k z) (some-inj (sym p ∙ product)))))))

    fma_right_sound :
        (m c : NodeId) (n : Node) {x z : R.F}
        → get_elem? g.nodes c ≡ some n
        → get_elem? vs m ≡ some x
        → get_elem? vs c ≡ some z
        → m < id
        → c < id
        → get_elem? vs id ≡ some (R.add x z)
        → Decides R env vs id (some (fma_right R m n))
    unfolding fma_right
    fma_right_sound m c (Node.binary BinOp.mul a b) {x} {z} e p q lm lc at =
        fuse c m a b e q p lc lm (at ∙ ap some (ieee.add_comm x z))
    fma_right_sound m c _ e p q lm lc at = Decides-none R env vs id

    fma_left_sound :
        (m c : NodeId) (n : Node) {x z : R.F}
        → get_elem? g.nodes m ≡ some n
        → get_elem? vs m ≡ some x
        → get_elem? vs c ≡ some z
        → m < id
        → c < id
        → get_elem? vs id ≡ some (R.add x z)
        → Decides R env vs id (fma_left R g m c n)
    unfolding fma_left
    fma_left_sound m c (Node.binary BinOp.mul a b) e p q lm lc at = fuse m c a b e p q lm lc at
    fma_left_sound m c _ e p q lm lc at =
        Decides-read R env vs g id c (λ k. some (fma_right R m k)) valued q
          λ k h. fma_right_sound m c k h p q lm lc at

  pub fma_node-IsSound : IsSound R env vs (fma_node R)
  unfolding fma_node apply_binary
  fma_node-IsSound g id (Node.binary BinOp.add m c) valued e =
      let (x, z, p, q, at, lm, lc) = binary_operands R env vs g id m c BinOp.add valued e in
      Decides-read R env vs g id m (fma_left R g m c) valued p
        λ n h. fma_left_sound g valued id m c n h p q lm lc at
  fma_node-IsSound g id _ valued e = Decides-none R env vs id

  -- In IEEE arithmetic, at a graph with values at which the identities that the passes use are
  -- exact, `detect_fma` at an id does not panic, and it keeps the value of every node, the outputs
  -- and the signature.
  pub detect_fma_sound :
      (g : Graph R) (id : NodeId)
      → IsValued R env vs g
      → id < length g.nodes
      → (g' : Graph R) × (changed : Bool) × (detect_fma R g id ≡ some (g', changed))
        × IsValued R env vs g'
        × SameFrame R env vs g g'
  unfolding detect_fma
  detect_fma_sound g id valued lt =
      rewrite_at_sound R env vs (fma_node R) g id fma_node-IsSound valued lt
