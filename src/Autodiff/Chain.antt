-- ===== src/Autodiff/Chain.antt =====
-- The reference derivative satisfies the equations of the chain rule.
use fastsim.Common.{
  ℕ, zero, suc, ◌<◌, ◌≡◌, refl, ap, ap₂, ◌∙◌, List, [], ◌∷◌, map, some, All-append_left,
  All-append_right, Option-cases, inl, inr, All, All-map, get_elem?, arith,
}
use fastsim.F64.{F64, zero_f}
use fastsim.Op.Kinds.{BinOp, CmpOp, ReduceOp}
use fastsim.Graph.Node.{Node, NodeId, children}
use fastsim.Graph.Meaning.Values.{IsOrdered}
use fastsim.Autodiff.Tangent.{
  collapsed, product_tangents, tangent_extremum, dot_term, tangent_dot_from, tangent_dot,
  tangent_reduce, tangent_kind, tangent_node, derivative_at, derivative,
}

-- The loops over operands give the same on derivatives that agree on them.
module _ (R : F64) (x t t' : NodeId → R.F) where
  map-congr : (args : List NodeId) → All (λ c. t c ≡ t' c) args → map t args ≡ map t' args
  map-congr [] h = refl
  map-congr (a ∷ args) h = ap₂ (λ u us. u ∷ us) h.0 (map-congr args h.1)

  product_tangents-congr :
      (args : List NodeId) (i : ℕ) (later : List NodeId)
      → All (λ c. t c ≡ t' c) later
      → product_tangents R x t args i later ≡ product_tangents R x t' args i later
  unfolding product_tangents
  product_tangents-congr args i [] h = refl
  product_tangents-congr args i (a ∷ later) h =
      rw (h.0, product_tangents-congr args (suc i) later h.1)

  tangent_extremum-congr :
      (op : CmpOp) (bin_op : BinOp) (args : List NodeId) (running d : R.F)
      → All (λ c. t c ≡ t' c) args
      → tangent_extremum R x t op bin_op args running d
        ≡ tangent_extremum R x t' op bin_op args running d
  unfolding tangent_extremum
  tangent_extremum-congr op bin_op [] running d h = refl
  tangent_extremum-congr op bin_op (a ∷ args) running d h =
      rw h.0 (tangent_extremum-congr op bin_op args _ _ h.1)

  running-congr :
      (op : CmpOp) (bin_op : BinOp) (a : NodeId) (args : List NodeId)
      → All (λ c. t c ≡ t' c) (a ∷ args)
      → tangent_extremum R x t op bin_op args (x a) (t a)
        ≡ tangent_extremum R x t' op bin_op args (x a) (t' a)
  running-congr op bin_op a args h = rw h.0 (tangent_extremum-congr op bin_op args (x a) (t' a) h.1)

  dot_term-congr :
      (a b : NodeId) → t a ≡ t' a → t b ≡ t' b → dot_term R x t a b ≡ dot_term R x t' a b
  unfolding dot_term
  dot_term-congr a b e e' = ap₂ (λ u w. R.add (R.mul (x a) w) (R.mul u (x b))) e e'

  tangent_dot_from-congr :
      (acc : R.F) (us ws : List NodeId)
      → All (λ c. t c ≡ t' c) us
      → All (λ c. t c ≡ t' c) ws
      → tangent_dot_from R x t acc us ws ≡ tangent_dot_from R x t' acc us ws
  unfolding tangent_dot_from
  tangent_dot_from-congr acc [] ws h k = refl
  tangent_dot_from-congr acc (a ∷ us) [] h k = refl
  tangent_dot_from-congr acc (a ∷ us) (b ∷ ws) h k =
      ap (λ e. tangent_dot_from R x t (R.add acc e) us ws) (dot_term-congr a b h.0 k.0)
      ∙ tangent_dot_from-congr (R.add acc (dot_term R x t' a b)) us ws h.1 k.1

  pub tangent_dot-congr :
      (us ws : List NodeId)
      → All (λ c. t c ≡ t' c) us
      → All (λ c. t c ≡ t' c) ws
      → tangent_dot R x t us ws ≡ tangent_dot R x t' us ws
  unfolding tangent_dot
  tangent_dot-congr [] ws h k = refl
  tangent_dot-congr (a ∷ us) [] h k = refl
  tangent_dot-congr (a ∷ us) (b ∷ ws) h k =
      ap (λ e. tangent_dot_from R x t e us ws) (dot_term-congr a b h.0 k.0)
      ∙ tangent_dot_from-congr _ us ws h.1 k.1

  pub tangent_reduce-congr :
      (op : ReduceOp) (args : List NodeId)
      → All (λ c. t c ≡ t' c) args
      → tangent_reduce R x t op args ≡ tangent_reduce R x t' op args
  unfolding tangent_reduce
  tangent_reduce-congr ReduceOp.sum args h =
      ap (λ ys. collapsed R ReduceOp.sum ys (zero_f R)) (map-congr args h)
  tangent_reduce-congr ReduceOp.product args h =
      ap (λ ys. collapsed R ReduceOp.sum ys (zero_f R)) (product_tangents-congr args 0 args h)
  tangent_reduce-congr ReduceOp.min [] h = refl
  tangent_reduce-congr ReduceOp.max [] h = refl
  tangent_reduce-congr ReduceOp.min (a ∷ args) h = running-congr CmpOp.lt BinOp.min a args h
  tangent_reduce-congr ReduceOp.max (a ∷ args) h = running-congr CmpOp.gt BinOp.max a args h

module _ (R : F64) (nodes : List Node) (target : Node) (x : NodeId → R.F) (wrt : NodeId) where
  tangent_kind-congr :
      (t t' : NodeId → R.F) (n : Node)
      → All (λ c. t c ≡ t' c) (children n)
      → tangent_kind R nodes target x t n ≡ tangent_kind R nodes target x t' n
  unfolding tangent_kind children
  tangent_kind-congr t t' (Node.const bits) h = refl
  tangent_kind-congr t t' (Node.input i) h = refl
  tangent_kind-congr t t' (Node.param i) h = refl
  tangent_kind-congr t t' (Node.unary op a) h = rw h.0
  tangent_kind-congr t t' (Node.cmp op a b) h = refl
  tangent_kind-congr t t' (Node.select c a b) h = rw (h.1.0, h.1.1.0)
  tangent_kind-congr t t' (Node.fma a b c) h =
      ap₂ R.add (ap₂ (λ u v. R.add (R.mul (x a) u) (R.mul (x b) v)) h.1.0 h.0) h.1.1.0
  tangent_kind-congr t t' (Node.reduce op args) h = tangent_reduce-congr R x t t' op args h
  tangent_kind-congr t t' (Node.dot xs ys) h =
      tangent_dot-congr R x t t' xs ys (All-append_left _ xs ys h) (All-append_right _ xs ys h)
  tangent_kind-congr t t' (Node.binary BinOp.pow a b) h = rw (h.0, h.1.0)
  tangent_kind-congr t t' (Node.binary BinOp.modulo a b) h = refl
  tangent_kind-congr t t' (Node.binary op a b) h = rw (h.0, h.1.0)

  tangent_node-congr :
      (t t' : NodeId → R.F) (i : NodeId) (n : Node)
      → All (λ c. t c ≡ t' c) (children n)
      → tangent_node R nodes target x t wrt i n ≡ tangent_node R nodes target x t' wrt i n
  unfolding tangent_node
  tangent_node-congr t t' i n h = rw (tangent_kind-congr t t' n h)

  -- The fuel does not matter.
  derivative_at-stable :
      (fuel fuel' : ℕ) (i : NodeId)
      → IsOrdered nodes
      → i < fuel
      → i < fuel'
      → derivative_at R nodes target x wrt fuel i ≡ derivative_at R nodes target x wrt fuel' i
  unfolding derivative_at
  derivative_at-stable zero fuel' i ordered lt lt' = absurd (omega (arith, lt))
  derivative_at-stable (suc fuel) zero i ordered lt lt' = absurd (omega (arith, lt'))
  derivative_at-stable (suc fuel) (suc fuel') i ordered lt lt' =
      elim (Option-cases (get_elem? nodes i)) [
        | inl missing ↦ rw (missing, derivative_at) refl
        | inr (n, at) ↦
            rw (at, derivative_at)
              (tangent_node-congr (derivative_at R nodes target x wrt fuel)
                (derivative_at R nodes target x wrt fuel') i n
                (All-map
                  (λ c (below : c < i).
                    derivative_at-stable fuel fuel' c ordered (omega (arith, below, lt))
                      (omega (arith, below, lt')))
                  (children n) (ordered i n at)))
      ]

  pub derivative-tangent_node :
      (i : NodeId) (n : Node)
      → IsOrdered nodes
      → get_elem? nodes i ≡ some n
      → derivative R nodes target x wrt i
        ≡ tangent_node R nodes target x (derivative R nodes target x wrt) wrt i n
  unfolding derivative
  derivative-tangent_node i n ordered at =
      rw (derivative_at, at)
        (tangent_node-congr (derivative_at R nodes target x wrt i) (derivative R nodes target x wrt)
          i n
          (All-map
            (λ c (below : c < i). derivative_at-stable i (suc c) c ordered below (omega arith))
            (children n) (ordered i n at)))
