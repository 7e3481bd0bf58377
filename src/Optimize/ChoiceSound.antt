-- ===== src/Optimize/ChoiceSound.antt =====
-- ssa/optimize.rs: what `insert_canonical` chooses has the value of the node, in IEEE arithmetic.
use fastsim.Common.{
  ◌<◌, ◌≡◌, refl, sym, ap, ap₂, subst, ◌∙◌, Bool, true, false, List, [], ◌∷◌, Option, none, some,
  some-inj, ◌>>=◌, Bool-cases, inl, inr, All, All-append_left, All-append_right, get_elem?,
  get_elem?-total, length, ◌==◌, ==_iff, if◌then◌else◌, arith,
}
use fastsim.F64.{F64, zero_f, one_bits}
use fastsim.F64.Laws.{IeeeLaws}
use fastsim.Op.Kinds.{BinOp, ReduceOp}
use fastsim.Op.Apply.{apply_binary, apply_unary, apply_cmp}
use fastsim.Op.Lanes.{reduce_scalar, dot_scalar}
use fastsim.Graph.Node.{Node, NodeId, children}
use fastsim.Graph.Build.{Graph, const_value, is_const}
use fastsim.Graph.Eval.{Env, eval_node, read_all, select_value}
use fastsim.Graph.Meaning.Values.{Below, eval_node_total}
use fastsim.Optimize.InPlace.{IsValued}
use fastsim.Optimize.Decide.{is_const_value}
use fastsim.Optimize.Canonical.{
  Choice, known, kept, sort_operands, fold_pair, fold_one, fold_cmp, fold_fma, const_values,
  or_kept, choose_select, choose_reduce, choose_simple, choose_fma, choose,
}
use fastsim.Optimize.FoldChoice.{
  Chooses, FoldsTo, or_kept-Chooses, Agrees, fold_pair-FoldsTo, fold_one-FoldsTo, fold_cmp-FoldsTo,
  fold_fma-FoldsTo, AgreesAll, AgreesAll-FoldsTo, reduce_one,
}
use fastsim.Optimize.SortSound.{operand_value, operand_values, sort_lem}

module _ (R : F64) (env : Env R) (vs : List R.F) (g : Graph R) (ieee : IeeeLaws R)
    (valued : IsValued R env vs g) where
  -- The choice has the value of the node.
  abbrev pub ChoosesFor : Node → Choice R.F → Type 0
  ChoosesFor n choice =
      (v : R.F) × (eval_node R (get_elem? vs) env n ≡ some v) × Chooses R env vs g v choice

  eval_select :
      (c t e : NodeId) (x y z : R.F)
      → get_elem? vs c ≡ some x
      → get_elem? vs t ≡ some y
      → get_elem? vs e ≡ some z
      → eval_node R (get_elem? vs) env (Node.select c t e)
        ≡ some (if R.eq x (zero_f R) then z else y)
  unfolding eval_node
  eval_select c t e x y z p q r = elim (Bool-cases (R.eq x (zero_f R))) [
    | inl zero_c ↦ rw (p, zero_c, select_value) r
    | inr other ↦ rw (p, other, select_value) q
  ]

  branch :
      (b : Bool) (t e : NodeId) (y z : R.F)
      → t < length g.nodes
      → e < length g.nodes
      → get_elem? vs t ≡ some y
      → get_elem? vs e ≡ some z
      → Chooses R env vs g (if b then z else y) (known (if b then e else t))
  branch true t e y z lt le q r = (le, r)
  branch false t e y z lt le q r = (lt, q)

  same_branch : (b : Bool) (y z : R.F) → y ≡ z → y ≡ (if b then z else y)
  same_branch true y z h = h
  same_branch false y z h = refl

  select_sound :
      (o : Option R.F) (c t e : NodeId) (x y z : R.F)
      → Agrees R env vs g o x
      → Below (length g.nodes) (Node.select c t e)
      → get_elem? vs c ≡ some x
      → get_elem? vs t ≡ some y
      → get_elem? vs e ≡ some z
      → Chooses R env vs g (if R.eq x (zero_f R) then z else y) (choose_select R o c t e)
  unfolding choose_select children
  select_sound (some cv) c t e x y z agree h p q r =
      subst
        (λ k.
          Chooses R env vs g (if R.eq x (zero_f R) then z else y)
            (known (if R.eq k (zero_f R) then e else t)))
        (sym agree) (branch (R.eq x (zero_f R)) t e y z h.1.0 h.1.1.0 q r)
  select_sound none c t e x y z agree h p q r = elim (Bool-cases (t == e)) [
    | inr other ↦ rw other (h, eval_select c t e x y z p q r)
    | inl same ↦ rw same (
      h.1.0,
      q
          ∙ ap some (
              same_branch (R.eq x (zero_f R)) y z
                (some-inj (sym q ∙ ap (get_elem? vs) ((==_iff t e).0 same) ∙ r))),
    )
  ]

  reduce_sound :
      (op : ReduceOp) (args : List NodeId) (xs : List R.F)
      → All (λ c. c < length g.nodes) args
      → read_all R (get_elem? vs) args ≡ some xs
      → AgreesAll R env vs g (const_values R g args) xs
      → Chooses R env vs g (reduce_scalar R op xs) (
          or_kept R
            (const_values R g args >>= λ l. some (reduce_scalar R op l))
            (Node.reduce op args))
  unfolding eval_node children
  reduce_sound op args xs h p e =
      or_kept-Chooses R env vs g (reduce_scalar R op xs)
        (const_values R g args >>= λ l. some (reduce_scalar R op l)) (Node.reduce op args)
        (AgreesAll-FoldsTo R env vs g (const_values R g args) xs (reduce_scalar R op) e) h
        (rw p refl)

  choose_reduce_sound :
      (op : ReduceOp) (args : List NodeId) (xs : List R.F)
      → All (λ c. c < length g.nodes) args
      → read_all R (get_elem? vs) args ≡ some xs
      → AgreesAll R env vs g (const_values R g args) xs
      → Chooses R env vs g (reduce_scalar R op xs) (choose_reduce R g op args)
  unfolding choose_reduce read_all
  choose_reduce_sound ReduceOp.product (a ∷ []) xs h p e =
      let (x, q) = get_elem?-total vs a (omega (arith, h.0, valued.solves.0)) in
      (
        h.0,
        q
            ∙ ap some (
                sym (reduce_one R ieee x)
                ∙ ap (reduce_scalar R ReduceOp.product)
                    (some-inj (sym (ap (λ o. o >>= λ y. some (y ∷ [])) q) ∙ p))),
      )
  choose_reduce_sound ReduceOp.product [] xs h p e = reduce_sound ReduceOp.product [] xs h p e
  choose_reduce_sound ReduceOp.product (a ∷ b ∷ args) xs h p e =
      reduce_sound ReduceOp.product (a ∷ b ∷ args) xs h p e
  choose_reduce_sound ReduceOp.sum args xs h p e = reduce_sound ReduceOp.sum args xs h p e
  choose_reduce_sound ReduceOp.min args xs h p e = reduce_sound ReduceOp.min args xs h p e
  choose_reduce_sound ReduceOp.max args xs h p e = reduce_sound ReduceOp.max args xs h p e

  kept_sound : (n : Node) → Below (length g.nodes) n → ChoosesFor n (kept n)
  kept_sound n h =
      let (v, e) = eval_node_total R env vs n (subst (λ k. Below k n) (sym valued.solves.0) h) in
      (v, e, (h, e))

  choose_simple_sound : (n : Node) → Below (length g.nodes) n → ChoosesFor n (choose_simple R g n)
  unfolding choose_simple eval_node children
  choose_simple_sound (Node.binary op a b) h =
      let (x, p, e) = operand_value R env vs g ieee valued a h.0 in
      let (y, q, f) = operand_value R env vs g ieee valued b h.1.0 in
      let value : eval_node R (get_elem? vs) env (Node.binary op a b)
          ≡ some (apply_binary R op x y) =
        rw (p, q) refl in
      (
        apply_binary R op x y,
        value,
        or_kept-Chooses R env vs g (apply_binary R op x y)
            (fold_pair R op (const_value R g a) (const_value R g b)) (Node.binary op a b)
            (fold_pair-FoldsTo R env vs g op (const_value R g a) (const_value R g b) x y e f) h
            value,
      )
  choose_simple_sound (Node.unary op a) h =
      let (x, p, e) = operand_value R env vs g ieee valued a h.0 in
      let value : eval_node R (get_elem? vs) env (Node.unary op a) ≡ some (apply_unary R op x) =
        rw p refl in
      (
        apply_unary R op x,
        value,
        or_kept-Chooses R env vs g (apply_unary R op x) (fold_one R op (const_value R g a))
            (Node.unary op a) (fold_one-FoldsTo R env vs g op (const_value R g a) x e) h value,
      )
  choose_simple_sound (Node.cmp op a b) h =
      let (x, p, e) = operand_value R env vs g ieee valued a h.0 in
      let (y, q, f) = operand_value R env vs g ieee valued b h.1.0 in
      let value : eval_node R (get_elem? vs) env (Node.cmp op a b) ≡ some (apply_cmp R op x y) =
        rw (p, q) refl in
      (
        apply_cmp R op x y,
        value,
        or_kept-Chooses R env vs g (apply_cmp R op x y)
            (fold_cmp R op (const_value R g a) (const_value R g b)) (Node.cmp op a b)
            (fold_cmp-FoldsTo R env vs g op (const_value R g a) (const_value R g b) x y e f) h
            value,
      )
  choose_simple_sound (Node.select c t e) h =
      let (x, p, agree) = operand_value R env vs g ieee valued c h.0 in
      let (y, q, _) = operand_value R env vs g ieee valued t h.1.0 in
      let (z, r, _) = operand_value R env vs g ieee valued e h.1.1.0 in
      (
        if R.eq x (zero_f R) then z else y,
        eval_select c t e x y z p q r,
        select_sound (const_value R g c) c t e x y z agree h p q r,
      )
  choose_simple_sound (Node.reduce op args) h =
      let (xs, p, e) = operand_values R env vs g ieee valued args h in
      (reduce_scalar R op xs, rw p refl, choose_reduce_sound op args xs h p e)
  choose_simple_sound (Node.dot a b) h =
      let (xs, p, e) = operand_values R env vs g ieee valued a (All-append_left _ a b h) in
      let (ys, q, f) = operand_values R env vs g ieee valued b (All-append_right _ a b h) in
      let value : eval_node R (get_elem? vs) env (Node.dot a b) ≡ some (dot_scalar R xs ys) =
        rw (p, q) refl in
      (
        dot_scalar R xs ys,
        value,
        or_kept-Chooses R env vs g (dot_scalar R xs ys)
            (const_values R g a >>= λ av. const_values R g b >>= λ bv. some (dot_scalar R av bv))
            (Node.dot a b) (dot_folds (const_values R g a) (const_values R g b) xs ys e f) h value,
      )
    where
      dot_folds :
          (o p : Option (List R.F)) (us ws : List R.F)
          → AgreesAll R env vs g o us
          → AgreesAll R env vs g p ws
          → FoldsTo R env vs g
              (dot_scalar R us ws)
              (o >>= λ av. p >>= λ bv. some (dot_scalar R av bv))
      dot_folds none p us ws e f = tt
      dot_folds (some l) none us ws e f = tt
      dot_folds (some l) (some m) us ws e f = ap₂ (dot_scalar R) e f
  choose_simple_sound (Node.fma a b c) h = kept_sound (Node.fma a b c) h
  choose_simple_sound (Node.const b) h = kept_sound (Node.const b) h
  choose_simple_sound (Node.input i) h = kept_sound (Node.input i) h
  choose_simple_sound (Node.param i) h = kept_sound (Node.param i) h

  -- The choice for a node whose operands have been put in order.
  sorted_sound :
      (n : Node) → Below (length g.nodes) n → ChoosesFor n (choose_simple R g (sort_operands n))
  sorted_sound n h =
      let (below, same) = sort_lem R env vs g ieee valued n h in
      let (v, e, chosen) = choose_simple_sound (sort_operands n) below in (v, sym same ∙ e, chosen)

  -- A sum in place of a fused operation of its value.
  sum_sound :
      (b c : NodeId) (y z v : R.F)
      → b < length g.nodes
      → c < length g.nodes
      → get_elem? vs b ≡ some y
      → get_elem? vs c ≡ some z
      → v ≡ R.add y z
      → Chooses R env vs g v (choose_simple R g (sort_operands (Node.binary BinOp.add b c)))
  unfolding children eval_node apply_binary
  sum_sound b c y z v lb lc q r same =
      let (u, e, chosen) = sorted_sound (Node.binary BinOp.add b c) (lb, (lc, tt)) in
      let value : eval_node R (get_elem? vs) env (Node.binary BinOp.add b c) ≡ some (R.add y z) =
        rw (q, r) refl in
      subst
        (λ k. Chooses R env vs g k (choose_simple R g (sort_operands (Node.binary BinOp.add b c))))
        (some-inj (sym e ∙ value) ∙ sym same) chosen

  fma_sound :
      (o : Option R.F) (a b c : NodeId) (x y z : R.F)
      → FoldsTo R env vs g (R.mul_add x y z) o
      → Below (length g.nodes) (Node.fma a b c)
      → get_elem? vs a ≡ some x
      → get_elem? vs b ≡ some y
      → get_elem? vs c ≡ some z
      → Chooses R env vs g (R.mul_add x y z) (choose_fma R g o a b c)
  unfolding choose_fma children eval_node
  fma_sound (some r) a b c x y z e h p q s = e
  fma_sound none a b c x y z e h p q s = elim (Bool-cases (is_const R g a one_bits)) [
    | inl one_a ↦ rw one_a (
        sum_sound b c y z (R.mul_add x y z) h.1.0 h.1.1.0 q s (
          ap (λ k. R.mul_add k y z) (is_const_value R env vs g a one_bits valued one_a p)
          ∙ ieee.one_mul_add y z))
    | inr other_a ↦ elim (Bool-cases (is_const R g b one_bits)) [
      | inl one_b ↦
          rw (other_a, one_b)
            (sum_sound a c x z (R.mul_add x y z) h.0 h.1.1.0 p s (
              ap (λ k. R.mul_add x k z) (is_const_value R env vs g b one_bits valued one_b q)
              ∙ ieee.mul_add_one x z))
      | inr other_b ↦ rw (other_a, other_b) (h, rw (p, q, s) refl)
    ]
  ]

  pub choose_sound : (n : Node) → Below (length g.nodes) n → ChoosesFor n (choose R g n)
  unfolding choose children eval_node
  choose_sound (Node.fma a b c) h =
      let (x, p, e) = operand_value R env vs g ieee valued a h.0 in
      let (y, q, f) = operand_value R env vs g ieee valued b h.1.0 in
      let (z, r, k) = operand_value R env vs g ieee valued c h.1.1.0 in
      (
        R.mul_add x y z,
        rw (p, q, r) refl,
        fma_sound (fold_fma R (const_value R g a) (const_value R g b) (const_value R g c)) a b c x y
            z
            (fold_fma-FoldsTo R env vs g (const_value R g a) (const_value R g b) (const_value R g c)
              x y z e f k)
            h p q r,
      )
  choose_sound (Node.binary op a b) h = sorted_sound (Node.binary op a b) h
  choose_sound (Node.unary op a) h = sorted_sound (Node.unary op a) h
  choose_sound (Node.cmp op a b) h = sorted_sound (Node.cmp op a b) h
  choose_sound (Node.select c t e) h = sorted_sound (Node.select c t e) h
  choose_sound (Node.reduce op args) h = sorted_sound (Node.reduce op args) h
  choose_sound (Node.dot a b) h = sorted_sound (Node.dot a b) h
  choose_sound (Node.const b) h = sorted_sound (Node.const b) h
  choose_sound (Node.input i) h = sorted_sound (Node.input i) h
  choose_sound (Node.param i) h = sorted_sound (Node.param i) h
