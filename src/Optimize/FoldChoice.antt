-- ===== src/Optimize/FoldChoice.antt =====
-- ssa/optimize.rs: the folds of `insert_canonical` give no other value than the node has.
use fastsim.Common.{
  ◌<◌, ◌≡◌, refl, ap, ap₂, ◌∙◌, Bool, true, false, ◌&&◌, List, [], ◌∷◌, Option, none, some, ◌>>=◌,
  get_elem?, length, if◌then◌else◌,
}
use fastsim.F64.{F64, zero_f, one_f}
use fastsim.F64.Laws.{IeeeLaws}
use fastsim.Op.Kinds.{BinOp, UnaryOp, CmpOp, ReduceOp}
use fastsim.Op.Apply.{apply_binary, apply_unary, apply_cmp, cmp_cond, float_eq_tol}
use fastsim.Op.Lanes.{reduce_scalar}
use fastsim.Graph.Node.{Node}
use fastsim.Graph.Build.{Graph}
use fastsim.Graph.Eval.{Env, eval_node}
use fastsim.Graph.Meaning.Values.{Below}
use fastsim.Optimize.Fold.{is_division, unary_fold_in_domain}
use fastsim.Optimize.Canonical.{
  Choice, folded, known, kept, commutes, is_symmetric, unless_nan, fold_pair, fold_one, fold_cmp,
  fold_fma, or_kept,
}

module _ (R : F64) (env : Env R) (vs : List R.F) (g : Graph R) where
  -- A choice for a node that has the value `v`.
  abbrev pub Chooses : R.F → Choice R.F → Type 0
  Chooses v (folded r) = r ≡ v
  Chooses v (known id) = (id < length g.nodes) × (get_elem? vs id ≡ some v)
  Chooses v (kept n) = Below (length g.nodes) n × (eval_node R (get_elem? vs) env n ≡ some v)

  -- A fold that gives no value other than `v`.
  abbrev pub FoldsTo : R.F → Option R.F → Type 0
  FoldsTo v none = Unit
  FoldsTo v (some r) = r ≡ v

  pub or_kept-Chooses :
      (v : R.F) (o : Option R.F) (n : Node)
      → FoldsTo v o
      → Below (length g.nodes) n
      → eval_node R (get_elem? vs) env n ≡ some v
      → Chooses v (or_kept R o n)
  unfolding or_kept
  or_kept-Chooses v none n h below e = (below, e)
  or_kept-Chooses v (some r) n h below e = h

  FoldsTo-if :
      (v : R.F) (t : Bool) (o p : Option R.F)
      → FoldsTo v o
      → FoldsTo v p
      → FoldsTo v (if t then o else p)
  FoldsTo-if v true o p h k = h
  FoldsTo-if v false o p h k = k

  unless_nan-FoldsTo : (r v : R.F) → r ≡ v → FoldsTo v (unless_nan R r)
  unfolding unless_nan
  unless_nan-FoldsTo r v e = FoldsTo-if v (R.is_nan r) none (some r) tt e

  -- A known constant is the value of its node.
  abbrev pub Agrees : Option R.F → R.F → Type 0
  Agrees none x = Unit
  Agrees (some v) x = v ≡ x

  pub fold_pair-FoldsTo :
      (op : BinOp) (o p : Option R.F) (x y : R.F)
      → Agrees o x
      → Agrees p y
      → FoldsTo (apply_binary R op x y) (fold_pair R op o p)
  unfolding fold_pair
  fold_pair-FoldsTo op (some a) (some b) x y e f =
      FoldsTo-if (apply_binary R op x y) (is_division R op && R.eq b (zero_f R)) none
        (unless_nan R (apply_binary R op a b)) tt
        (unless_nan-FoldsTo (apply_binary R op a b) (apply_binary R op x y)
          (ap₂ (apply_binary R op) e f))
  fold_pair-FoldsTo op (some a) none x y e f = tt
  fold_pair-FoldsTo op none p x y e f = tt

  pub fold_one-FoldsTo :
      (op : UnaryOp) (o : Option R.F) (x : R.F)
      → Agrees o x
      → FoldsTo (apply_unary R op x) (fold_one R op o)
  unfolding fold_one
  fold_one-FoldsTo op (some a) x e =
      FoldsTo-if (apply_unary R op x) (unary_fold_in_domain R op a)
        (unless_nan R (apply_unary R op a)) none
        (unless_nan-FoldsTo (apply_unary R op a) (apply_unary R op x) (ap (apply_unary R op) e)) tt
  fold_one-FoldsTo op none x e = tt

  pub fold_cmp-FoldsTo :
      (op : CmpOp) (o p : Option R.F) (x y : R.F)
      → Agrees o x
      → Agrees p y
      → FoldsTo (apply_cmp R op x y) (fold_cmp R op o p)
  unfolding fold_cmp
  fold_cmp-FoldsTo op (some a) (some b) x y e f = ap₂ (apply_cmp R op) e f
  fold_cmp-FoldsTo op (some a) none x y e f = tt
  fold_cmp-FoldsTo op none p x y e f = tt

  pub fold_fma-FoldsTo :
      (o p q : Option R.F) (x y z : R.F)
      → Agrees o x
      → Agrees p y
      → Agrees q z
      → FoldsTo (R.mul_add x y z) (fold_fma R o p q)
  unfolding fold_fma
  fold_fma-FoldsTo (some a) (some b) (some c) x y z e f h =
      unless_nan-FoldsTo (R.mul_add a b c) (R.mul_add x y z)
        (ap₂ (λ i j. R.mul_add i j c) e f ∙ ap (R.mul_add x y) h)
  fold_fma-FoldsTo (some a) (some b) none x y z e f h = tt
  fold_fma-FoldsTo (some a) none q x y z e f h = tt
  fold_fma-FoldsTo none p q x y z e f h = tt

  abbrev pub AgreesAll : Option (List R.F) → List R.F → Type 0
  AgreesAll none xs = Unit
  AgreesAll (some l) xs = l ≡ xs

  pub AgreesAll-cons :
      (o : Option R.F) (p : Option (List R.F)) (x : R.F) (xs : List R.F)
      → Agrees o x
      → AgreesAll p xs
      → AgreesAll (o >>= λ v. p >>= λ l. some (v ∷ l)) (x ∷ xs)
  AgreesAll-cons none p x xs e f = tt
  AgreesAll-cons (some v) none x xs e f = tt
  AgreesAll-cons (some v) (some l) x xs e f = ap₂ (λ a b. a ∷ b) e f

  pub AgreesAll-FoldsTo :
      (p : Option (List R.F)) (xs : List R.F) (f : List R.F → R.F)
      → AgreesAll p xs
      → FoldsTo (f xs) (p >>= λ l. some (f l))
  AgreesAll-FoldsTo none xs f e = tt
  AgreesAll-FoldsTo (some l) xs f e = ap f e

  pub Agrees-intro : (o : Option R.F) (x : R.F) → ((v : R.F) → o ≡ some v → v ≡ x) → Agrees o x
  Agrees-intro none x h = tt
  Agrees-intro (some v) x h = h v refl

pub commutes_lem :
    (R : F64) (ieee : IeeeLaws R) (op : BinOp) (x y : R.F)
    → commutes op ≡ true
    → apply_binary R op y x ≡ apply_binary R op x y
unfolding commutes apply_binary
commutes_lem R ieee BinOp.add x y h = ieee.add_comm y x
commutes_lem R ieee BinOp.mul x y h = ieee.mul_comm y x
commutes_lem R ieee BinOp.hypot x y h = ieee.hypot_comm y x
commutes_lem R ieee BinOp.sub x y h = cc
commutes_lem R ieee BinOp.div x y h = cc
commutes_lem R ieee BinOp.pow x y h = cc
commutes_lem R ieee BinOp.modulo x y h = cc
commutes_lem R ieee BinOp.min x y h = cc
commutes_lem R ieee BinOp.max x y h = cc
commutes_lem R ieee BinOp.atan2 x y h = cc

pub is_symmetric_lem :
    (R : F64) (ieee : IeeeLaws R) (op : CmpOp) (x y : R.F)
    → is_symmetric op ≡ true
    → apply_cmp R op y x ≡ apply_cmp R op x y
unfolding is_symmetric apply_cmp cmp_cond
is_symmetric_lem R ieee CmpOp.eq x y h =
    ap (λ d. if R.lt d (float_eq_tol R) then one_f R else zero_f R) (ieee.distance_comm y x)
is_symmetric_lem R ieee CmpOp.ne x y h =
    ap (λ d. if R.le (float_eq_tol R) d then one_f R else zero_f R) (ieee.distance_comm y x)
is_symmetric_lem R ieee CmpOp.gt x y h = cc
is_symmetric_lem R ieee CmpOp.ge x y h = cc
is_symmetric_lem R ieee CmpOp.lt x y h = cc
is_symmetric_lem R ieee CmpOp.le x y h = cc

-- A product of one factor is the factor.
pub reduce_one :
    (R : F64) (ieee : IeeeLaws R) (x : R.F) → reduce_scalar R ReduceOp.product (x ∷ []) ≡ x
unfolding reduce_scalar
reduce_one R ieee x =
    ap (λ o. R.mul (R.mul o o) x) (ieee.one_mul (one_f R))
    ∙ ap (λ o. R.mul o x) (ieee.one_mul (one_f R))
    ∙ ieee.one_mul x

pub and_true : (a b : Bool) → (a && b) ≡ true → a ≡ true
and_true true b h = refl
and_true false b h = h
