-- ===== src/Autodiff/DiffSound.antt =====
-- ssa/autodiff.rs: `differentiate` gives the derivative of the chain rule.
use fastsim.Common.{
  ℕ, ◌≤◌, ◌<◌, ◌≡◌, refl, sym, ap, subst, ◌∙◌, Bool, true, false, List, [], ◌∷◌, ◌++◌, Option, none,
  some, All-append_left, All-append_right, ◌>>=◌, length, lt-length, get_elem?, get_elem?-append,
  if◌then◌else◌, arith,
}
use fastsim.F64.{F64, zero_f, one_f}
use fastsim.F64.Laws.{IeeeLaws}
use fastsim.Op.Kinds.{BinOp, UnaryOp}
use fastsim.Op.Apply.{apply_binary, apply_unary}
use fastsim.Graph.Node.{Node, NodeId, children}
use fastsim.Graph.Build.{Graph, const_of, const_value}
use fastsim.Graph.Eval.{Env}
use fastsim.Graph.Meaning.Values.{Below}
use fastsim.Autodiff.Rules.{Call, unary_rule, binary_rule, power_rule, run_rule}
use fastsim.Autodiff.Diff.{
  Memo, Diff, is_input, is_param, indicator, finish, diff_pow, diff_binary, diff_unary, diff_kind,
}
use fastsim.Autodiff.Tangent.{
  is_same_leaf, exponent_of, tangent_unary, tangent_binary, tangent_power, tangent_pow,
  tangent_kind,
}
use fastsim.Autodiff.RunSound.{rule_value, call_value, all_scoped, is_scoped}
use fastsim.Autodiff.Prepared.{
  Finds, FindsBelow, constant-Finds, unary-Finds, binary-Finds, select-Finds, fma-Finds,
}
use fastsim.Autodiff.Running.{reduce-Finds, dot-Finds}

-- The nodes that the result is stated for: all but `Mod` and `Digamma`.
unfoldable pub has_chain_rule : Node → Bool
has_chain_rule (Node.binary BinOp.modulo a b) = false
has_chain_rule (Node.unary UnaryOp.digamma a) = false
has_chain_rule n = true

is_param-is_same_leaf : (i : ℕ) (n : Node) → is_param i n ≡ is_same_leaf (Node.param i) n
unfolding is_param is_same_leaf
is_param-is_same_leaf i (Node.param j) = refl
is_param-is_same_leaf i _ = refl

is_input-is_same_leaf : (i : ℕ) (n : Node) → is_input i n ≡ is_same_leaf (Node.input i) n
unfolding is_input is_same_leaf
is_input-is_same_leaf i (Node.input j) = refl
is_input-is_same_leaf i _ = refl

const_of-exponent_of : (R : F64) (o : Option Node) → const_of R o ≡ exponent_of R o
unfolding const_of exponent_of
const_of-exponent_of R none = refl
const_of-exponent_of R (some (Node.const bits)) = refl
const_of-exponent_of R (some _) = refl

module _ (R : F64) where
  abbrev nonempty_scoped : ℕ → List (Call R.F) → Bool
  nonempty_scoped n [] = false
  nonempty_scoped n (c ∷ calls) = all_scoped R n (c ∷ calls)

  abbrev option_scoped : Option (List (Call R.F)) → Bool
  option_scoped none = true
  option_scoped (some calls) = nonempty_scoped 2 calls

  abbrev option_value : Option (List (Call R.F)) → R.F → R.F → R.F
  option_value none x dx = zero_f R
  option_value (some calls) x dx = rule_value R calls (x ∷ dx ∷ []) (zero_f R)

  unary_rule-scoped : (op : UnaryOp) → option_scoped (unary_rule R op) ≡ true
  unfolding unary_rule all_scoped is_scoped
  unary_rule-scoped UnaryOp.neg = refl
  unary_rule-scoped _ = refl

  -- A rule computes the formula of the chain rule.
  unary_rule-value :
      (op : UnaryOp) (x dx : R.F) → option_value (unary_rule R op) x dx ≡ tangent_unary R op x dx
  unfolding unary_rule rule_value call_value tangent_unary apply_unary apply_binary
  unary_rule-value UnaryOp.neg x dx = refl
  unary_rule-value _ x dx = refl

  binary_rule-scoped : (op : BinOp) → nonempty_scoped 4 (binary_rule R op) ≡ true
  unfolding binary_rule all_scoped is_scoped
  binary_rule-scoped BinOp.add = refl
  binary_rule-scoped _ = refl

  binary_rule-value :
      (op : BinOp) (x dx y dy : R.F)
      → rule_value R (binary_rule R op) (x ∷ dx ∷ y ∷ dy ∷ []) (zero_f R)
        ≡ tangent_binary R op x dx y dy
  unfolding binary_rule rule_value call_value tangent_binary apply_unary apply_binary
  binary_rule-value BinOp.add x dx y dy = refl
  binary_rule-value _ x dx y dy = refl

module _ (R : F64) (env : Env R) (ieee : IeeeLaws R) (nodes : List Node) (x t : NodeId → R.F)
    (diff : Graph R → Memo → NodeId → Option (Diff R)) (bound : ℕ) (bound_in : bound ≤ length nodes)
    (found : FindsBelow R env ieee nodes x t diff bound) (g : Graph R) (memo : Memo)
    (more : List Node) (extended : g.nodes ≡ nodes ++ more) where
  diff_unary-Finds :
      (rule : Option (List (Call R.F))) (a : NodeId)
      → a < bound
      → option_scoped R rule ≡ true
      → Finds R env ieee nodes x t g memo
          (diff_unary R diff g memo rule a)
          (option_value R rule (x a) (t a))
  unfolding diff_unary
  diff_unary-Finds none a lt s =
      constant-Finds R env ieee nodes x t diff bound bound_in found g memo more extended (zero_f R)
  diff_unary-Finds (some []) a lt s = cc
  diff_unary-Finds (some (c ∷ calls)) a lt s =
      unary-Finds R env ieee nodes x t diff bound bound_in found g memo more extended (c ∷ calls) _
        a lt (λ vs. tt) s refl

  rule-Finds :
      (rule : List (Call R.F)) (v : R.F) (a b : NodeId)
      → a < bound
      → b < bound
      → nonempty_scoped R 4 rule ≡ true
      → rule_value R rule (x a ∷ t a ∷ x b ∷ t b ∷ []) (zero_f R) ≡ v
      → Finds R env ieee nodes x t g memo
          (do
            da ← diff g memo a
            db ← diff da.graph da.memo b
            some (finish R db.memo (run_rule R rule (a ∷ da.id ∷ b ∷ db.id ∷ []) db.graph 0)))
          v
  rule-Finds [] v a b lt lt' s e = cc
  rule-Finds (c ∷ calls) v a b lt lt' s e =
      binary-Finds R env ieee nodes x t diff bound bound_in found g memo more extended (c ∷ calls) v
        a b lt lt' (λ vs. tt) s e

  -- The exponent is constant in the graph just when it is in the old nodes.
  const_value-extended :
      (b : NodeId) → b < bound → const_value R g b ≡ exponent_of R (get_elem? nodes b)
  unfolding const_value
  const_value-extended b lt =
      ap (λ l. const_of R (get_elem? l b)) extended
      ∙ ap (const_of R) (get_elem?-append nodes more b (omega (arith, lt, bound_in)))
      ∙ const_of-exponent_of R (get_elem? nodes b)

  diff_pow-Finds :
      (o : Option R.F) (a b : NodeId)
      → a < bound
      → b < bound
      → Finds R env ieee nodes x t g memo
          (diff_pow R diff g memo a b o)
          (tangent_pow R o (x a) (t a) (x b) (t b))
  unfolding diff_pow tangent_pow tangent_power power_rule all_scoped is_scoped rule_value call_value
  diff_pow-Finds (some c) a b lt lt' =
      unary-Finds R env ieee nodes x t diff bound bound_in found g memo more extended
        (power_rule R c) _ a lt (λ vs. tt) refl refl
  diff_pow-Finds none a b lt lt' =
      rule-Finds (binary_rule R BinOp.pow) _ a b lt lt' (binary_rule-scoped R BinOp.pow)
        (binary_rule-value R BinOp.pow (x a) (t a) (x b) (t b))

  module _ (wrt : NodeId) (target : Node) (wrt_at : get_elem? nodes wrt ≡ some target) where
    target_at : get_elem? g.nodes wrt ≡ some target
    target_at =
        ap (λ l. get_elem? l wrt) extended
        ∙ get_elem?-append nodes more wrt (lt-length nodes wrt wrt_at)
        ∙ wrt_at

    -- A node whose operands have their derivatives found.
    pub diff_kind-Finds :
        (n : Node)
        → Below bound n
        → has_chain_rule n ≡ true
        → Finds R env ieee nodes x t g memo
            (diff_kind R diff g memo wrt n)
            (tangent_kind R nodes target x t n)
    unfolding diff_kind diff_binary tangent_kind children has_chain_rule indicator
    diff_kind-Finds (Node.const bits) below e =
        constant-Finds R env ieee nodes x t diff bound bound_in found g memo more extended
          (zero_f R)
    diff_kind-Finds (Node.cmp op a b) below e =
        constant-Finds R env ieee nodes x t diff bound bound_in found g memo more extended
          (zero_f R)
    diff_kind-Finds (Node.param i) below e =
        rw (target_at, sym (is_param-is_same_leaf i target))
          (constant-Finds R env ieee nodes x t diff bound bound_in found g memo more extended
            (if is_param i target then one_f R else zero_f R))
    diff_kind-Finds (Node.input i) below e =
        rw (target_at, sym (is_input-is_same_leaf i target))
          (constant-Finds R env ieee nodes x t diff bound bound_in found g memo more extended
            (if is_input i target then one_f R else zero_f R))
    diff_kind-Finds (Node.unary op a) below e =
        subst (Finds R env ieee nodes x t g memo (diff_unary R diff g memo (unary_rule R op) a))
          (unary_rule-value R op (x a) (t a))
          (diff_unary-Finds (unary_rule R op) a below.0 (unary_rule-scoped R op))
    diff_kind-Finds (Node.select c a b) below e =
        select-Finds R env ieee nodes x t diff bound bound_in found g memo more extended c a b
          below.0 below.1.0 below.1.1.0
    diff_kind-Finds (Node.fma a b c) below e =
        fma-Finds R env ieee nodes x t diff bound bound_in found g memo more extended a b c below.0
          below.1.0 below.1.1.0
    diff_kind-Finds (Node.reduce op args) below e =
        reduce-Finds R env ieee nodes x t diff bound bound_in found g memo more extended op args
          below
    diff_kind-Finds (Node.dot xs ys) below e =
        dot-Finds R env ieee nodes x t diff bound bound_in found g memo more extended xs ys
          (All-append_left _ xs ys below) (All-append_right _ xs ys below)
    diff_kind-Finds (Node.binary BinOp.modulo a b) below e = cc
    diff_kind-Finds (Node.binary BinOp.pow a b) below e =
        rw (const_value-extended b below.1.0)
          (diff_pow-Finds (exponent_of R (get_elem? nodes b)) a b below.0 below.1.0)
    diff_kind-Finds (Node.binary op a b) below e =
        rule-Finds (binary_rule R op) _ a b below.0 below.1.0 (binary_rule-scoped R op)
          (binary_rule-value R op (x a) (t a) (x b) (t b))
