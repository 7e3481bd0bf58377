-- ===== src/Graph/Eval.antt =====
-- ssa/graph.rs: the recursive evaluation `interpret`.
--
-- An index out of bounds panics in the source; here it is `none`. The kernels `dot` and `reduce`
-- are taken in their portable form, which the AVX2 form equals (Op/Avx).
use fastsim.Common.{ℕ, true, false, List, [], ◌∷◌, ◌++◌, Option, none, some, ◌>>=◌, get_elem?}
use mathlib.Core.Option
use fastsim.F64.{F64, zero_f}
use fastsim.Op.Apply.{apply_binary, apply_unary, apply_cmp}
use fastsim.Op.Lanes.{dot_scalar, reduce_scalar}
use fastsim.Graph.Node.{Node, NodeId}
use fastsim.Graph.Signature.{InputSignature, decode}
use fastsim.Graph.Build.{Graph}

-- What an evaluation reads from outside: the layout, the input slices and the parameters.
pub record Env (R : F64) : Type 0 where
  pub signature : InputSignature
  pub inputs : List (List R.F)
  pub params : List R.F

module _ (R : F64) where
  -- `inputs.get(slot).and_then(|s| s.get(elem)).copied().unwrap_or(0.0)`
  unfoldable pub input_value : Env R → ℕ → R.F
  input_value env flat =
      let (slot, elem) = decode env.signature flat in
      Option.get_or (get_elem? env.inputs slot >>= λ s. get_elem? s elem) (zero_f R)

  unfoldable pub param_value : Env R → ℕ → R.F
  param_value env i = Option.get_or (get_elem? env.params i) (zero_f R)

  module _ (read : NodeId → Option R.F) where
    unfoldable pub read_all : List NodeId → Option (List R.F)
    read_all [] = some []
    read_all (a ∷ args) = do x ← read a; xs ← read_all args; some (x ∷ xs)

    unfoldable pub select_value : R.F → NodeId → NodeId → Option R.F
    select_value c th el = elim (R.eq c (zero_f R)) [ true ↦ read el | false ↦ read th ]

    -- The value of one node, whose operands are read by `read`.
    unfoldable pub eval_node : Env R → Node → Option R.F
    unfolding read_all select_value
    eval_node env (Node.const bits) = some (R.from_bits bits)
    eval_node env (Node.input flat) = some (input_value env flat)
    eval_node env (Node.param i) = some (param_value env i)
    eval_node env (Node.binary op a b) = do x ← read a; y ← read b; some (apply_binary R op x y)
    eval_node env (Node.unary op a) = do x ← read a; some (apply_unary R op x)
    eval_node env (Node.cmp op a b) = do x ← read a; y ← read b; some (apply_cmp R op x y)
    eval_node env (Node.select c th el) = do x ← read c; select_value x th el
    eval_node env (Node.fma a b c) = do x ← read a; y ← read b; z ← read c; some (R.mul_add x y z)
    eval_node env (Node.reduce op args) = do xs ← read_all args; some (reduce_scalar R op xs)
    eval_node env (Node.dot a b) = do xs ← read_all a; ys ← read_all b; some (dot_scalar R xs ys)

  -- The loop over the nodes; the values grow by one a node.
  unfoldable pub eval_nodes : Env R → List R.F → List Node → Option (List R.F)
  eval_nodes env values [] = some values
  eval_nodes env values (n ∷ nodes) = elim (eval_node (get_elem? values) env n) [
    | none ↦ none
    | some v ↦ eval_nodes env (values ++ v ∷ []) nodes
  ]

  unfoldable pub env_of : Graph R → List (List R.F) → List R.F → Env R
  env_of g inputs params = record { signature = g.signature; inputs = inputs; params = params }

  unfoldable pub interpret : Graph R → List (List R.F) → List R.F → Option (List R.F)
  unfolding eval_nodes env_of
  interpret g inputs params = do
    values ← eval_nodes (env_of g inputs params) [] g.nodes
    read_all (get_elem? values) g.outputs
