-- ===== src/Autodiff/Independent.antt =====
-- ssa/autodiff.rs: a node does not depend on the inputs that it does not reach.
use fastsim.Common.{
  ℕ, zero, suc, ◌+◌, ◌<◌, ◌≡◌, inl, inr, refl, sym, ap, ◌∙◌, Bool, true, false, List, [], ◌∷◌,
  Option, some, some-inj, Mem, length, get_elem?, get_elem?-total, get_or, replicate, arith,
}
use fastsim.F64.{F64}
use fastsim.Graph.Node.{Node, NodeId, children}
use fastsim.Graph.Eval.{Env, eval_node, eval_nodes, input_value, param_value}
use fastsim.Graph.Meaning.Operands.{eval_node-congr}
use fastsim.Graph.Meaning.Values.{IsOrdered, Solves, eval_nodes-Solves}
use fastsim.Optimize.Mark.{Reachable, root, operand}
use fastsim.Optimize.DeadCodeSound.{Mem-All, All-Mem}
use fastsim.Autodiff.Jacobian.{collect_reached_inputs}
use fastsim.Autodiff.Reach.{Reachable-lt, collect_reached_inputs-Reachable}

module _ (R : F64) (env env' : Env R) (same_params : env.params ≡ env'.params) where
  -- A node other than an input that differs has the same value over the same operands.
  eval_node-env :
      (read : NodeId → Option R.F) (n : Node)
      → ((flat : ℕ) → n ≡ Node.input flat → input_value R env flat ≡ input_value R env' flat)
      → eval_node R read env n ≡ eval_node R read env' n
  unfolding eval_node param_value
  eval_node-env read (Node.input flat) h = ap some (h flat refl)
  eval_node-env read (Node.param i) h = rw same_params refl
  eval_node-env read (Node.const b) h = refl
  eval_node-env read _ h = refl

  module _ (nodes : List Node) (roots : List NodeId) (vs vs' : List R.F) (ordered : IsOrdered nodes)
      (inside : (o : ℕ) → Mem o roots → o < length nodes) (sol : Solves R env vs nodes)
      (sol' : Solves R env' vs' nodes)
      (agree : (i flat : ℕ)
        → Reachable nodes roots i
        → get_elem? nodes i ≡ some (Node.input flat)
        → input_value R env flat ≡ input_value R env' flat) where
    -- Where all inputs that are reached agree, all nodes that are reached have the same values.
    reached_same :
        (fuel i : ℕ) → i < fuel → Reachable nodes roots i → get_elem? vs' i ≡ get_elem? vs i
    reached_same zero i lt r = absurd (omega (arith, lt))
    reached_same (suc fuel) i lt r =
        let (n, at) = get_elem?-total nodes i (Reachable-lt nodes roots ordered inside r) in
        sym (sol'.1 i n at)
        ∙ sym (eval_node-env (get_elem? vs') n (λ flat e. agree i flat r (at ∙ ap some e)))
        ∙ eval_node-congr R env (get_elem? vs) (get_elem? vs') n (
            Mem-All (λ c. get_elem? vs' c ≡ get_elem? vs c) (children n)
              (λ c m.
                reached_same fuel c
                  (omega (arith, lt, All-Mem (λ k. k < i) (children n) c (ordered i n at) m))
                  (operand n r at m)))
        ∙ sol.1 i n at

-- The mask of `collect_reached_inputs` is sound: when two environments differ only in inputs of the
-- range that the mask leaves out, then the node has the same value in both.
pub collect_reached_inputs_sound :
    (R : F64) (env env' : Env R) (nodes : List Node) (out start size : ℕ) (vs vs' : List R.F)
    (mask : List Bool)
    → IsOrdered nodes
    → out < length nodes
    → collect_reached_inputs nodes out start size (replicate size false) ≡ some mask
    → env.params ≡ env'.params
    → ((flat : ℕ)
        → ((k : ℕ) → k < size → flat ≡ start + k → get_or mask k false ≡ true)
        → input_value R env flat ≡ input_value R env' flat)
    → eval_nodes R env [] nodes ≡ some vs
    → eval_nodes R env' [] nodes ≡ some vs'
    → get_elem? vs' out ≡ get_elem? vs out
collect_reached_inputs_sound R env env' nodes out start size vs vs' mask ordered lt runs params
      agree before after =
    let (mask', runs', _, iff) = collect_reached_inputs-Reachable nodes out start size ordered lt in
    let same : mask' ≡ mask = some-inj (sym runs' ∙ runs) in
    reached_same R env env' params nodes (out ∷ []) vs vs' ordered
      (λ o m. elim m [ inl e ↦ omega (arith, e, lt) | inr none_left ↦ absurd none_left ])
      (eval_nodes-Solves R env nodes vs ordered before)
      (eval_nodes-Solves R env' nodes vs' ordered after)
      (λ i flat r at. agree flat (λ k below e.
        ap (λ m. get_or m k false) (sym same)
        ∙ (iff k below).1 (i, r, at ∙ ap (λ f. some (Node.input f)) e)))
      (suc out) out (omega arith) (root (inl refl))
