-- ===== src/Autodiff/Jacobian.antt =====
-- ssa/autodiff.rs: the Jacobian graphs, and the inputs that a node reaches.
--
-- The stack has its top in front. The searches run on fuel, and an index out of range is a panic,
-- `none`. `differentiate` is given as much fuel as the graph has nodes.
use Prim.Native.String.{String}
use fastsim.Common.{
  ℕ, zero, suc, ◌+◌, ◌-◌, Bool, true, false, ◌&&◌, List, [], ◌∷◌, ◌++◌, Option, none, some, ◌>>=◌,
  length, drop, get_elem?, get_or, set, replicate, ltb, leb, if◌then◌else◌,
}
use fastsim.F64.{F64, zero_f}
use fastsim.Graph.Node.{Node, NodeId, children}
use fastsim.Graph.Signature.{slot}
use fastsim.Graph.Build.{Graph, add, constant, dedup_get, as_u32}
use fastsim.Optimize.DeadCode.{push_children, unmarked_children}
use fastsim.Autodiff.Diff.{differentiate}

-- `mask[i - start] = true` for an input `i` with `start <= i < start + size`
unfoldable pub mark_input : ℕ → ℕ → Node → List Bool → Option (List Bool)
mark_input start size (Node.input i) mask =
    if leb start i && ltb i (start + size)
    then (if ltb (i - start) (length mask) then some (set mask (i - start) true) else none)
    else some mask
mark_input start size n mask = some mask

unfoldable pub collect_from :
    List Node → ℕ → ℕ → ℕ → List Bool → List Bool → List NodeId → Option (List Bool)
unfolding mark_input push_children
collect_from nodes fuel start size seen mask [] = some mask
collect_from nodes zero start size seen mask (id ∷ stack) = none
collect_from nodes (suc fuel) start size seen mask (id ∷ stack) = elim (get_elem? nodes id) [
  | none ↦ none
  | some n ↦ elim (get_or seen id false) [
    | true ↦ collect_from nodes fuel start size seen mask stack
    | false ↦ mark_input start size n mask >>= λ marked.
        collect_from nodes fuel start size (set seen id true) marked
          (push_children (children n) stack)
  ]
]

unfoldable pub collect_reached_inputs : List Node → NodeId → ℕ → ℕ → List Bool → Option (List Bool)
unfolding collect_from unmarked_children
collect_reached_inputs nodes root start size mask =
    let seen = replicate (length nodes) false in
    collect_from nodes (suc (unmarked_children seen nodes)) start size seen mask (root ∷ [])

unfoldable pub is_input_in : ℕ → ℕ → Node → Bool
is_input_in start end (Node.input i) = leb start i && ltb i end
is_input_in start end n = false

unfoldable pub reaches_from : List Node → ℕ → ℕ → ℕ → List Bool → List NodeId → Option Bool
unfolding is_input_in push_children
reaches_from nodes fuel start end seen [] = some false
reaches_from nodes zero start end seen (id ∷ stack) = none
reaches_from nodes (suc fuel) start end seen (id ∷ stack) = elim (get_elem? nodes id) [
  | none ↦ none
  | some n ↦ elim (get_or seen id false) [
    | true ↦ reaches_from nodes fuel start end seen stack
    | false ↦ elim (is_input_in start end n) [
      | true ↦ some true
      | false ↦
          reaches_from nodes fuel start end (set seen id true) (push_children (children n) stack)
    ]
  ]
]

-- The stack starts with the last root on top.
unfoldable pub reaches_input_range : List Node → List NodeId → ℕ → ℕ → Option Bool
unfolding reaches_from unmarked_children push_children
reaches_input_range nodes roots start end =
    let seen = replicate (length nodes) false in
    reaches_from nodes (length roots + unmarked_children seen nodes) start end seen
      (push_children roots [])

module _ (R : F64) where
  -- `jac.dedup.get(&node)`, or else `jac.add(node)`
  unfoldable pub find_or_add : Graph R → Node → Graph R × NodeId
  find_or_add g node = elim (dedup_get node g.dedup) [ some id ↦ (g, id) | none ↦ add R g node ]

  -- The nodes of `count` inputs from `i` on.
  unfoldable pub wrt_nodes : Graph R → ℕ → ℕ → Graph R × List NodeId
  unfolding find_or_add
  wrt_nodes g i zero = (g, [])
  wrt_nodes g i (suc count) =
      let (g1, id) = find_or_add g (Node.input (as_u32 i)) in
      let (g2, ids) = wrt_nodes g1 (suc i) count in (g2, id ∷ ids)

  unfoldable pub push_output : Graph R → NodeId → Graph R
  push_output g id = record g { outputs = g.outputs ++ id ∷ [] }

  -- The derivatives of the output `out` towards the inputs that it reaches, and `zero` for the others.
  unfoldable pub jacobian_row :
      NodeId → NodeId → List Bool → List NodeId → Graph R → Option (Graph R)
  unfolding push_output
  jacobian_row out absent reached [] jac = some jac
  jacobian_row out absent reached (x_id ∷ wrt) jac = elim (get_or reached 0 false) [
    | true ↦ do
      r ← differentiate R (length jac.nodes) x_id jac [] out
      jacobian_row out absent (drop 1 reached) wrt (push_output r.graph r.id)
    | false ↦ jacobian_row out absent (drop 1 reached) wrt (push_output jac absent)
  ]

  unfoldable pub jacobian_rows :
      ℕ → ℕ → NodeId → List NodeId → List NodeId → Graph R → Option (Graph R)
  unfolding jacobian_row collect_reached_inputs
  jacobian_rows start size absent wrt [] jac = some jac
  jacobian_rows start size absent wrt (out ∷ outs) jac = do
    reached ← collect_reached_inputs jac.nodes out start size (replicate size false)
    jac' ← jacobian_row out absent reached wrt jac
    jacobian_rows start size absent wrt outs jac'

  unfoldable pub jacobian_wrt_flat_range : Graph R → ℕ → ℕ → Option (Graph R)
  unfolding wrt_nodes jacobian_rows
  jacobian_wrt_flat_range g start end = do
    let (jac, wrt) = wrt_nodes (record g { outputs = [] }) start (end - start)
    let (jac', absent) = constant R jac (zero_f R)
    jacobian_rows start (end - start) absent wrt g.outputs jac'

  unfoldable pub jacobian : Graph R → Option (Graph R)
  unfolding jacobian_wrt_flat_range
  jacobian g = jacobian_wrt_flat_range g 0 g.signature.total_size

  -- The outer `none` is a panic, the inner one is the answer `None`.
  unfoldable pub jacobian_wrt_slot : Graph R → String → Option (Option (Graph R))
  unfolding jacobian_wrt_flat_range
  jacobian_wrt_slot g slot_name = elim (slot g.signature slot_name) [
    | none ↦ some none
    | some s ↦ do jac ← jacobian_wrt_flat_range g s.offset (s.offset + s.size); some (some jac)
  ]

  -- The loop over the outputs of `jacobian_wrt_param`.
  unfoldable pub param_column : NodeId → List NodeId → Graph R → Option (Graph R)
  unfolding push_output
  param_column p_node [] jac = some jac
  param_column p_node (out ∷ outs) jac = do
    r ← differentiate R (length jac.nodes) p_node jac [] out
    param_column p_node outs (push_output r.graph r.id)

  unfoldable pub jacobian_wrt_param : Graph R → ℕ → Option (Option (Graph R))
  unfolding param_column find_or_add
  jacobian_wrt_param g idx = if leb g.n_params idx then some none else do
    let (jac, p_node) = find_or_add (record g { outputs = [] }) (Node.param idx)
    jac' ← param_column p_node g.outputs jac
    some (some jac')
