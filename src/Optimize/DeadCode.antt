-- ===== src/Optimize/DeadCode.antt =====
-- ssa/optimize.rs: `dead_code_elimination`.
--
-- The stack has its top in front. The search runs on fuel: each of its rounds takes an id off the
-- stack, and the operands of a node are put on it once, when the node is marked. An index out of range
-- is a panic, `none`.
use mathlib.Core.List.{map}
use fastsim.Common.{
  ℕ, zero, suc, ◌+◌, Bool, true, false, ◌&&◌, ◌||◌, List, [], ◌∷◌, Option, none, some, ◌>>=◌,
  length, get_elem?, get_or, set, replicate, ltb, leb, ◌==◌, if◌then◌else◌,
}
use fastsim.F64.{F64}
use fastsim.Graph.Node.{Node, NodeId, children, map_children}
use fastsim.Graph.Build.{Graph, Dedup, dedup_get}

-- `for_each_child(|c| stack.push(c))`
unfoldable pub push_children : List NodeId → List NodeId → List NodeId
push_children [] stack = stack
push_children (c ∷ cs) stack = push_children cs (c ∷ stack)

-- The search from the ids on the stack; `none` when the fuel is used up.
unfoldable pub mark_live : List Node → ℕ → List Bool → List NodeId → Option (List Bool)
mark_live nodes fuel live [] = some live
mark_live nodes zero live (id ∷ stack) = none
mark_live nodes (suc fuel) live (id ∷ stack) =
    elim (leb (length nodes) id || get_or live id false) [
      | true ↦ mark_live nodes fuel live stack
      | false ↦ elim (get_elem? nodes id) [
        | none ↦ none
        | some n ↦ mark_live nodes fuel (set live id true) (push_children (children n) stack)
      ]
    ]

-- The operands of the nodes that are not marked.
unfoldable pub unmarked_children : List Bool → List Node → ℕ
unmarked_children (b ∷ live) (n ∷ nodes) =
    (if b then 0 else length (children n)) + unmarked_children live nodes
unmarked_children live nodes = 0

unfoldable pub reachable : List Node → List NodeId → Option (List Bool)
unfolding mark_live unmarked_children
reachable nodes outputs =
    let live = replicate (length nodes) false in
    mark_live nodes (length outputs + unmarked_children live nodes) live outputs

-- `live.iter().all(|&b| b)`
unfoldable pub all_live : List Bool → Bool
all_live [] = true
all_live (b ∷ live) = b && all_live live

-- The new ids, from `next` on; a dead node keeps the 0 of the fresh array.
unfoldable pub remap_from : ℕ → List Bool → List NodeId
remap_from next [] = []
remap_from next (true ∷ live) = next ∷ remap_from (suc next) live
remap_from next (false ∷ live) = 0 ∷ remap_from next live

-- The nodes that are kept, in order.
unfoldable pub keep_live : {A : Type 0} → List Bool → List A → List A
keep_live (true ∷ live) (x ∷ xs) = x ∷ keep_live live xs
keep_live (false ∷ live) (x ∷ xs) = keep_live live xs
keep_live live xs = []

-- Every id is an index of the array.
unfoldable pub in_range : ℕ → List NodeId → Bool
in_range n [] = true
in_range n (c ∷ cs) = ltb c n && in_range n cs

-- `remap[*c as usize]` for each of the ids
unfoldable pub remap_ids : List NodeId → List NodeId → Option (List NodeId)
unfolding in_range
remap_ids remap ids =
    if in_range (length remap) ids then some (map (λ c. get_or remap c 0) ids) else none

unfoldable pub remap_nodes : List NodeId → List Node → Option (List Node)
unfolding in_range
remap_nodes remap [] = some []
remap_nodes remap (n ∷ nodes) = do
  n' ←
      if in_range (length remap) (children n)
      then some (map_children (λ c. get_or remap c 0) n)
      else none
  rest ← remap_nodes remap nodes
  some (n' ∷ rest)

-- `entry(node).or_insert(i)`
unfoldable pub or_insert : Node → NodeId → Dedup → Dedup
or_insert n i dedup = elim (dedup_get n dedup) [ some _ ↦ dedup | none ↦ (n, i) ∷ dedup ]

unfoldable pub rebuild_dedup : ℕ → List Node → Dedup → Dedup
unfolding or_insert
rebuild_dedup i [] dedup = dedup
rebuild_dedup i (n ∷ nodes) dedup = rebuild_dedup (suc i) nodes (or_insert n i dedup)

module _ (R : F64) where
  unfoldable pub compact : Graph R → List Bool → Option (Graph R)
  unfolding remap_from keep_live remap_nodes remap_ids rebuild_dedup
  compact g live =
      let remap = remap_from 0 live in
      do
        nodes ← remap_nodes remap (keep_live live g.nodes)
        outputs ← remap_ids remap g.outputs
        some (record g { nodes = nodes; outputs = outputs; dedup = rebuild_dedup 0 nodes [] })

  unfoldable pub dead_code_elimination : Graph R → Option (Graph R × Bool)
  unfolding reachable all_live compact
  dead_code_elimination g = if length g.nodes == 0 then some (g, false) else do
    live ← reachable g.nodes g.outputs
    if all_live live then some (g, false) else (do g' ← compact g live; some (g', true))
