-- ===== src/Optimize/Rebuild.antt =====
-- ssa/optimize.rs: `canonicalize_once`, the rebuild of a graph from its outputs, and `canonicalize`.
--
-- The stack has its top in front, so that the ids that the source pushes in reverse stand in order.
-- An index out of range is a panic, `none`; the search runs on fuel.
use fastsim.Common.{
  ℕ, zero, suc, ◌+◌, Bool, true, false, not, ◌&&◌, ◌||◌, List, [], ◌∷◌, ◌++◌, map, Option, none,
  some, ◌>>=◌, length, get_elem?, get_or, set, replicate, ◌==◌, if◌then◌else◌,
}
use fastsim.F64.{F64}
use fastsim.Graph.Node.{Node, NodeId, Node-discrete, children, map_children}
use fastsim.Graph.Build.{Graph, new}
use fastsim.Optimize.DeadCode.{in_range, remap_ids}
use fastsim.Optimize.Canonical.{insert_canonical}

-- `u32::MAX`, the mark of a node that has no new id
abbrev pub u32_max : ℕ
u32_max = 4294967295

-- `(id, children_done)`
abbrev pub Entry : Type 0
Entry = NodeId × Bool

-- Entries whose operands are not visited, on top of the stack.
unfoldable pub push_all : List NodeId → List Entry → List Entry
push_all ids stack = map (λ c. (c, false)) ids ++ stack

-- Each visited node is two entries: one for it and one for its operands.
unfoldable pub unvisited_work : List Bool → List Node → ℕ
unvisited_work (b ∷ visited) (n ∷ nodes) =
    (if b then 0 else suc (length (children n))) + unvisited_work visited nodes
unvisited_work visited nodes = 0

-- `node.for_each_child_mut(|c| *c = remap[*c as usize])`
unfoldable pub remap_node : List NodeId → Node → Option Node
unfolding in_range
remap_node remap n =
    if in_range (length remap) (children n)
    then some (map_children (λ c. get_or remap c 0) n)
    else none

-- The derived `PartialEq` of the arrays.
unfoldable pub same_nodes : List Node → List Node → Bool
same_nodes [] [] = true
same_nodes (m ∷ ms) (n ∷ ns) =
    elim (Node-discrete m n) [ yes _ ↦ true | no _ ↦ false ] && same_nodes ms ns
same_nodes _ _ = false

unfoldable pub same_ids : List NodeId → List NodeId → Bool
same_ids [] [] = true
same_ids (a ∷ xs) (b ∷ ys) = a == b && same_ids xs ys
same_ids _ _ = false

module _ (R : F64) where
  unfoldable pub rebuild :
      List Node
      → ℕ
      → Graph R
      → List NodeId
      → List Bool
      → List Entry
      → Option (Graph R × List NodeId)
  unfolding remap_node insert_canonical push_all
  rebuild nodes fuel g remap visited [] = some (g, remap)
  rebuild nodes zero g remap visited (e ∷ stack) = none
  rebuild nodes (suc fuel) g remap visited ((id, true) ∷ stack) = elim (get_elem? nodes id) [
    | none ↦ none
    | some n ↦ elim (get_or remap id 0 == u32_max) [
      | false ↦ rebuild nodes fuel g remap visited stack
      | true ↦ elim (remap_node remap n) [
        | none ↦ none
        | some m ↦
            rebuild nodes fuel (insert_canonical R g m).0 (set remap id (insert_canonical R g m).1)
              visited stack
      ]
    ]
  ]
  rebuild nodes (suc fuel) g remap visited ((id, false) ∷ stack) = elim (get_elem? nodes id) [
    | none ↦ none
    | some n ↦ elim (get_or visited id false) [
      | true ↦ rebuild nodes fuel g remap visited stack
      | false ↦
          rebuild nodes fuel g remap (set visited id true)
            (push_all (children n) ((id, true) ∷ stack))
    ]
  ]

  -- The empty graph that takes over the layout and the parameters.
  unfoldable pub emptied : Graph R → Graph R
  unfolding new
  emptied g = record (new R g.signature) {
    n_params = g.n_params;
    param_defaults = g.param_defaults;
    param_names = g.param_names;
  }

  unfoldable pub rebuild_all : Graph R → Option (Graph R × List NodeId)
  unfolding rebuild emptied push_all unvisited_work
  rebuild_all g =
      let n = length g.nodes in
      let visited = replicate n false in
      rebuild g.nodes (length g.outputs + unvisited_work visited g.nodes) (emptied g)
        (replicate n u32_max) visited (push_all g.outputs [])

  unfoldable pub canonicalize_once : Graph R → Option (Graph R × Bool)
  unfolding rebuild_all remap_ids same_nodes same_ids
  canonicalize_once g = if length g.nodes == 0 then some (g, false) else do
    r ← rebuild_all g
    outputs ← remap_ids r.1 g.outputs
    some (
      record g { nodes = r.0.nodes; dedup = r.0.dedup; outputs = outputs },
      not (same_nodes r.0.nodes g.nodes) || not (same_ids outputs g.outputs),
    )

  -- At most `passes` times, until a pass changes nothing.
  unfoldable pub canonicalize_passes : ℕ → Graph R → Bool → Option (Graph R × Bool)
  unfolding canonicalize_once
  canonicalize_passes zero g any = some (g, any)
  canonicalize_passes (suc passes) g any = elim (canonicalize_once g) [
    | none ↦ none
    | some r ↦ elim r.1 [ false ↦ some (r.0, any) | true ↦ canonicalize_passes passes r.0 true ]
  ]

  -- `constants::COMPILE_OPTIMIZE_MAX_PASSES` is 8.
  unfoldable pub canonicalize : Graph R → Option (Graph R × Bool)
  unfolding canonicalize_passes
  canonicalize g = canonicalize_passes 8 g false
