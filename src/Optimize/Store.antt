-- ===== src/Optimize/Store.antt =====
-- ssa/optimize.rs: `graph.nodes[id] = node`.
use fastsim.Common.{Bool, true, false, Option, none, some, ◌>>=◌, get_elem?, set}
use fastsim.F64.{F64}
use fastsim.Graph.Node.{Node, NodeId}
use fastsim.Graph.Build.{Graph}

module _ (R : F64) where
  -- What one arm of a pass decides: a node to store, or nothing.
  abbrev pub Rewrite : Type 0
  Rewrite = Option Node

  unfoldable pub store : Graph R → NodeId → Rewrite → Graph R × Bool
  store g id none = (g, false)
  store g id (some n) = (record g { nodes = set g.nodes id n }, true)

  -- A pass reads `graph.nodes[id]`, decides, and stores.
  unfoldable pub rewrite_at :
      (Graph R → NodeId → Node → Option Rewrite) → Graph R → NodeId → Option (Graph R × Bool)
  unfolding store
  rewrite_at decide g id = do node ← get_elem? g.nodes id; r ← decide g id node; some (store g id r)
