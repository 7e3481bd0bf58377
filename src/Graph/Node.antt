-- ===== src/Graph/Node.antt =====
-- ssa/graph.rs: `Node` and the visits of its operands.
use fastsim.Common.{ℕ, List, [], ◌∷◌, ◌++◌, map, ℕ_discrete}
use fastsim.Op.Kinds.{BinOp, UnaryOp, CmpOp, ReduceOp}

abbrev pub NodeId : Type 0
NodeId = ℕ

-- A constant is its bit pattern.
pub data Node : Type 0 where
  const : ℕ → Node
  input : ℕ → Node
  param : ℕ → Node
  binary : BinOp → NodeId → NodeId → Node
  unary : UnaryOp → NodeId → Node
  cmp : CmpOp → NodeId → NodeId → Node
  select : NodeId → NodeId → NodeId → Node
  fma : NodeId → NodeId → NodeId → Node
  reduce : ReduceOp → List NodeId → Node
  dot : List NodeId → List NodeId → Node

-- `for_each_child`, as the list of the operands in the order of the visit.
unfoldable pub children : Node → List NodeId
children (const b) = []
children (input i) = []
children (param i) = []
children (unary op a) = a ∷ []
children (binary op a b) = a ∷ b ∷ []
children (cmp op a b) = a ∷ b ∷ []
children (select c t e) = c ∷ t ∷ e ∷ []
children (fma a b c) = a ∷ b ∷ c ∷ []
children (reduce op args) = args
children (dot a b) = a ++ b

-- `for_each_child_mut`, for an `f` that replaces each operand.
unfoldable pub map_children : (NodeId → NodeId) → Node → Node
map_children f (const b) = const b
map_children f (input i) = input i
map_children f (param i) = param i
map_children f (unary op a) = unary op (f a)
map_children f (binary op a b) = binary op (f a) (f b)
map_children f (cmp op a b) = cmp op (f a) (f b)
map_children f (select c t e) = select (f c) (f t) (f e)
map_children f (fma a b c) = fma (f a) (f b) (f c)
map_children f (reduce op args) = reduce op (map f args)
map_children f (dot a b) = dot (map f a) (map f b)

-- The derived `PartialEq`.
BinOp-discrete : Discrete BinOp
BinOp-discrete = hlevel

UnaryOp-discrete : Discrete UnaryOp
UnaryOp-discrete = hlevel

CmpOp-discrete : Discrete CmpOp
CmpOp-discrete = hlevel

ReduceOp-discrete : Discrete ReduceOp
ReduceOp-discrete = hlevel

unfoldable pub Node-discrete : Discrete Node
unfolding BinOp-discrete UnaryOp-discrete CmpOp-discrete ReduceOp-discrete ℕ_discrete
Node-discrete =
    hlevel (ℕ_discrete, BinOp-discrete, UnaryOp-discrete, CmpOp-discrete, ReduceOp-discrete)
