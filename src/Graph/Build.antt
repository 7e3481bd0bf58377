-- ===== src/Graph/Build.antt =====
-- ssa/graph.rs: `Graph` and its hash-consed construction.
--
-- The hash map `dedup` is an association list; a lookup compares nodes by their derived equality.
use Prim.Native.String.{String}
use fastsim.Common.{
  ℕ, ◌%◌, ◌^◌, Bool, false, List, [], ◌∷◌, ◌++◌, Option, none, some, length, get_elem?, ◌==◌,
}
use fastsim.F64.{F64}
use fastsim.Op.Kinds.{BinOp, UnaryOp, CmpOp, ReduceOp}
use fastsim.Graph.Node.{Node, NodeId, Node-discrete}
use fastsim.Graph.Signature.{InputSignature, from_named_sizes}

-- A cast to `u32`.
abbrev pub as_u32 : ℕ → ℕ
as_u32 n = n % 2 ^ 32

abbrev pub Dedup : Type 0
Dedup = List (Node × NodeId)

unfoldable pub dedup_get : Node → Dedup → Option NodeId
dedup_get n [] = none
dedup_get n ((m, id) ∷ d) = elim (Node-discrete n m) [ yes _ ↦ some id | no _ ↦ dedup_get n d ]

pub record Graph (R : F64) : Type 0 where
  pub nodes : List Node
  pub dedup : Dedup
  pub outputs : List NodeId
  pub signature : InputSignature
  pub n_params : ℕ
  pub param_defaults : List R.F
  pub param_names : List String

module _ (R : F64) where
  unfoldable pub new : InputSignature → Graph R
  new signature = record {
    nodes = [];
    dedup = [];
    outputs = [];
    signature = signature;
    n_params = 0;
    param_defaults = [];
    param_names = [];
  }

  unfoldable pub with_single_input : String → ℕ → Graph R
  unfolding new
  with_single_input name size = new (from_named_sizes ((name, size) ∷ []))

  -- The graph after the call and the id that it returns.
  unfoldable pub add : Graph R → Node → Graph R × NodeId
  add g node = elim (dedup_get node g.dedup) [
    | some id ↦ (g, id)
    | none ↦
        let id = as_u32 (length g.nodes) in
        (record g { dedup = (node, id) ∷ g.dedup; nodes = g.nodes ++ node ∷ [] }, id)
  ]

  unfoldable pub constant : Graph R → R.F → Graph R × NodeId
  unfolding add
  constant g v = add g (Node.const (R.to_bits v))

  unfoldable pub input : Graph R → ℕ → Graph R × NodeId
  unfolding add
  input g flat = add g (Node.input flat)

  unfoldable pub param : Graph R → ℕ → Graph R × NodeId
  unfolding add
  param g idx = add g (Node.param idx)

  unfoldable pub binary : Graph R → BinOp → NodeId → NodeId → Graph R × NodeId
  unfolding add
  binary g op a b = add g (Node.binary op a b)

  unfoldable pub unary : Graph R → UnaryOp → NodeId → Graph R × NodeId
  unfolding add
  unary g op a = add g (Node.unary op a)

  unfoldable pub cmp : Graph R → CmpOp → NodeId → NodeId → Graph R × NodeId
  unfolding add
  cmp g op a b = add g (Node.cmp op a b)

  unfoldable pub select : Graph R → NodeId → NodeId → NodeId → Graph R × NodeId
  unfolding add
  select g cond then_val else_val = add g (Node.select cond then_val else_val)

  unfoldable pub reduce : Graph R → ReduceOp → List NodeId → Graph R × NodeId
  unfolding add
  reduce g op args = add g (Node.reduce op args)

  unfoldable pub dot : Graph R → List NodeId → List NodeId → Graph R × NodeId
  unfolding add
  dot g a b = add g (Node.dot a b)

  unfoldable pub const_of : Option Node → Option R.F
  const_of (some (Node.const bits)) = some (R.from_bits bits)
  const_of _ = none

  unfoldable pub const_value : Graph R → NodeId → Option R.F
  unfolding const_of
  const_value g id = const_of (get_elem? g.nodes id)

  unfoldable pub is_const_bits : Option Node → ℕ → Bool
  is_const_bits (some (Node.const bits)) val_bits = bits == val_bits
  is_const_bits _ val_bits = false

  -- The comparison is of bit patterns; `val_bits` is `val.to_bits()`.
  unfoldable pub is_const : Graph R → NodeId → ℕ → Bool
  unfolding is_const_bits
  is_const g id val_bits = is_const_bits (get_elem? g.nodes id) val_bits

  unfoldable pub len : Graph R → ℕ
  len g = length g.nodes
