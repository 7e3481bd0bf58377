-- ===== src/Graph/Meaning/Operands.antt =====
-- ssa/graph.rs: the value of a node depends on its operands alone.
use mathlib.Core.Path.{fun_ext}
use mathlib.Core.List.{map-id}
use fastsim.Common.{
  ◌≡◌, refl, sym, ap, ap₂, ◌∙◌, List, [], ◌∷◌, map, Option, ◌>>=◌, All, All-append_left,
  All-append_right, arith,
}
use fastsim.F64.{F64}
use fastsim.Graph.Node.{Node, NodeId, children, map_children}
use fastsim.Graph.Eval.{Env, eval_node, read_all, select_value}

module _ (R : F64) (env : Env R) (f : NodeId → NodeId) (r s : NodeId → Option R.F) where
  -- `s` reads at the renamed operand what `r` reads at the operand.
  abbrev pub Renames : List NodeId → Type 0
  Renames = All (λ c. s (f c) ≡ r c)

  pub read_all-map :
      (args : List NodeId) → Renames args → read_all R s (map f args) ≡ read_all R r args
  unfolding read_all
  read_all-map [] h = refl
  read_all-map (a ∷ args) h = rw (h.0, read_all-map args h.1)

  select_value-map :
      (x : R.F) (t e : NodeId)
      → s (f t) ≡ r t
      → s (f e) ≡ r e
      → select_value R s x (f t) (f e) ≡ select_value R r x t e
  unfolding select_value
  select_value-map x t e p q = ground arith

  -- Renaming the operands of a node keeps its value, if the new operands have the old values.
  pub eval_node-map_children :
      (n : Node) → Renames (children n) → eval_node R s env (map_children f n) ≡ eval_node R r env n
  unfolding eval_node children map_children
  eval_node-map_children (Node.const b) h = refl
  eval_node-map_children (Node.input i) h = refl
  eval_node-map_children (Node.param i) h = refl
  eval_node-map_children (Node.binary op a b) h = rw (h.0, h.1.0)
  eval_node-map_children (Node.unary op a) h = rw h.0
  eval_node-map_children (Node.cmp op a b) h = rw (h.0, h.1.0)
  eval_node-map_children (Node.select c t e) h =
      rw h.0 (ap (λ k. r c >>= k) (fun_ext λ x. select_value-map x t e h.1.0 h.1.1.0))
  eval_node-map_children (Node.fma a b c) h = rw (h.0, h.1.0, h.1.1.0)
  eval_node-map_children (Node.reduce op args) h = rw (read_all-map args h)
  eval_node-map_children (Node.dot a b) h =
      rw (read_all-map a (All-append_left _ a b h), read_all-map b (All-append_right _ a b h))

map_children_id : (n : Node) → map_children (λ c. c) n ≡ n
unfolding map_children
map_children_id (Node.reduce op args) = ap (Node.reduce op) (map-id args)
map_children_id (Node.dot a b) = ap₂ Node.dot (map-id a) (map-id b)
map_children_id _ = refl

module _ (R : F64) (env : Env R) (r s : NodeId → Option R.F) where
  -- Two readers that agree on the operands of a node give it the same value.
  pub eval_node-congr :
      (n : Node) → All (λ c. s c ≡ r c) (children n) → eval_node R s env n ≡ eval_node R r env n
  eval_node-congr n h =
      ap (eval_node R s env) (sym (map_children_id n))
      ∙ eval_node-map_children R env (λ c. c) r s n h

  pub read_all-congr :
      (args : List NodeId) → All (λ c. s c ≡ r c) args → read_all R s args ≡ read_all R r args
  unfolding read_all
  read_all-congr [] h = refl
  read_all-congr (a ∷ args) h = rw (h.0, read_all-congr args h.1)
