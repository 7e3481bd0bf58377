-- ===== src/Tests/LoweringTests.antt =====
-- The theorems about lowering a graph and about its dead code, at small graphs.
use Prim.Native.String.{String}
use fastsim.Common.{
  Option, none, ℕ, zero, suc, ◌<◌, ◌≡◌, ◌↔◌, refl, Bool, true, false, subst, some-inj, none≢some,
  List, [], ◌∷◌, some, length, get_elem?, arith,
}
use fastsim.Op.Opcode.{binary_opcode, unary_opcode}
use fastsim.Op.Kinds.{BinOp, UnaryOp}
use fastsim.Graph.Node.{Node, children, map_children, Node-discrete}
use fastsim.Graph.Signature.{from_named_sizes, decode}
use fastsim.Graph.Build.{Graph, dedup_get}
use fastsim.Graph.Eval.{interpret}
use fastsim.Graph.Meaning.Values.{IsOrdered, Below}
use fastsim.Tape.Alloc.{
  allocate_work_slots, alloc_loop, alloc_step, push_slots, collect_dying, last_uses, pin_outputs,
  note_all_uses, note_uses, range_from, contains,
}
use fastsim.Tape.Build.{Tape, from_graph, emit, slots_used, maximum, arity}
use fastsim.Tape.Eval.{call, check_inputs}
use fastsim.Tape.EmitSound.{IsRunnable}
use fastsim.Tape.Refines.{call-interpret}
use fastsim.Tape.CallInto.{set_param}
use fastsim.Tape.Params.{IsFirst, set_param_by_name, set_param_by_name-set_param}
use fastsim.Optimize.DeadCode.{dead_code_elimination, reachable, push_children}
use fastsim.Optimize.DeadCodeSound.{interpret-dead_code_elimination}
use fastsim.Optimize.Mark.{Reachable, IsLive, reachable-Reachable}
use fastsim.Tests.Parity.{parity}

-- 0: x[0];  1: x[1];  2: x[0] * x[1];  3: -x[0];  the outputs are 3 and 0
abbrev nodes : List Node
nodes = Node.input 0 ∷ Node.input 1 ∷ Node.binary BinOp.mul 0 1 ∷ Node.unary UnaryOp.neg 0 ∷ []

abbrev g : Graph parity
g = record {
  nodes = nodes;
  dedup = [];
  outputs = 3 ∷ 2 ∷ [];
  signature = from_named_sizes (("x", 2) ∷ []);
  n_params = 0;
  param_defaults = [];
  param_names = [];
}

nodes-IsOrdered : IsOrdered nodes
unfolding children
nodes-IsOrdered zero n e = subst (Below 0) (some-inj e) tt
nodes-IsOrdered (suc zero) n e = subst (Below 1) (some-inj e) tt
nodes-IsOrdered (suc (suc zero)) n e = subst (Below 2) (some-inj e) (omega arith)
nodes-IsOrdered (suc (suc (suc zero))) n e = subst (Below 3) (some-inj e) (omega arith)
nodes-IsOrdered (suc (suc (suc (suc i)))) n e = absurd (none≢some e)

nodes-IsRunnable : (i : ℕ) (n : Node) → get_elem? nodes i ≡ some n → IsRunnable 0 n
unfolding IsRunnable
nodes-IsRunnable zero n e = subst (IsRunnable 0) (some-inj e) tt
nodes-IsRunnable (suc zero) n e = subst (IsRunnable 0) (some-inj e) tt
nodes-IsRunnable (suc (suc zero)) n e = subst (IsRunnable 0) (some-inj e) tt
nodes-IsRunnable (suc (suc (suc zero))) n e = subst (IsRunnable 0) (some-inj e) tt
nodes-IsRunnable (suc (suc (suc (suc i)))) n e = absurd (none≢some e)

-- The product takes the slot of x[1], and the negation that of x[0].
abbrev tape : Tape parity
tape = record {
  ops =
      record { opcode = 1; dst = 0; arg0 = 0; arg1 = 0; arg2 = 0 }
      ∷ record { opcode = 1; dst = 1; arg0 = 0; arg1 = 1; arg2 = 0 }
      ∷ record { opcode = 5; dst = 1; arg0 = 0; arg1 = 1; arg2 = 0 }
      ∷ record { opcode = 20; dst = 0; arg0 = 0; arg1 = 0; arg2 = 0 }
      ∷ [];
  consts = [];
  arg_pool = [];
  outputs = 0 ∷ 1 ∷ [];
  n_work = 2;
  scratch_len = 0;
  min_input_lens = 2 ∷ [];
}

lowered : from_graph parity g ≡ some tape
unfolding from_graph emit decode from_named_sizes allocate_work_slots binary_opcode unary_opcode
    slots_used maximum alloc_loop arity alloc_step push_slots collect_dying children last_uses
    pin_outputs note_all_uses note_uses range_from contains
lowered = refl

checked : check_inputs parity tape ((true ∷ true ∷ []) ∷ []) ≡ true
unfolding check_inputs
checked = refl

call-interpret_example :
    (ys : List Bool) × (call parity tape (false ∷ false ∷ []) ((true ∷ true ∷ []) ∷ []) []
      ≡ some ys)
    × (interpret parity g ((true ∷ true ∷ []) ∷ []) [] ≡ some ys)
call-interpret_example =
    call-interpret parity g tape ((true ∷ true ∷ []) ∷ []) [] (false ∷ false ∷ [])
      (record {
        ordered = nodes-IsOrdered;
        outputs = omega arith;
        fits = omega arith;
        runnable = nodes-IsRunnable;
      })
      lowered refl checked

-- The graph with the negation as its only output: the nodes 1 and 2 are dead.
abbrev h : Graph parity
h = record g { outputs = 3 ∷ [] }

interpret-dead_code_elimination_example :
    (h' : Graph parity) × (changed : Bool) × (dead_code_elimination parity h ≡ some (h', changed))
    × IsOrdered h'.nodes
    × ((inputs : List (List Bool)) (params : List Bool)
        → interpret parity h' inputs params ≡ interpret parity h inputs params)
interpret-dead_code_elimination_example =
    interpret-dead_code_elimination parity h nodes-IsOrdered (omega arith)

eliminated :
    dead_code_elimination parity h
    ≡ some (
      record h {
        nodes = Node.input 0 ∷ Node.unary UnaryOp.neg 0 ∷ [];
        outputs = 1 ∷ [];
        dedup = (Node.unary UnaryOp.neg 0, 1) ∷ (Node.input 0, 0) ∷ [];
      },
      true,
    )
unfolding dead_code_elimination children push_children map_children dedup_get Node-discrete
eliminated = refl

reachable-Reachable_example :
    (live : List Bool) × (reachable nodes (3 ∷ []) ≡ some live)
    × (length live ≡ length nodes)
    × ((i : ℕ) → IsLive live i ↔ ((i < length nodes) × Reachable nodes (3 ∷ []) i))
reachable-Reachable_example = reachable-Reachable nodes (3 ∷ [])

abbrev param_names : List String
param_names = "gain" ∷ "bias" ∷ "bias" ∷ []

abbrev param_values : List Bool
param_values = true ∷ false ∷ false ∷ []

set_param_by_name-set_param_example :
    (found : Option ℕ) × IsFirst param_names "bias" found
    × (set_param_by_name parity param_names param_values "bias" true
        ≡ some (elim found [
          | none ↦ (param_values, false)
          | some idx ↦ (set_param parity param_values idx true, true)
        ]))
set_param_by_name-set_param_example =
    set_param_by_name-set_param parity param_names param_values "bias" true refl
