-- ===== src/Tests/TapeTests.antt =====
-- The theorems about the tape at small graphs and tapes.
use fastsim.Common.{
  ◌≢◌, ℕ, zero, suc, subst, some-inj, none≢some, ◌≤◌, ◌≡◌, refl, Bool, true, false, List, [], ◌∷◌,
  Option, some, All, get_elem?, get_or, arith,
}
use fastsim.Op.Kinds.{BinOp, UnaryOp}
use fastsim.Graph.Node.{Node, NodeId, children}
use fastsim.Graph.Signature.{from_named_sizes}
use fastsim.Graph.Eval.{Env}
use fastsim.Graph.Meaning.Values.{Below}
use fastsim.Tape.Alloc.{alloc_loop, allocate_work_slots, last_uses}
use fastsim.Tape.Build.{Tape}
use fastsim.Tape.Eval.{exec_op, call}
use fastsim.Tape.CallInto.{call_into, call_into-call}
use fastsim.Tape.Liveness.{last_uses_reaches}
use fastsim.Tape.AllocSound.{Allocated, Allocated-start, alloc_loop-Allocated, outputs_apart}
use fastsim.Tests.Parity.{parity}

-- Node 0 has work slot 1, and node 1 has work slot 0.
abbrev slot_of : List ℕ
slot_of = 1 ∷ 0 ∷ []

abbrev w : List Bool
w = true ∷ false ∷ []

abbrev inputs : List (List Bool)
inputs = (true ∷ false ∷ []) ∷ []

abbrev env : Env parity
env = record { signature = from_named_sizes (("x", 2) ∷ []); inputs = inputs; params = [] }

-- The pool of a dot product of the nodes 0, 1 and 1, 1.
abbrev tape : Tape parity
tape = record {
  ops = [];
  consts = [];
  arg_pool = 1 ∷ 0 ∷ 0 ∷ 0 ∷ [];
  outputs = [];
  n_work = 2;
  scratch_len = 4;
  min_input_lens = 2 ∷ [];
}

abbrev held : NodeId → Option Bool
held c = get_elem? w (get_or slot_of c 0)

-- 0: x[0];  1: x[1];  2: x[0] * x[1];  3: -x[0]
abbrev nodes : List Node
nodes = Node.input 0 ∷ Node.input 1 ∷ Node.binary BinOp.mul 0 1 ∷ Node.unary UnaryOp.neg 0 ∷ []

third : get_elem? nodes 2 ≡ some (Node.binary BinOp.mul 0 1)
third = refl

below : (i : ℕ) (n : Node) → get_elem? nodes i ≡ some n → Below i n
unfolding children
below zero n e = subst (Below 0) (some-inj e) tt
below (suc zero) n e = subst (Below 1) (some-inj e) tt
below (suc (suc zero)) n e = subst (Below 2) (some-inj e) (omega arith)
below (suc (suc (suc zero))) n e = subst (Below 3) (some-inj e) (omega arith)
below (suc (suc (suc (suc i)))) n e = absurd (none≢some e)

last_uses_reaches_example :
    All (λ c. 2 ≤ get_or (last_uses nodes (2 ∷ [])) c 0) (children (Node.binary BinOp.mul 0 1))
last_uses_reaches_example =
    last_uses_reaches nodes (2 ∷ []) 2 (Node.binary BinOp.mul 0 1) below (omega arith) third

-- w[0] = x[0] - w[1], and the outputs are both slots.
abbrev subtraction : Tape parity
subtraction = record tape {
  ops =
      record { opcode = 1; dst = 0; arg0 = 0; arg1 = 0; arg2 = 0 }
      ∷ record { opcode = 4; dst = 0; arg0 = 0; arg1 = 1; arg2 = 0 }
      ∷ [];
  outputs = 0 ∷ 1 ∷ [];
}

called : call parity subtraction (false ∷ true ∷ []) inputs [] ≡ some (false ∷ true ∷ [])
unfolding call exec_op
called = refl

call_into-call_example :
    call_into parity subtraction (false ∷ true ∷ []) inputs [] (true ∷ true ∷ [])
    ≡ some (false ∷ true ∷ [])
call_into-call_example =
    call_into-call parity subtraction (false ∷ true ∷ []) inputs [] (true ∷ true ∷ [])
      (false ∷ true ∷ []) refl called

alloc_loop-Allocated_example : Allocated (last_uses nodes (2 ∷ 3 ∷ [])) 4 (
    alloc_loop
      (last_uses nodes (2 ∷ 3 ∷ []))
      0
      nodes
      (record { slot_of = []; free = []; n_slots = 0 }))
alloc_loop-Allocated_example =
    alloc_loop-Allocated (last_uses nodes (2 ∷ 3 ∷ [])) 0 nodes
      (record { slot_of = []; free = []; n_slots = 0 })
      (λ j n e. subst (λ k. Below k n) (omega arith) (below j n e))
      (Allocated-start (last_uses nodes (2 ∷ 3 ∷ [])))

outputs_apart_example :
    get_or (allocate_work_slots nodes (2 ∷ 3 ∷ [])) 2 0
    ≢ get_or (allocate_work_slots nodes (2 ∷ 3 ∷ [])) 3 0
outputs_apart_example =
    outputs_apart nodes (2 ∷ 3 ∷ []) 0 1 2 3 below (omega arith) (omega arith, (omega arith, tt))
      refl refl (λ e. absurd (omega (arith, e)))
