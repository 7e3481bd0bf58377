-- ===== src/Tape/Build.antt =====
-- ssa/tape.rs: `TapeOp`, `Tape` and the lowering `Tape::from_graph`.
use mathlib.Core.List.{map}
use Prim.Native.Nat.{max}
use fastsim.Common.{
  ℕ, suc, ◌+◌, ◌*◌, List, [], ◌∷◌, ◌++◌, Option, none, some, ◌>>=◌, length, get_or, set, replicate,
  leb, ◌-◌, ◌==◌, if◌then◌else◌,
}
use fastsim.F64.{F64}
use fastsim.Op.Code
use fastsim.Op.Opcode.{binary_opcode, unary_opcode, cmp_opcode, reduce_code}
use fastsim.Graph.Node.{Node, NodeId}
use fastsim.Graph.Signature.{InputSignature, decode, usize_max}
use fastsim.Graph.Build.{Graph}
use fastsim.Tape.Alloc.{allocate_work_slots}

pub record TapeOp : Type 0 where
  pub opcode : ℕ
  pub dst : ℕ
  pub arg0 : ℕ
  pub arg1 : ℕ
  pub arg2 : ℕ

pub record Tape (R : F64) : Type 0 where
  pub ops : List TapeOp
  pub consts : List R.F
  pub arg_pool : List ℕ
  pub outputs : List ℕ
  pub n_work : ℕ
  pub scratch_len : ℕ
  pub min_input_lens : List ℕ

-- `resize(n, 0)` where it grows
abbrev pub grow : List ℕ → ℕ → List ℕ
grow xs n = xs ++ replicate (n - length xs) 0

unfoldable pub maximum : List ℕ → ℕ
maximum [] = 0
maximum (x ∷ xs) = max x (maximum xs)

-- `max().map(|m| m + 1).unwrap_or(0)`
unfoldable pub slots_used : List ℕ → ℕ
unfolding maximum
slots_used [] = 0
slots_used (x ∷ xs) = maximum (x ∷ xs) + 1

unfoldable pub arity : Node → ℕ
arity (Node.reduce op args) = length args
arity (Node.dot a b) = length a
arity _ = 0

module _ (R : F64) where
  -- The vectors that the loop fills besides the ops.
  pub record Pools : Type 0 where
    pub consts : List R.F
    pub arg_pool : List ℕ
    pub min_input_lens : List ℕ

  -- Note a read of an element of an input slot.
  unfoldable pub note_input : List ℕ → ℕ → ℕ → List ℕ
  note_input lens slot elem =
      let grown = if leb (length lens) slot then grow lens (slot + 1) else lens in
      set grown slot (max (get_or grown slot 0) (elem + 1))

  -- `s(nid)`, the work slot of a node
  abbrev pub slot_in : List ℕ → NodeId → ℕ
  slot_in slot_of nid = get_or slot_of nid 0

  -- The assertion that the decoded slot is not the sentinel.
  unfoldable pub emit_input : ℕ → ℕ × ℕ → Pools → Option (Pools × TapeOp)
  unfolding note_input
  emit_input dst (slot, elem) p =
      if slot == usize_max
      then none
      else some (
        record p { min_input_lens = note_input p.min_input_lens slot elem },
        record { opcode = Code.input; dst = dst; arg0 = slot; arg1 = elem; arg2 = 0 },
      )

  -- One op for one node; `none` is the failed assertion.
  unfoldable pub emit : InputSignature → List ℕ → ℕ → Node → Pools → Option (Pools × TapeOp)
  unfolding emit_input
  emit sig slot_of dst (Node.const bits) p = some (
    record p { consts = p.consts ++ R.from_bits bits ∷ [] },
    record { opcode = Code.const; dst = dst; arg0 = length p.consts; arg1 = 0; arg2 = 0 },
  )
  emit sig slot_of dst (Node.input flat) p = emit_input dst (decode sig flat) p
  emit sig slot_of dst (Node.param i) p =
      some (p, record { opcode = Code.param; dst = dst; arg0 = i; arg1 = 0; arg2 = 0 })
  emit sig slot_of dst (Node.binary op a b) p = some (
    p,
    record {
      opcode = binary_opcode op;
      dst = dst;
      arg0 = slot_in slot_of a;
      arg1 = slot_in slot_of b;
      arg2 = 0;
    },
  )
  emit sig slot_of dst (Node.unary op a) p = some (
    p,
    record { opcode = unary_opcode op; dst = dst; arg0 = slot_in slot_of a; arg1 = 0; arg2 = 0 },
  )
  emit sig slot_of dst (Node.cmp op a b) p = some (
    p,
    record {
      opcode = cmp_opcode op;
      dst = dst;
      arg0 = slot_in slot_of a;
      arg1 = slot_in slot_of b;
      arg2 = 0;
    },
  )
  emit sig slot_of dst (Node.select c th el) p = some (
    p,
    record {
      opcode = Code.select;
      dst = dst;
      arg0 = slot_in slot_of c;
      arg1 = slot_in slot_of th;
      arg2 = slot_in slot_of el;
    },
  )
  emit sig slot_of dst (Node.fma a b c) p = some (
    p,
    record {
      opcode = Code.fma;
      dst = dst;
      arg0 = slot_in slot_of a;
      arg1 = slot_in slot_of b;
      arg2 = slot_in slot_of c;
    },
  )
  emit sig slot_of dst (Node.reduce op args) p = some (
    record p { arg_pool = p.arg_pool ++ map (slot_in slot_of) args },
    record {
      opcode = Code.reduce;
      dst = dst;
      arg0 = reduce_code op;
      arg1 = length p.arg_pool;
      arg2 = length args;
    },
  )
  emit sig slot_of dst (Node.dot a b) p = some (
    record p { arg_pool = (p.arg_pool ++ map (slot_in slot_of) a) ++ map (slot_in slot_of) b },
    record { opcode = Code.dot; dst = dst; arg0 = length a; arg1 = length p.arg_pool; arg2 = 0 },
  )

  -- The loop over the nodes from index `i`.
  unfoldable pub emit_all :
      InputSignature → List ℕ → ℕ → List Node → Pools → Option (Pools × List TapeOp)
  emit_all sig slot_of i [] p = some (p, [])
  emit_all sig slot_of i (n ∷ nodes) p = elim (emit sig slot_of (slot_in slot_of i) n p) [
    | none ↦ none
    | some r ↦ do (q, ops) ← emit_all sig slot_of (suc i) nodes r.0; some (q, r.1 ∷ ops)
  ]

  unfoldable pub from_graph : Graph R → Option (Tape R)
  unfolding emit_all
  from_graph g =
      let slot_of = allocate_work_slots g.nodes g.outputs in
      let lens = replicate (length g.signature.slots) 0 in
      do
        (p, ops) ←
            emit_all g.signature slot_of 0 g.nodes
              (record { consts = []; arg_pool = []; min_input_lens = lens })
        some (record {
          ops = ops;
          consts = p.consts;
          arg_pool = p.arg_pool;
          outputs = map (slot_in slot_of) g.outputs;
          n_work = slots_used slot_of;
          scratch_len = 2 * maximum (map arity g.nodes);
          min_input_lens = p.min_input_lens;
        })
