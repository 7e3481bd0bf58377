-- ===== src/Tape/OpSound.antt =====
-- ssa/tape.rs: the op that is emitted for a node computes the value of the node.
use mathlib.Core.List.{map, append_assoc}
use mathlib.Core.Option
use fastsim.Common.{
  ℕ, suc, ◌+◌, ◌*◌, ◌≤◌, ◌<◌, ◌≡◌, refl, sym, ap, ap₂, subst, ◌∙◌, Bool, true, List, [], ◌∷◌, ◌++◌,
  Option, none, some, ◌>>=◌, length, length-push, get_elem?, get_elem?-total, Option-cases, inl,
  inr, leb, if◌then◌else◌, arith,
}
use fastsim.F64.{F64, zero_f}
use fastsim.Op.Kinds.{BinOp, UnaryOp, CmpOp, ReduceOp}
use fastsim.Op.Code
use fastsim.Op.Lanes.{reduce_scalar, dot_scalar}
use fastsim.Op.Opcode.{binary_opcode, unary_opcode, cmp_opcode, reduce_code}
use fastsim.Op.Apply.{apply_binary, apply_unary, apply_cmp}
use fastsim.Graph.Node.{Node, NodeId}
use fastsim.Graph.Signature.{decode}
use fastsim.Graph.Eval.{Env, eval_node, read_all, input_value, param_value}
use fastsim.Tape.Build.{Tape, slot_in}
use fastsim.Tape.Eval.{exec_value, gather, reduce_op_of, slot_length}

get_elem?-at {ℓ} :
    {A : Type ℓ} (pre : List A) (x : A) (post : List A)
    → get_elem? (pre ++ x ∷ post) (length pre) ≡ some x
get_elem?-at [] x post = refl
get_elem?-at (y ∷ pre) x post = get_elem?-at pre x post

reduce_op_code : (R : F64) (op : ReduceOp) → reduce_op_of R (reduce_code op) ≡ op
unfolding reduce_op_of reduce_code
reduce_op_code R ReduceOp.sum = refl
reduce_op_code R _ = refl

le→leb : (a b : ℕ) → a ≤ b → leb a b ≡ true
le→leb a b h = ground arith

module _ (R : F64) (env : Env R) (t : Tape R) (inputs : List (List R.F)) (params w : List R.F)
    (slot_of : List ℕ) (dst : ℕ) where
  -- What the work slot of a node holds.
  abbrev pub held : NodeId → Option R.F
  held c = get_elem? w (slot_in R slot_of c)

  -- The op emitted for a binary node computes what `apply_binary` gives at the operands that the work
  -- slots hold, for each of the operations.
  pub exec-binary :
      (op : BinOp) (a b : NodeId)
      → exec_value R t inputs params w (record {
        opcode = binary_opcode op;
        dst = dst;
        arg0 = slot_in R slot_of a;
        arg1 = slot_in R slot_of b;
        arg2 = 0;
      })
        ≡ eval_node R held env (Node.binary op a b)
  unfolding exec_value binary_opcode eval_node apply_binary
  exec-binary BinOp.add a b = refl
  exec-binary _ a b = refl

  -- The op emitted for a unary node computes what `apply_unary` gives at the operand that its work slot
  -- holds, for each of the operations.
  pub exec-unary :
      (op : UnaryOp) (a : NodeId)
      → exec_value R t inputs params w (record {
        opcode = unary_opcode op;
        dst = dst;
        arg0 = slot_in R slot_of a;
        arg1 = 0;
        arg2 = 0;
      })
        ≡ eval_node R held env (Node.unary op a)
  unfolding exec_value unary_opcode eval_node apply_unary
  exec-unary UnaryOp.neg a = refl
  exec-unary _ a = refl

  -- The op emitted for a comparison computes what `apply_cmp` gives at the operands that the work slots
  -- hold, for each of the comparisons.
  pub exec-cmp :
      (op : CmpOp) (a b : NodeId)
      → exec_value R t inputs params w (record {
        opcode = cmp_opcode op;
        dst = dst;
        arg0 = slot_in R slot_of a;
        arg1 = slot_in R slot_of b;
        arg2 = 0;
      })
        ≡ eval_node R held env (Node.cmp op a b)
  unfolding exec_value cmp_opcode eval_node apply_cmp
  exec-cmp CmpOp.gt a b = refl
  exec-cmp _ a b = refl

  -- The pool from `start` on names the work slots of the operands.
  abbrev pub NamesAt : List ℕ → ℕ → List NodeId → Type 0
  NamesAt pool start args =
      (pre : List ℕ) × (post : List ℕ) × (pool ≡ pre ++ (map (slot_in R slot_of) args ++ post))
      × (start ≡ length pre)

  gather-read_all :
      (pool : List ℕ) (start : ℕ) (args : List NodeId)
      → NamesAt pool start args
      → gather R pool w start (length args) ≡ read_all R held args
  unfolding gather read_all
  gather-read_all pool start [] names = refl
  gather-read_all pool start (a ∷ args) (pre, post, at, begin) =
      let rest = map (slot_in R slot_of) args ++ post in
      let first : get_elem? pool start ≡ some (slot_in R slot_of a) =
        ap (λ l. get_elem? l start) at
        ∙ ap (get_elem? (pre ++ slot_in R slot_of a ∷ rest)) begin
        ∙ get_elem?-at pre (slot_in R slot_of a) rest in
      let next = gather-read_all pool (suc start) args (
        pre ++ slot_in R slot_of a ∷ [],
        post,
        at ∙ sym (append_assoc pre (slot_in R slot_of a ∷ []) rest),
        ap suc begin ∙ sym (length-push pre (slot_in R slot_of a)),
      ) in
      rw (first, next)

  -- The op emitted for a reduction computes the reduction of the operands that the work slots hold, when
  -- the pool names those slots from the start of the op and the scratch has room for them.
  pub exec-reduce :
      (op : ReduceOp) (args : List NodeId) (start : ℕ)
      → NamesAt t.arg_pool start args
      → length args ≤ t.scratch_len
      → exec_value R t inputs params w (record {
        opcode = Code.reduce;
        dst = dst;
        arg0 = reduce_code op;
        arg1 = start;
        arg2 = length args;
      })
        ≡ eval_node R held env (Node.reduce op args)
  unfolding exec_value eval_node
  exec-reduce op args start names fits =
      ap₂
        (λ (g : Option (List R.F)) (b : Bool). g >>= λ xs.
          if b then some (reduce_scalar R (reduce_op_of R (reduce_code op)) xs) else none)
        (gather-read_all t.arg_pool start args names) (le→leb (length args) t.scratch_len fits)
      ∙ ap (λ o. read_all R held args >>= λ xs. some (reduce_scalar R o xs)) (reduce_op_code R op)

  -- The op emitted for a dot product of two lists of one length computes it at the operands that the
  -- work slots hold, when the pool names the slots of the one and then of the other list, and the
  -- scratch has room for both.
  pub exec-dot :
      (a b : List NodeId) (start : ℕ)
      → NamesAt t.arg_pool start a
      → NamesAt t.arg_pool (start + length a) b
      → length b ≡ length a
      → 2 * length a ≤ t.scratch_len
      → exec_value R t inputs params w
          (record { opcode = Code.dot; dst = dst; arg0 = length a; arg1 = start; arg2 = 0 })
        ≡ eval_node R held env (Node.dot a b)
  unfolding exec_value eval_node
  exec-dot a b start na nb same fits =
      ap
        (λ f. gather R t.arg_pool w start (length a) >>= λ xs.
          gather R t.arg_pool w (start + length a) (length a) >>= λ ys.
          if f then some (dot_scalar R xs ys) else none)
        (le→leb (2 * length a) t.scratch_len fits)
      ∙ ap₂ (λ g h. g >>= λ xs. h >>= λ ys. some (dot_scalar R xs ys))
          (gather-read_all t.arg_pool start a na)
          (ap (gather R t.arg_pool w (start + length a)) (sym same)
            ∙ gather-read_all t.arg_pool (start + length a) b nb)

  pub exec-select :
      (c th el : NodeId)
      → exec_value R t inputs params w (record {
        opcode = Code.select;
        dst = dst;
        arg0 = slot_in R slot_of c;
        arg1 = slot_in R slot_of th;
        arg2 = slot_in R slot_of el;
      })
        ≡ eval_node R held env (Node.select c th el)
  unfolding exec_value eval_node
  exec-select c th el = refl

  pub exec-fma :
      (a b c : NodeId)
      → exec_value R t inputs params w (record {
        opcode = Code.fma;
        dst = dst;
        arg0 = slot_in R slot_of a;
        arg1 = slot_in R slot_of b;
        arg2 = slot_in R slot_of c;
      })
        ≡ eval_node R held env (Node.fma a b c)
  unfolding exec_value eval_node
  exec-fma a b c = refl

  pub exec-const :
      (bits k : ℕ)
      → get_elem? t.consts k ≡ some (R.from_bits bits)
      → exec_value R t inputs params w
          (record { opcode = Code.const; dst = dst; arg0 = k; arg1 = 0; arg2 = 0 })
        ≡ eval_node R held env (Node.const bits)
  unfolding exec_value eval_node
  exec-const bits k e = e

  pub exec-param :
      (i : ℕ)
      → params ≡ env.params
      → i < length params
      → exec_value R t inputs params w
          (record { opcode = Code.param; dst = dst; arg0 = i; arg1 = 0; arg2 = 0 })
        ≡ eval_node R held env (Node.param i)
  unfolding exec_value eval_node param_value
  exec-param i same lt =
      let (v, e) = get_elem?-total params i lt in
      e
      ∙ sym
          (ap some (ap (λ o. Option.get_or o (zero_f R)) (ap (λ l. get_elem? l i) (sym same) ∙ e)))

  -- The op emitted for an input reads what the graph reads for the flat index, when the slot that the
  -- index decodes to has the element.
  pub exec-input :
      (flat slot elem : ℕ)
      → inputs ≡ env.inputs
      → decode env.signature flat ≡ (slot, elem)
      → elem < slot_length R (get_elem? inputs slot)
      → exec_value R t inputs params w
          (record { opcode = Code.input; dst = dst; arg0 = slot; arg1 = elem; arg2 = 0 })
        ≡ eval_node R held env (Node.input flat)
  unfolding exec_value eval_node input_value slot_length
  exec-input flat slot elem same at lt = elim (Option-cases (get_elem? inputs slot)) [
    | inl missing ↦ absurd (omega (arith, ap (slot_length R) missing))
    | inr (s, e) ↦
        let (v, p) = get_elem?-total s elem (subst (λ o. elem < slot_length R o) e lt) in
        let found = ap (λ o. o >>= λ l. get_elem? l elem) e ∙ p in
        found
        ∙ sym (
            ap some (
              ap (λ d. Option.get_or (get_elem? env.inputs d.0 >>= λ l. get_elem? l d.1) (zero_f R))
                at
              ∙ ap (λ k. Option.get_or (get_elem? k slot >>= λ l. get_elem? l elem) (zero_f R))
                  (sym same)
              ∙ ap (λ o. Option.get_or o (zero_f R)) found))
  ]
