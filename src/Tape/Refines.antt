-- ===== src/Tape/Refines.antt =====
-- ssa/tape.rs, ssa/graph.rs: a lowered tape computes what the graph's own `interpret` computes.
use mathlib.Core.List.{append-nil, map}
use Prim.Native.Nat.{max}
use fastsim.Common.{
  ℕ, zero, suc, ◌*◌, ◌≤◌, ◌<◌, ◌≡◌, refl, sym, ap, subst, ◌∙◌, true, List, [], ◌∷◌, none, some,
  some-inj, ◌>>=◌, >>=-eq-some, All, All-map, length, lt-length, get_elem?, get_elem?-total, get_or,
  replicate, if◌then◌else◌, arith,
}
use fastsim.F64.{F64}
use fastsim.Graph.Node.{Node, NodeId, children}
use fastsim.Graph.Build.{Graph}
use fastsim.Graph.Eval.{env_of, eval_node, read_all, interpret}
use fastsim.Graph.Meaning.Operands.{read_all-congr}
use fastsim.Graph.Meaning.Values.{IsOrdered, eval_nodes_total, read_all_total}
use fastsim.Graph.Meaning.Interpret.{interpret_of_values}
use fastsim.Tape.Alloc.{allocate_work_slots, last_uses, u32_max}
use fastsim.Tape.Build.{
  Tape, TapeOp, Pools, emit_all, from_graph, slot_in, slots_used, maximum, arity,
}
use fastsim.Tape.Eval.{check_inputs, eval, read_outputs, call}
use fastsim.Tape.Liveness.{last_uses_reaches, last_uses_pinned}
use fastsim.Tape.SlotsStay.{length-allocate_work_slots, slot_stays}
use fastsim.Tape.EmitSound.{IsRunnable}
use fastsim.Tape.Simulation.{IsPlanned, eval_ops-IsHeld}

All-zip :
    {A : Type 0} (P Q : A → Type 0) (xs : List A) → All P xs → All Q xs → All (λ x. P x × Q x) xs
All-zip P Q [] h k = tt
All-zip P Q (x ∷ xs) h k = ((h.0, k.0), All-zip P Q xs h.1 k.1)

get_or-le-maximum : (xs : List ℕ) (i : ℕ) → get_or xs i 0 ≤ maximum xs
unfolding maximum
get_or-le-maximum [] i = omega arith
get_or-le-maximum (x ∷ xs) zero = omega arith
get_or-le-maximum (x ∷ xs) (suc i) = omega (arith, get_or-le-maximum xs i)

-- A slot that is given out lies in the work buffer.
get_or-lt-slots_used : (xs : List ℕ) (i : ℕ) → i < length xs → get_or xs i 0 < slots_used xs
unfolding slots_used
get_or-lt-slots_used [] i h = elim h [ ]
get_or-lt-slots_used (x ∷ xs) i h = omega (arith, get_or-le-maximum (x ∷ xs) i)

arity-le-maximum :
    (nodes : List Node) (i : ℕ) (n : Node)
    → get_elem? nodes i ≡ some n
    → arity n ≤ maximum (map arity nodes)
unfolding maximum
arity-le-maximum [] i n e = cc
arity-le-maximum (m ∷ nodes) zero n e =
    subst (λ k. arity k ≤ max (arity m) (maximum (map arity nodes))) (some-inj e) (omega arith)
arity-le-maximum (m ∷ nodes) (suc i) n e = omega (arith, arity-le-maximum nodes i n e)

module _ (R : F64) where
  read_outputs-map :
      (w : List R.F) (slot_of : List ℕ) (outputs : List NodeId)
      → read_outputs R w (map (slot_in R slot_of) outputs)
        ≡ read_all R (λ c. get_elem? w (slot_in R slot_of c)) outputs
  unfolding read_outputs read_all
  read_outputs-map w slot_of [] = refl
  read_outputs-map w slot_of (o ∷ outputs) =
      ap (λ xs. get_elem? w (slot_in R slot_of o) >>= λ x. xs >>= λ l. some (x ∷ l))
        (read_outputs-map w slot_of outputs)

  -- The tape that `from_graph` makes of the pools and the ops.
  abbrev tape_of : Graph R → Pools R → List TapeOp → Tape R
  tape_of g p ops =
      let slot_of = allocate_work_slots g.nodes g.outputs in
      record {
        ops = ops;
        consts = p.consts;
        arg_pool = p.arg_pool;
        outputs = map (slot_in R slot_of) g.outputs;
        n_work = slots_used slot_of;
        scratch_len = 2 * maximum (map arity g.nodes);
        min_input_lens = p.min_input_lens;
      }

  -- A graph that the tape can run: its operands stand before their users, its outputs are nodes, the
  -- ids fit, its parameters are given, and the operand lists of its dot products match.
  pub record IsLowerable (g : Graph R) (params : List R.F) : Type 0 where
    pub ordered : IsOrdered g.nodes
    pub outputs : All (λ o. o < length g.nodes) g.outputs
    pub fits : length g.nodes ≤ u32_max
    pub runnable : (i : ℕ) (n : Node) → get_elem? g.nodes i ≡ some n → IsRunnable (length params) n

  module _ (g : Graph R) (inputs : List (List R.F)) (params : List R.F) (low : IsLowerable g params)
      (t : Tape R) (n_work : t.n_work ≡ slots_used (allocate_work_slots g.nodes g.outputs))
      (scratch : t.scratch_len ≡ 2 * maximum (map arity g.nodes)) (vs : List R.F) where
    planned :
        (length vs ≡ length g.nodes)
        → ((i : ℕ) (n : Node)
            → get_elem? g.nodes i ≡ some n
            → eval_node R (get_elem? vs) (env_of R g inputs params) n ≡ get_elem? vs i)
        → (i : ℕ) (n : Node) → get_elem? g.nodes i ≡ some n
        → IsPlanned R t inputs params g.signature
            (allocate_work_slots g.nodes g.outputs)
            (last_uses g.nodes g.outputs)
            vs
            i
            n
    unfolding env_of
    planned size solves i n e =
        let lt = lt-length g.nodes i e in
        let (v, at) = get_elem?-total vs i (omega (arith, lt, size)) in
        let slots = allocate_work_slots g.nodes g.outputs in
        record {
          operands =
              All-zip (λ c. c < i) (λ c. i ≤ get_or (last_uses g.nodes g.outputs) c 0) (children n)
                (low.ordered i n e)
                (last_uses_reaches g.nodes g.outputs i n low.ordered low.fits e);
          value = (v, at, solves i n e ∙ at);
          fresh = λ c lc reads. slot_stays g.nodes g.outputs low.ordered i c lt lc reads;
          room = omega (
            arith,
            n_work,
            get_or-lt-slots_used slots i
                (omega (arith, lt, length-allocate_work_slots g.nodes g.outputs low.ordered)),
          );
          runnable = low.runnable i n e;
          fits = omega (arith, scratch, arity-le-maximum g.nodes i n e);
        }

  -- The call on the tape that was made of a graph.
  call-tape_of :
      (g : Graph R) (inputs : List (List R.F)) (params w : List R.F) (p : Pools R)
      (ops : List TapeOp)
      → IsLowerable g params
      → emit_all R g.signature (allocate_work_slots g.nodes g.outputs) 0 g.nodes (record {
        consts = [];
        arg_pool = [];
        min_input_lens = replicate (length g.signature.slots) 0;
      })
        ≡ some (p, ops)
      → length w ≡ (tape_of g p ops).n_work
      → check_inputs R (tape_of g p ops) inputs ≡ true
      → (ys : List R.F) × (call R (tape_of g p ops) w inputs params ≡ some ys)
        × (interpret R g inputs params ≡ some ys)
  unfolding call eval env_of
  call-tape_of g inputs params w p ops low emitted size checked =
      let t = tape_of g p ops in
      let slot_of = allocate_work_slots g.nodes g.outputs in
      let lu = last_uses g.nodes g.outputs in
      let env = env_of R g inputs params in
      let (vs, runs, sol) = eval_nodes_total R env g.nodes low.ordered in
      let (w', ran, held) =
        eval_ops-IsHeld R t inputs params g.signature slot_of lu vs 0 g.nodes _ p ops w checked
          emitted
          (record {
            consts = ([], sym (append-nil p.consts));
            arg_pool = ([], sym (append-nil p.arg_pool));
            lens = λ k. omega arith;
          })
          (λ j n e.
            subst (λ k. IsPlanned R t inputs params g.signature slot_of lu vs k n) (omega arith)
              (planned g inputs params low t refl refl vs sol.0 sol.1 j n e))
          (record { size = size; holds = λ c lt. absurd (omega (arith, lt)) }) in
      let pinned =
        All-zip (λ o. o < length g.nodes) (λ o. get_or lu o 0 ≡ u32_max) g.outputs low.outputs
          (last_uses_pinned g.nodes g.outputs low.outputs) in
      let (ys, read) =
        read_all_total R env vs g.outputs
          (All-map (λ o h. omega (arith, h, sol.0)) g.outputs low.outputs) in
      let same =
        read_outputs-map w' slot_of g.outputs
        ∙ read_all-congr R env (get_elem? vs) (λ c. get_elem? w' (slot_in R slot_of c)) g.outputs
            (All-map (λ o h. held.holds o (omega (arith, h.0)) (omega (arith, h.1, low.fits)))
              g.outputs pinned)
        ∙ read in
      (
        ys,
        ap (λ b. if b then (eval R t inputs params w >>= λ x. read_outputs R x t.outputs) else none)
              checked
            ∙ ap (λ o. o >>= λ x. read_outputs R x t.outputs) ran
            ∙ same,
        interpret_of_values R g inputs params env vs refl runs ∙ read,
      )

  -- A lowered tape, called with a work buffer of its size, whatever that holds, and with inputs that
  -- pass the check, returns the values that the graph's own `interpret` returns.
  pub call-interpret :
      (g : Graph R) (t : Tape R) (inputs : List (List R.F)) (params w : List R.F)
      → IsLowerable g params
      → from_graph R g ≡ some t
      → length w ≡ t.n_work
      → check_inputs R t inputs ≡ true
      → (ys : List R.F) × (call R t w inputs params ≡ some ys)
        × (interpret R g inputs params ≡ some ys)
  unfolding from_graph
  call-interpret g t inputs params w low lowered size checked =
      let (s, emitted, made) =
        >>=-eq-some
          (emit_all R g.signature (allocate_work_slots g.nodes g.outputs) 0 g.nodes (record {
            consts = [];
            arg_pool = [];
            min_input_lens = replicate (length g.signature.slots) 0;
          }))
          (λ s. some (tape_of g s.0 s.1)) lowered in
      let same = some-inj made in
      subst
        (λ k.
          length w ≡ k.n_work
          → check_inputs R k inputs ≡ true
          → (ys : List R.F) × (call R k w inputs params ≡ some ys)
            × (interpret R g inputs params ≡ some ys))
        same (call-tape_of g inputs params w s.0 s.1 low emitted) size checked
