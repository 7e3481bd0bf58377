-- ===== src/Lib.antt =====
-- fastsim: the expression graph, its optimizer and its evaluator
--
-- The program simulates block diagrams. A block's function is traced into a hash-consed graph of
-- scalar operations (src/ssa/graph.rs), the graph is rewritten (src/ssa/optimize.rs) and lowered to a
-- flat tape with recycled work slots (src/ssa/tape.rs), which a loop over opcodes evaluates. The
-- graph's own `interpret` is the reference for all of these. This library models that core.
--
-- Parts
-- - Common: lists, options and Boolean tests over the native numbers.
-- - F64: f64 arithmetic as a parameter, a record of the operations that the source calls, with
--   constants given by their bit patterns. F64/Laws states what the proofs rely on: `IeeeLaws` holds of
--   f64 (with the payload of a NaN forgotten); `IsExactAt` says that the identities which the
--   rewriting passes take for granted are exact at the values of one graph, each where the expression
--   that a pass rewrites occurs. f64 has them where nothing is rounded and no value is a NaN, infinite,
--   below zero or a negative zero, as at small integers; elsewhere these passes may change a value.
-- - Op (src/ssa/op.rs): Op/Kinds the enums, Op/Apply the functions `apply_*`, `digamma` and
--   `rand_uniform`, Op/Code and Op/Opcode the opcode tables, Op/CName the C names, Op/Lanes the portable
--   four-lane kernels, Op/Avx the kernels on AVX2 registers (the record `Vector`, a parameter) and the
--   choice between the two.
-- - Graph (src/ssa/graph.rs): Graph/Node, Graph/Signature (`InputSignature`), Graph/Build (`Graph::add`
--   and the constructors; the `HashMap` is an association list), Graph/Eval (`Graph::interpret`).
--   Graph/Meaning says which values solve a graph, Graph/HashCons is the well-formedness of a graph.
-- - Optimize (src/ssa/optimize.rs): the passes `constant_fold`, `strength_reduce`,
--   `algebraic_simplify` and `detect_fma`. Each is a decision on one node (Optimize/Fold, Strength,
--   Algebraic, Fma) and a store of what it decides (Optimize/Store). Optimize/Round is the loop
--   of `optimize`. Optimize/DeadCode is `dead_code_elimination`, Optimize/Mark its search, Optimize/Rank its
--   renumbering, Optimize/Canonical is `insert_canonical` (its choices in Optimize/FoldChoice, SortSound
--   and ChoiceSound) and Optimize/Rebuild `canonicalize` (its search in Optimize/Pending and Rebuilding).
--   An index out of range is a panic, `none`.
-- - Autodiff (src/ssa/autodiff.rs): Autodiff/Rules has the rules of `diff_node` as lists of calls,
--   Autodiff/Diff is `differentiate`, Autodiff/Tangent the chain rule that it is compared with, which shares no
--   definition with it (`Digamma`, whose derivative the source leaves at 0, is left out of the comparison),
--   Autodiff/Jacobian the Jacobian graphs and the search for the inputs that a node reaches.
-- - Tape (src/ssa/tape.rs): Tape/Alloc (`allocate_work_slots`; Tape/Slots and Tape/AllocSound its
--   invariant, Tape/Liveness the last uses), Tape/Build (`Tape::from_graph`),
--   Tape/Eval (`Tape::eval`, `InterpretedFn::check_inputs` and `call`), Tape/CallInto (`call_into`), Tape/Params
--   (`set_param_by_name`).
--   An unchecked access out of bounds, or an opcode outside the table, is `none`. Tape/OpSound,
--   Tape/EmitSound, Tape/SlotsStay and Tape/Simulation lead to Tape/Refines, which compares a tape with
--   `interpret`.
-- - Utils/Register (src/utils/register.rs): the values at the ports of a block. Utils/RegisterPorts says
--   what they read after a write.
-- - Utils/PortReference (src/utils/portreference.rs): a block and a list of its ports. Blocks are a store
--   and an `Rc` to one is an id, so references may share a block; `to` and the getters and setters panic
--   out of range as `none`.
-- - Connection (src/connection.rs): the transfer from a source to targets, in turn. Connection/Transfer
--   says what the loops of `to` write, Connection/Update what an update does to the store, and
--   Connection/Resolve how names become indices.
-- - Utils/AdaptiveBuffer (src/utils/adaptivebuffer.rs): the history of a signal, and its shape in
--   Utils/BufferShape.
-- - Utils/Rng (src/utils/rng.rs): the generator of random numbers, without the seed from the clock.
-- - Events (src/events): Events/Action is the shared flag and the action of an event, Events/Schedule and
--   Events/ScheduleList (src/events/schedule.rs), Events/Condition (src/events/condition.rs) and
--   Events/ZeroCrossing (src/events/zerocrossing.rs), whose directions Events/Directions compares. Several
--   resolutions in a row are a function from the list of the times that the callers found.
-- - Tests: an arithmetic modulo 2, a variant of it in which the identities of the passes fail at other
--   values than those of the graph, and each result at a concrete input.
--
-- Bounds and fuel
-- - A node id is a `u32`: the results about `Graph::add` assume that there is room for one more id.
--   `usize` sums are taken without overflow, and so are the casts to `u32` of slots, elements, operand
--   counts and offsets in `Tape::from_graph`. The `debug_assert` of `Graph::dot` on the lengths of its
--   operands is left out, as a release build does.
-- - `digamma` runs on fuel 2 ^ 54, more rounds than its loop makes where it ends. For an argument that
--   adding 1 does not change the loop does not end, and the model has no value there: the functions
--   that apply it read NaN.
-- - The search of `dead_code_elimination` runs on as much fuel as there are outputs and operands,
--   that of `canonicalize_once` on one more for each node.
-- - `differentiate` recurses from a node to its operands; its fuel is the id and one, and no more than the
--   number of nodes in the Jacobian graphs.
-- - `optimize` loops until no pass changes the graph. The model takes the number of rounds, and the
--   result is for every number.
--
-- Not modelled
-- - Of src/ssa: reassociation (and so `lower_for_tape`, which runs it between two `canonicalize`),
--   the queries of autodiff.rs that run `optimize` first, and the printing of graphs.
-- - The other parts of the program (compile, codegen, tracer, blocks, solvers, simulation, the other
--   utilities, and the bindings).
pub mod Common
pub mod F64
pub mod Op
pub mod Graph
pub mod Optimize
pub mod Autodiff
pub mod Connection
pub mod Tape
pub mod Utils
pub mod Events
pub mod Tests
