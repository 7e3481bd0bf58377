-- ===== src/Tests/GraphTests.antt =====
-- The theorems about the graph and its optimizer at small graphs.
use Prim.Native.String.{String}
use fastsim.Common.{
  ℕ, ◌+◌, ◌<◌, ◌≤◌, ◌^◌, ◌≡◌, refl, Bool, true, false, List, [], ◌∷◌, ◌++◌, some, length, get_elem?,
  arith,
}
use fastsim.Op.Kinds.{BinOp, ReduceOp}
use fastsim.Op.Avx.{dot, reduce, dot-eq-dot_scalar, reduce-eq-reduce_scalar}
use fastsim.Op.Lanes.{dot_scalar, reduce_scalar}
use fastsim.Graph.Node.{Node, Node-discrete, children, map_children}
use fastsim.Graph.Signature.{from_named_sizes, decode, usize_max, InputSlot}
use fastsim.Graph.Signature.Decode.{decode-from_named_sizes, decode_out_of_range, decode_in_range}
use fastsim.Graph.Build.{Graph, new, add, dedup_get, const_value}
use fastsim.Graph.Eval.{Env, eval_node, eval_nodes, interpret}
use fastsim.Graph.Meaning.Values.{Below}
use fastsim.Graph.HashCons.{IsHashConsed, new-IsHashConsed, add-IsHashConsed}
use fastsim.Graph.AddValue.{eval_nodes-add, interpret-add}
use fastsim.Optimize.RoundSound.{IsHashConsed-IsValued}
use fastsim.Graph.Meaning.Values.{eval_nodes_total}
use fastsim.Optimize.InPlace.{IsValued, SameFrame}
use fastsim.Optimize.Fold.{constant_fold}
use fastsim.Optimize.FoldSound.{constant_fold_sound}
use fastsim.Optimize.Canonical.{insert_canonical}
use fastsim.Optimize.CanonicalSound.{insert_canonical_sound}
use fastsim.Optimize.Rebuild.{canonicalize_once, canonicalize}
use fastsim.Optimize.CanonicalizeSound.{canonicalize_once_sound, canonicalize_sound}
use fastsim.Optimize.Fixpoint.{canonicalize_once_idem}
use fastsim.Tests.Parity.{parity, parity_ieee, parity_vector, parity_vector_laws}

abbrev entries : List (String × ℕ)
entries = ("x", 3) ∷ ("t", 1) ∷ []

-- 0: x[0];  1: 0.0;  2: x[0] + 0.0;  3: (x[0] + 0.0) * x[0]
abbrev g0 : Graph parity
g0 = new parity (from_named_sizes entries)

abbrev g1 : Graph parity
g1 = (add parity g0 (Node.input 0)).0

abbrev g2 : Graph parity
g2 = (add parity g1 (Node.const 0)).0

abbrev pub g3 : Graph parity
g3 = (add parity g2 (Node.binary BinOp.add 0 1)).0

abbrev product : Node
product = Node.binary BinOp.mul 2 0

sizes :
    (length g0.nodes ≡ 0) × (length g1.nodes ≡ 1) × (length g2.nodes ≡ 2) × (length g3.nodes ≡ 3)
unfolding new add dedup_get Node-discrete
sizes = (refl, refl, refl, refl)

pub g3-IsHashConsed : IsHashConsed g3
unfolding new add dedup_get Node-discrete children
g3-IsHashConsed =
    add-IsHashConsed parity g2 (Node.binary BinOp.add 0 1)
      (add-IsHashConsed parity g1 (Node.const 0)
        (add-IsHashConsed parity g0 (Node.input 0)
          (new-IsHashConsed parity (from_named_sizes entries)) (omega arith) (omega arith))
        (omega arith) (omega arith))
      (omega arith) (omega arith)

pub g3_small : length g3.nodes < 2 ^ 32
unfolding new add dedup_get Node-discrete
g3_small = omega arith

pub g3_has : 2 < length g3.nodes
unfolding new add dedup_get Node-discrete
g3_has = omega arith

product-Below : Below (length g3.nodes) product
unfolding new add dedup_get Node-discrete children
product-Below = omega arith

slot_x :
    get_elem? (from_named_sizes entries).slots 0
    ≡ some (record { name = "x"; size = 3; offset = 0 })
unfolding from_named_sizes
slot_x = refl

total : (from_named_sizes entries).total_size ≡ 4
unfolding from_named_sizes
total = refl

decode-from_named_sizes_example : decode (from_named_sizes entries) 2 ≡ (0, 2)
decode-from_named_sizes_example =
    decode-from_named_sizes entries 0 2 (record { name = "x"; size = 3; offset = 0 }) slot_x
      (omega arith)

decode_in_range_example :
    (s : InputSlot) × (get_elem?
        (from_named_sizes entries).slots
        (decode (from_named_sizes entries) 3).0
      ≡ some s)
    × (s.offset + (decode (from_named_sizes entries) 3).1 ≡ 3)
    × ((decode (from_named_sizes entries) 3).1 < s.size)
decode_in_range_example = decode_in_range entries 3 (omega (arith, total))

decode_out_of_range_example : decode (from_named_sizes entries) 9 ≡ (usize_max, 0)
decode_out_of_range_example = decode_out_of_range entries 9 (omega (arith, total))

add-IsHashConsed_example : IsHashConsed (add parity g3 product).0
add-IsHashConsed_example = add-IsHashConsed parity g3 product g3-IsHashConsed g3_small product-Below

abbrev pub env : Env parity
env = record { signature = from_named_sizes entries; inputs = (true ∷ []) ∷ []; params = [] }

eval_nodes-add_example :
    (vs : List Bool) × (ws : List Bool) × (eval_nodes parity env [] g3.nodes ≡ some vs)
    × (eval_nodes parity env [] (add parity g3 product).0.nodes ≡ some (vs ++ ws))
    × (get_elem? (vs ++ ws) (add parity g3 product).1 ≡ eval_node parity (get_elem? vs) env product)
eval_nodes-add_example = eval_nodes-add parity env g3 product g3-IsHashConsed g3_small product-Below

interpret-add_example :
    interpret parity (add parity g3 product).0 ((true ∷ []) ∷ []) []
    ≡ interpret parity g3 ((true ∷ []) ∷ []) []
interpret-add_example =
    interpret-add parity g3 product ((true ∷ []) ∷ []) [] g3-IsHashConsed g3_small product-Below

pub values : (vs : List Bool) × (eval_nodes parity env [] g3.nodes ≡ some vs)
values = (_, (eval_nodes_total parity env g3.nodes g3-IsHashConsed.ordered).1)

g3-IsValued : IsValued parity env values.0 g3
g3-IsValued = IsHashConsed-IsValued parity g3 env values.0 g3-IsHashConsed values.1

constant_fold_sound_example :
    (g' : Graph parity) × (changed : Bool) × (constant_fold parity g3 2 ≡ some (g', changed))
    × IsValued parity env values.0 g'
    × SameFrame parity env values.0 g3 g'
constant_fold_sound_example =
    constant_fold_sound parity env values.0 parity_ieee g3 2 g3-IsValued g3_has

dot-eq-dot_scalar_example :
    dot parity parity_vector true
      (true ∷ true ∷ false ∷ true ∷ true ∷ [])
      (true ∷ true ∷ true ∷ true ∷ true ∷ [])
    ≡ dot_scalar parity
        (true ∷ true ∷ false ∷ true ∷ true ∷ [])
        (true ∷ true ∷ true ∷ true ∷ true ∷ [])
dot-eq-dot_scalar_example =
    dot-eq-dot_scalar parity parity_vector parity_vector_laws true
      (true ∷ true ∷ false ∷ true ∷ true ∷ []) (true ∷ true ∷ true ∷ true ∷ true ∷ [])

reduce-eq-reduce_scalar_example :
    reduce parity parity_vector true ReduceOp.sum (true ∷ true ∷ false ∷ true ∷ true ∷ [])
    ≡ reduce_scalar parity ReduceOp.sum (true ∷ true ∷ false ∷ true ∷ true ∷ [])
reduce-eq-reduce_scalar_example =
    reduce-eq-reduce_scalar parity parity_vector parity_vector_laws true ReduceOp.sum
      (true ∷ true ∷ false ∷ true ∷ true ∷ [])

insert_canonical_sound_example :
    (vs : List Bool) × (ws : List Bool) × (eval_nodes parity env [] g3.nodes ≡ some vs)
    × (eval_nodes parity env [] (insert_canonical parity g3 product).0.nodes ≡ some (vs ++ ws))
    × (get_elem? (vs ++ ws) (insert_canonical parity g3 product).1
        ≡ eval_node parity (get_elem? vs) env product)
    × IsHashConsed (insert_canonical parity g3 product).0
insert_canonical_sound_example =
    insert_canonical_sound parity env parity_ieee g3 g3-IsHashConsed g3_small product product-Below

-- The sum is the output.
abbrev fed : Graph parity
fed = record g3 { outputs = 2 ∷ [] }

fed-IsHashConsed : IsHashConsed fed
fed-IsHashConsed =
    let h = g3-IsHashConsed in
    record {
      ordered = h.ordered;
      outputs_in_range = (g3_has, tt);
      found = h.found;
      indexed = h.indexed;
      fits = h.fits;
    }

canonicalize_once_sound_example :
    (g' : Graph parity) × (changed : Bool) × (canonicalize_once parity fed ≡ some (g', changed))
    × IsHashConsed g'
    × (length g'.nodes ≤ length fed.nodes)
    × (interpret parity g' ((true ∷ []) ∷ []) [] ≡ interpret parity fed ((true ∷ []) ∷ []) [])
canonicalize_once_sound_example =
    canonicalize_once_sound parity fed ((true ∷ []) ∷ []) [] parity_ieee fed-IsHashConsed g3_small

canonicalize_sound_example :
    (g' : Graph parity) × (changed : Bool) × (canonicalize parity fed ≡ some (g', changed))
    × IsHashConsed g'
    × (length g'.nodes ≤ length fed.nodes)
    × (interpret parity g' ((true ∷ []) ∷ []) [] ≡ interpret parity fed ((true ∷ []) ∷ []) [])
canonicalize_sound_example =
    canonicalize_sound parity fed ((true ∷ []) ∷ []) [] parity_ieee fed-IsHashConsed g3_small

fed_stays : canonicalize_once parity fed ≡ some (fed, false)
unfolding canonicalize_once new add dedup_get Node-discrete children map_children const_value
fed_stays = refl

canonicalize_once_idem_example :
    (fed.nodes ≡ fed.nodes)
    × (fed.outputs ≡ fed.outputs)
    × (canonicalize_once parity fed ≡ some (fed, false))
canonicalize_once_idem_example = canonicalize_once_idem parity fed fed fed_stays
