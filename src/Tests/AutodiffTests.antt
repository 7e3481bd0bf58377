-- ===== src/Tests/AutodiffTests.antt =====
-- The results on derivatives at a small graph.
use fastsim.Common.{
  ℕ, zero, suc, ◌+◌, ◌<◌, ◌^◌, ◌≡◌, ◌↔◌, refl, ap, sym, ◌∙◌, some-inj, ◌>>=◌, Bool, true, false,
  List, [], ◌∷◌, some, All, length, get_elem?, get_or, replicate, arith,
}
use mathlib.Core.Option
use fastsim.F64.{zero_f}
use fastsim.Graph.Node.{Node, children, Node-discrete}
use fastsim.Graph.Build.{new, add, dedup_get}
use fastsim.Graph.Eval.{Env, eval_nodes, input_value}
use fastsim.Graph.HashCons.{IsHashConsed}
use fastsim.Graph.Meaning.Values.{eval_nodes_total}
use fastsim.Graph.Signature.{from_named_sizes, decode, usize_max}
use fastsim.Graph.Signature.Decode.{decode_out_of_range}
use fastsim.Optimize.Mark.{Reachable}
use fastsim.Autodiff.Diff.{Diff, differentiate}
use fastsim.Autodiff.Tangent.{derivative}
use fastsim.Autodiff.RunSound.{Extends, Later}
use fastsim.Autodiff.DiffSound.{has_chain_rule}
use fastsim.Autodiff.Correct.{HasChainRules, differentiate_sound}
use fastsim.Autodiff.Jacobian.{collect_reached_inputs}
use fastsim.Autodiff.Reach.{collect_reached_inputs-Reachable}
use fastsim.Autodiff.Independent.{collect_reached_inputs_sound}
use fastsim.Tests.Parity.{parity, parity_ieee}
use fastsim.Tests.GraphTests.{g3, g3-IsHashConsed, g3_has, env, values}

All-HasChainRules :
    (nodes : List Node) → All (λ n. has_chain_rule n ≡ true) nodes → HasChainRules nodes
All-HasChainRules [] h i n e = cc
All-HasChainRules (m ∷ nodes) h zero n e = let same : m ≡ n = some-inj e in rw (sym same) h.0
All-HasChainRules (m ∷ nodes) h (suc i) n e = All-HasChainRules nodes h.1 i n e

g3-HasChainRules : HasChainRules g3.nodes
unfolding new add dedup_get Node-discrete has_chain_rule
g3-HasChainRules = All-HasChainRules g3.nodes (refl, (refl, (refl, tt)))

g3_first : get_elem? g3.nodes 0 ≡ some (Node.input 0)
unfolding new add dedup_get Node-discrete
g3_first = refl

differentiate_sound_example :
    (r : Diff parity) × (differentiate parity 3 0 g3 [] 2 ≡ some r)
    × Extends g3 r.graph
    × (length r.graph.nodes < 2 ^ 32
        → (vs' : List Bool) × IsHashConsed r.graph
          × (eval_nodes parity env [] r.graph.nodes ≡ some vs')
          × Later values.0 vs'
          × (get_elem? vs' r.id
              ≡ some (
                  derivative parity g3.nodes
                    (Node.input 0)
                    (λ i. get_or values.0 i (zero_f parity))
                    0
                    2)))
differentiate_sound_example =
    differentiate_sound parity env g3 values.0 0 (Node.input 0) 2 parity_ieee g3-IsHashConsed
      g3-HasChainRules values.1 g3_first g3_has

reads_first : collect_reached_inputs g3.nodes 2 0 2 (replicate 2 false) ≡ some (true ∷ false ∷ [])
unfolding new add dedup_get Node-discrete collect_reached_inputs children
reads_first = refl

collect_reached_inputs-Reachable_example :
    (mask : List Bool) × (collect_reached_inputs g3.nodes 2 0 2 (replicate 2 false) ≡ some mask)
    × (length mask ≡ 2)
    × ((k : ℕ)
        → k < 2
        → (get_or mask k false ≡ true) ↔ (
            (i : ℕ) × Reachable g3.nodes (2 ∷ []) i
            × (get_elem? g3.nodes i ≡ some (Node.input (0 + k)))))
collect_reached_inputs-Reachable_example =
    collect_reached_inputs-Reachable g3.nodes 2 0 2 g3-IsHashConsed.ordered g3_has

-- Two inputs of which the second differs.
abbrev low : Env parity
low = record {
  signature = from_named_sizes (("x", 2) ∷ []);
  inputs = (true ∷ false ∷ []) ∷ [];
  params = [];
}

abbrev high : Env parity
high = record low { inputs = (true ∷ true ∷ []) ∷ [] }

far :
    (flat : ℕ)
    → decode (from_named_sizes (("x", 2) ∷ [])) flat ≡ (usize_max, 0)
    → input_value parity low flat ≡ input_value parity high flat
unfolding input_value
far flat e =
    let read : List (List Bool) → ℕ × ℕ → Bool =
      λ inputs d. Option.get_or (get_elem? inputs d.0 >>= λ s. get_elem? s d.1) (zero_f parity) in
    ap (read low.inputs) e ∙ sym (ap (read high.inputs) e)

agree :
    (flat : ℕ)
    → ((k : ℕ) → k < 2 → flat ≡ 0 + k → get_or (true ∷ false ∷ []) k false ≡ true)
    → input_value parity low flat ≡ input_value parity high flat
unfolding input_value decode from_named_sizes
agree zero h = refl
agree (suc zero) h = let e = h 1 (omega arith) refl in cc
agree (suc (suc flat)) h =
    far (suc (suc flat)) (decode_out_of_range (("x", 2) ∷ []) (suc (suc flat)) (omega arith))

values_low : (vs : List Bool) × (eval_nodes parity low [] g3.nodes ≡ some vs)
values_low = (_, (eval_nodes_total parity low g3.nodes g3-IsHashConsed.ordered).1)

values_high : (vs : List Bool) × (eval_nodes parity high [] g3.nodes ≡ some vs)
values_high = (_, (eval_nodes_total parity high g3.nodes g3-IsHashConsed.ordered).1)

collect_reached_inputs_sound_example : get_elem? values_high.0 2 ≡ get_elem? values_low.0 2
collect_reached_inputs_sound_example =
    collect_reached_inputs_sound parity low high g3.nodes 2 0 2 values_low.0 values_high.0
      (true ∷ false ∷ []) g3-IsHashConsed.ordered g3_has reads_first refl agree values_low.1
      values_high.1
