-- ===== src/Tests/ExactTests.antt =====
-- The theorems about the rewriting passes at a graph with a product and a sum, in an arithmetic in which
-- the identities that the passes use fail at other values than those of the graph.
use Prim.Native.String.{String}
use fastsim.Common.{
  ℕ, zero, suc, ◌<◌, ◌≡◌, ◌≢◌, refl, ◌||◌, Bool, true, false, List, [], ◌∷◌, some, length,
  if◌then◌else◌, arith,
}
use fastsim.F64.{F64}
use fastsim.F64.Laws.{IeeeLaws, IsValue, IsExactAt}
use fastsim.Op.Kinds.{BinOp}
use fastsim.Op.Apply.{apply_binary}
use fastsim.Graph.Node.{Node, Node-discrete, children}
use fastsim.Graph.Signature.{from_named_sizes, decode}
use fastsim.Graph.Build.{Graph, new, add, dedup_get}
use fastsim.Graph.Eval.{Env, env_of, eval_node, eval_nodes, input_value, interpret}
use fastsim.Graph.HashCons.{IsHashConsed, new-IsHashConsed, add-IsHashConsed}
use fastsim.Optimize.InPlace.{IsValued, SameFrame}
use fastsim.Optimize.Round.{optimize_after}
use fastsim.Optimize.RoundSound.{interpret-optimize_after, IsHashConsed-IsValued}
use fastsim.Optimize.Fma.{detect_fma}
use fastsim.Optimize.FmaSound.{detect_fma_sound}
use fastsim.Optimize.Strength.{strength_reduce}
use fastsim.Optimize.StrengthSound.{strength_reduce_sound}
use fastsim.Optimize.Algebraic.{algebraic_simplify}
use fastsim.Optimize.AlgebraicSound.{algebraic_simplify_sound}
use fastsim.Tests.Parity.{parity, parity_ieee}

-- The fused operation loses an addend to a zero product, and the exponential has one value.
abbrev rounding : F64
rounding = record parity {
  mul_add = λ x y z. if x || y then parity.mul_add x y z else false;
  exp = λ x. true;
}

-- The fused operation and the logarithm of the exponential are not what real arithmetic has.
not_split : rounding.mul_add false false true ≢ rounding.add (rounding.mul false false) true
not_split e = cc

not_inverse : rounding.ln (rounding.exp false) ≢ false
not_inverse e = cc

mul_add_one_lem : (x z : Bool) → rounding.mul_add x true z ≡ rounding.add x z
mul_add_one_lem true z = refl
mul_add_one_lem false z = refl

rounding_ieee : IeeeLaws rounding
rounding_ieee = record {
  from_bits-to_bits = parity_ieee.from_bits-to_bits;
  add_comm = parity_ieee.add_comm;
  mul_comm = parity_ieee.mul_comm;
  hypot_comm = parity_ieee.hypot_comm;
  distance_comm = parity_ieee.distance_comm;
  one_mul = parity_ieee.one_mul;
  one_mul_add = λ y z. refl;
  mul_add_one = λ x z. mul_add_one_lem x z;
  neg_neg = parity_ieee.neg_neg;
  abs_abs = parity_ieee.abs_abs;
  abs_neg = parity_ieee.abs_neg;
  sub_zero = parity_ieee.sub_zero;
  div_one = parity_ieee.div_one;
  powf_one = parity_ieee.powf_one;
  powf_zero = parity_ieee.powf_zero;
}

abbrev entries : List (String × ℕ)
entries = ("x", 1) ∷ []

-- 0: x;  1: x * x;  2: x * x + x
abbrev g0 : Graph rounding
g0 = new rounding (from_named_sizes entries)

abbrev g1 : Graph rounding
g1 = (add rounding g0 (Node.input 0)).0

abbrev g2 : Graph rounding
g2 = (add rounding g1 (Node.binary BinOp.mul 0 0)).0

abbrev g3 : Graph rounding
g3 = (add rounding g2 (Node.binary BinOp.add 1 0)).0

g3-IsHashConsed : IsHashConsed g3
unfolding new add dedup_get Node-discrete children
g3-IsHashConsed =
    add-IsHashConsed rounding g2 (Node.binary BinOp.add 1 0)
      (add-IsHashConsed rounding g1 (Node.binary BinOp.mul 0 0)
        (add-IsHashConsed rounding g0 (Node.input 0)
          (new-IsHashConsed rounding (from_named_sizes entries)) (omega arith) (omega arith))
        (omega arith) (omega arith))
      (omega arith) (omega arith)

abbrev inputs : List (List Bool)
inputs = (false ∷ []) ∷ []

abbrev values : List Bool
values = false ∷ false ∷ false ∷ []

runs : eval_nodes rounding (env_of rounding g3 inputs []) [] g3.nodes ≡ some values
unfolding new add dedup_get Node-discrete eval_nodes eval_node env_of input_value decode
    from_named_sizes apply_binary
runs = refl

g3_has : 2 < length g3.nodes
unfolding new add dedup_get Node-discrete
g3_has = omega arith

only_false : (x : Bool) → IsValue values x → x ≡ false
only_false x (zero, e) = cc
only_false x (suc zero, e) = cc
only_false x (suc (suc zero), e) = cc
only_false x (suc (suc (suc i)), e) = cc

not_true : IsValue values true → ⊥
not_true h = let e = only_false true h in cc

-- The identities at the only value there is.
values-IsExactAt : IsExactAt rounding values
values-IsExactAt = record {
  powf_two = λ x h k. rw (only_false x h) refl;
  powf_three = λ x h k. rw (only_false x h) refl;
  powf_half = λ x h k. refl;
  powf_neg_one = λ x h k. refl;
  add_zero = λ x h k. rw (only_false x h) refl;
  sub_self = λ x h k. rw (only_false x h) refl;
  mul_zero = λ x h k. rw (only_false x h) refl;
  abs_sqrt = λ x h k l. refl;
  sqrt_mul_sqrt = λ x h k l. rw (only_false x h) refl;
  ln_exp = λ x h k l. absurd (not_true k);
  mul_add_split = λ x y z h k l m n. rw (only_false x h, only_false y k, only_false z l) refl;
}

abbrev env : Env rounding
env = record { signature = from_named_sizes entries; inputs = inputs; params = [] }

g3-IsValued : IsValued rounding env values g3
unfolding new add dedup_get Node-discrete env_of
g3-IsValued = IsHashConsed-IsValued rounding g3 env values g3-IsHashConsed runs

detect_fma_sound_example :
    (g' : Graph rounding) × (changed : Bool) × (detect_fma rounding g3 2 ≡ some (g', changed))
    × IsValued rounding env values g'
    × SameFrame rounding env values g3 g'
detect_fma_sound_example =
    detect_fma_sound rounding env values rounding_ieee values-IsExactAt g3 2 g3-IsValued g3_has

strength_reduce_sound_example :
    (g' : Graph rounding) × (changed : Bool) × (strength_reduce rounding g3 2 ≡ some (g', changed))
    × IsValued rounding env values g'
    × SameFrame rounding env values g3 g'
strength_reduce_sound_example =
    strength_reduce_sound rounding env values rounding_ieee values-IsExactAt g3 2 g3-IsValued g3_has

algebraic_simplify_sound_example :
    (g' : Graph rounding) × (changed : Bool) × (algebraic_simplify rounding g3 2
      ≡ some (g', changed))
    × IsValued rounding env values g'
    × SameFrame rounding env values g3 g'
algebraic_simplify_sound_example =
    algebraic_simplify_sound rounding env values rounding_ieee values-IsExactAt g3 2 g3-IsValued
      g3_has

interpret-optimize_after_example :
    (g' : Graph rounding) × (changed : Bool) × (optimize_after rounding 2 g3 false
      ≡ some (g', changed))
    × (interpret rounding g' inputs [] ≡ interpret rounding g3 inputs [])
interpret-optimize_after_example =
    interpret-optimize_after rounding 2 g3 inputs [] values rounding_ieee g3-IsHashConsed runs
      values-IsExactAt
