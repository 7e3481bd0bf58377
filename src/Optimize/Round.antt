-- ===== src/Optimize/Round.antt =====
-- ssa/optimize.rs: the body of `optimize`: one round of the three rewriting passes over all ids, and
-- the pass of FMA detection over all ids.
use fastsim.Common.{ℕ, zero, suc, Bool, false, ◌||◌, Option, none, some, ◌>>=◌, length}
use fastsim.F64.{F64}
use fastsim.Graph.Node.{NodeId}
use fastsim.Graph.Build.{Graph}
use fastsim.Optimize.Fold.{constant_fold}
use fastsim.Optimize.Strength.{strength_reduce}
use fastsim.Optimize.Algebraic.{algebraic_simplify}
use fastsim.Optimize.Fma.{detect_fma}

module _ (R : F64) where
  abbrev pub Pass : Type 0
  Pass = Graph R → NodeId → Option (Graph R × Bool)

  -- `changed |= first(…); changed |= second(…)`
  unfoldable pub and_then : Pass → Pass → Pass
  and_then first second g id = do
    (g1, c1) ← first g id
    (g2, c2) ← second g1 id
    some (g2, c1 || c2)

  -- The three passes at one id, in the order of the source.
  unfoldable pub simplify_at : Pass
  unfolding and_then
  simplify_at = and_then (and_then (constant_fold R) (strength_reduce R)) (algebraic_simplify R)

  -- `for id in 0..n`, from `id` with `count` rounds left
  unfoldable pub for_ids : Pass → ℕ → NodeId → Graph R → Bool → Option (Graph R × Bool)
  for_ids pass zero id g changed = some (g, changed)
  for_ids pass (suc count) id g changed = elim (pass g id) [
    | none ↦ none
    | some r ↦ for_ids pass count (suc id) r.0 (changed || r.1)
  ]

  unfoldable pub optimize_round : Graph R → Option (Graph R × Bool)
  unfolding simplify_at for_ids
  optimize_round g = for_ids simplify_at (length g.nodes) 0 g false

  unfoldable pub fma_round : Graph R → Bool → Option (Graph R × Bool)
  unfolding for_ids
  fma_round g any_changed = for_ids (detect_fma R) (length g.nodes) 0 g any_changed

  -- `optimize` whose loop makes the given number of rounds before the pass of FMA detection.
  unfoldable pub optimize_after : ℕ → Graph R → Bool → Option (Graph R × Bool)
  unfolding optimize_round fma_round
  optimize_after zero g any_changed = fma_round g any_changed
  optimize_after (suc rounds) g any_changed = elim (optimize_round g) [
    | none ↦ none
    | some r ↦ optimize_after rounds r.0 (any_changed || r.1)
  ]
