-- ===== src/Optimize/RoundSound.antt =====
-- ssa/optimize.rs: a round of `optimize` keeps the evaluation of the graph.
use fastsim.Common.{
  ℕ, zero, suc, ◌+◌, ◌≤◌, ◌<◌, ◌≡◌, refl, ap, ◌∙◌, Bool, false, ◌||◌, List, [], Option, some,
  length, get_elem?, arith,
}
use fastsim.F64.{F64}
use fastsim.F64.Laws.{IeeeLaws, IsExactAt}
use fastsim.Graph.Node.{NodeId}
use fastsim.Graph.Build.{Graph}
use fastsim.Graph.Eval.{Env, eval_nodes, interpret, env_of, read_all}
use fastsim.Graph.Meaning.Values.{eval_nodes-eq-some, eval_nodes-Solves}
use fastsim.Graph.Meaning.Interpret.{interpret-congr}
use fastsim.Graph.HashCons.{IsHashConsed}
use fastsim.Optimize.Fold.{constant_fold}
use fastsim.Optimize.Strength.{strength_reduce}
use fastsim.Optimize.Algebraic.{algebraic_simplify}
use fastsim.Optimize.Fma.{detect_fma}
use fastsim.Optimize.InPlace.{IsValued, SameFrame}
use fastsim.Optimize.FoldSound.{constant_fold_sound}
use fastsim.Optimize.StrengthSound.{strength_reduce_sound}
use fastsim.Optimize.AlgebraicSound.{algebraic_simplify_sound}
use fastsim.Optimize.FmaSound.{detect_fma_sound}
use fastsim.Optimize.Round.{
  Pass, and_then, simplify_at, for_ids, optimize_round, fma_round, optimize_after,
}

module _ (R : F64) (env : Env R) (vs : List R.F) where
  SameFrame-refl : (g : Graph R) → SameFrame R env vs g g
  SameFrame-refl g = record { outputs = refl; signature = refl; size = refl }

  SameFrame-trans :
      (g h k : Graph R) → SameFrame R env vs g h → SameFrame R env vs h k → SameFrame R env vs g k
  SameFrame-trans g h k p q = record {
    outputs = q.outputs ∙ p.outputs;
    signature = q.signature ∙ p.signature;
    size = q.size ∙ p.size;
  }

  -- A run that does not panic, keeps all values and the frame.
  abbrev pub Keeps : Graph R → Option (Graph R × Bool) → Type 0
  Keeps g run =
      (g' : Graph R) × (changed : Bool) × (run ≡ some (g', changed))
      × IsValued R env vs g'
      × SameFrame R env vs g g'

  abbrev pub PassKeeps : Pass R → Type 0
  PassKeeps pass =
      (g : Graph R) (id : NodeId) → IsValued R env vs g → id < length g.nodes → Keeps g (pass g id)

  and_then-PassKeeps :
      (first second : Pass R)
      → PassKeeps first
      → PassKeeps second
      → PassKeeps (and_then R first second)
  unfolding and_then
  and_then-PassKeeps first second h k g id valued lt =
      let (g1, c1, e1, v1, f1) = h g id valued lt in
      let (g2, c2, e2, v2, f2) = k g1 id v1 (omega (arith, f1.size)) in
      (g2, c1 || c2, rw (e1, e2), v2, SameFrame-trans g g1 g2 f1 f2)

  for_ids-Keeps :
      (pass : Pass R) (count id : ℕ) (g : Graph R) (changed : Bool)
      → PassKeeps pass
      → IsValued R env vs g
      → count + id ≤ length g.nodes
      → Keeps g (for_ids R pass count id g changed)
  unfolding for_ids
  for_ids-Keeps pass zero id g changed h valued le = (g, changed, refl, valued, SameFrame-refl g)
  for_ids-Keeps pass (suc count) id g changed h valued le =
      let (g1, c1, e1, v1, f1) = h g id valued (omega arith) in
      let (g2, c2, e2, v2, f2) =
        for_ids-Keeps pass count (suc id) g1 (changed || c1) h v1 (omega (arith, f1.size)) in
      (g2, c2, rw (e1, for_ids) e2, v2, SameFrame-trans g g1 g2 f1 f2)

  module _ (ieee : IeeeLaws R) (exact : IsExactAt R vs) where
    optimize_round-Keeps : (g : Graph R) → IsValued R env vs g → Keeps g (optimize_round R g)
    unfolding optimize_round simplify_at
    optimize_round-Keeps g valued =
        for_ids-Keeps (simplify_at R) (length g.nodes) 0 g false
          (and_then-PassKeeps (and_then R (constant_fold R) (strength_reduce R))
            (algebraic_simplify R)
            (and_then-PassKeeps (constant_fold R) (strength_reduce R)
              (constant_fold_sound R env vs ieee) (strength_reduce_sound R env vs ieee exact))
            (algebraic_simplify_sound R env vs ieee exact))
          valued (omega arith)

    fma_round-Keeps : (g : Graph R) (any : Bool) → IsValued R env vs g → Keeps g (fma_round R g any)
    unfolding fma_round
    fma_round-Keeps g any valued =
        for_ids-Keeps (detect_fma R) (length g.nodes) 0 g any (detect_fma_sound R env vs ieee exact)
          valued (omega arith)

    optimize_after-Keeps :
        (rounds : ℕ) (g : Graph R) (any : Bool)
        → IsValued R env vs g
        → Keeps g (optimize_after R rounds g any)
    unfolding optimize_after
    optimize_after-Keeps zero g any valued = fma_round-Keeps g any valued
    optimize_after-Keeps (suc rounds) g any valued =
        let (g1, c1, e1, v1, f1) = optimize_round-Keeps g valued in
        let (g2, c2, e2, v2, f2) = optimize_after-Keeps rounds g1 (any || c1) v1 in
        (g2, c2, rw (e1, optimize_after) e2, v2, SameFrame-trans g g1 g2 f1 f2)

module _ (R : F64) where
  pub IsHashConsed-IsValued :
      (g : Graph R) (env : Env R) (vs : List R.F)
      → IsHashConsed g
      → eval_nodes R env [] g.nodes ≡ some vs
      → IsValued R env vs g
  IsHashConsed-IsValued g env vs h e =
      let sol = eval_nodes-Solves R env g.nodes vs h.ordered e in
      record {
        ordered = h.ordered;
        solves = sol;
        deduped = λ n id found. sol.1 id n (h.found n id found);
      }

  run_interpret :
      (g : Graph R) (inputs : List (List R.F)) (params : List R.F) (run : Option (Graph R × Bool))
      (vs : List R.F)
      → IsHashConsed g
      → eval_nodes R (env_of R g inputs params) [] g.nodes ≡ some vs
      → (IsValued R (env_of R g inputs params) vs g → Keeps R (env_of R g inputs params) vs g run)
      → (g' : Graph R) × (changed : Bool) × (run ≡ some (g', changed))
        × (interpret R g' inputs params ≡ interpret R g inputs params)
  run_interpret g inputs params run vs h e keeps =
      let env = env_of R g inputs params in
      let (g', changed, r, valued, frame) = keeps (IsHashConsed-IsValued g env vs h e) in
      (
        g',
        changed,
        r,
        interpret-congr R g g' inputs params vs vs frame.signature e
            (eval_nodes-eq-some R env g'.nodes vs valued.ordered valued.solves)
            (ap (read_all R (get_elem? vs)) frame.outputs),
      )

  -- In IEEE arithmetic, at a well-formed graph and at inputs and parameters for which the identities
  -- that the passes use are exact at the values of the graph: `optimize` does not panic, and the
  -- graph that it leaves evaluates at these inputs and parameters as the graph that it was given,
  -- however many rounds its loop makes.
  pub interpret-optimize_after :
      (rounds : ℕ) (g : Graph R) (inputs : List (List R.F)) (params : List R.F) (vs : List R.F)
      → IeeeLaws R
      → IsHashConsed g
      → eval_nodes R (env_of R g inputs params) [] g.nodes ≡ some vs
      → IsExactAt R vs
      → (g' : Graph R) × (changed : Bool) × (optimize_after R rounds g false ≡ some (g', changed))
        × (interpret R g' inputs params ≡ interpret R g inputs params)
  interpret-optimize_after rounds g inputs params vs ieee h e exact =
      run_interpret g inputs params (optimize_after R rounds g false) vs h e
        (optimize_after-Keeps R (env_of R g inputs params) vs ieee exact rounds g false)
