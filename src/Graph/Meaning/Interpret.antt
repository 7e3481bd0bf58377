-- ===== src/Graph/Meaning/Interpret.antt =====
-- ssa/graph.rs: comparing the evaluations of two graphs.
use fastsim.Common.{◌≡◌, refl, ap, sym, ◌∙◌, List, [], some, get_elem?, ◌>>=◌}
use fastsim.F64.{F64}
use fastsim.Graph.Build.{Graph}
use fastsim.Graph.Eval.{Env, eval_nodes, interpret, read_all, env_of}

module _ (R : F64) where
  pub interpret_of_values :
      (g : Graph R) (inputs : List (List R.F)) (params : List R.F) (env : Env R) (vs : List R.F)
      → env_of R g inputs params ≡ env
      → eval_nodes R env [] g.nodes ≡ some vs
      → interpret R g inputs params ≡ read_all R (get_elem? vs) g.outputs
  unfolding interpret
  interpret_of_values g inputs params env vs p e =
      ap (λ m. eval_nodes R m [] g.nodes >>= λ values. read_all R (get_elem? values) g.outputs) p
      ∙ ap (λ o. o >>= λ values. read_all R (get_elem? values) g.outputs) e

  -- Two graphs of one signature have the same evaluation if their outputs read the same values.
  pub interpret-congr :
      (g g' : Graph R) (inputs : List (List R.F)) (params : List R.F) (vs vs' : List R.F)
      → g'.signature ≡ g.signature
      → eval_nodes R (env_of R g inputs params) [] g.nodes ≡ some vs
      → eval_nodes R (env_of R g inputs params) [] g'.nodes ≡ some vs'
      → read_all R (get_elem? vs') g'.outputs ≡ read_all R (get_elem? vs) g.outputs
      → interpret R g' inputs params ≡ interpret R g inputs params
  unfolding env_of
  interpret-congr g g' inputs params vs vs' p e e' same =
      interpret_of_values g' inputs params (env_of R g inputs params) vs'
        (ap (λ s. record { signature = s; inputs = inputs; params = params }) p) e'
      ∙ same
      ∙ sym (interpret_of_values g inputs params (env_of R g inputs params) vs refl e)
