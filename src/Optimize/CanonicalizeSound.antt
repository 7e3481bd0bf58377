-- ===== src/Optimize/CanonicalizeSound.antt =====
-- ssa/optimize.rs: `canonicalize_once` and `canonicalize` keep what the graph evaluates to.
use fastsim.Common.{
  get_or-replicate, get_or-replicate_same, length-replicate, ℕ, zero, suc, ◌+◌, ◌≤◌, ◌<◌, ◌^◌, ◌≡◌,
  ◌⊎◌, inl, inr, refl, ap, ◌∙◌, Bool, true, false, not, ◌||◌, Bool-cases, List, [], some, map, Mem,
  All-map, length, get_elem?, get_or, replicate, ◌==◌, arith,
}
use fastsim.F64.{F64}
use fastsim.F64.Laws.{IeeeLaws}
use fastsim.Graph.Node.{NodeId}
use fastsim.Graph.Build.{Graph}
use fastsim.Graph.Eval.{Env, env_of, interpret, eval_nodes}
use fastsim.Graph.Meaning.Operands.{read_all-map}
use fastsim.Graph.Meaning.Interpret.{interpret-congr}
use fastsim.Graph.Meaning.Values.{eval_nodes_total}
use fastsim.Graph.HashCons.{IsHashConsed, new-IsHashConsed}
use fastsim.Optimize.Mark.{IsLive}
use fastsim.Optimize.Rank.{remap_ids_total}
use fastsim.Optimize.DeadCodeSound.{All-of-map, Mem-All}
use fastsim.Optimize.Rebuild.{
  u32_max, push_all, unvisited_work, rebuild_all, emptied, canonicalize_once, canonicalize_passes,
  canonicalize, same_nodes, same_ids,
}
use fastsim.Optimize.Pending.{
  Mapped, unmapped-replicate, Pending-push_all, Descends-push_all, length-push_all,
}
use fastsim.Optimize.Rebuilding.{IsRebuilding, All-push_all, new_id_in_range}
use fastsim.Optimize.RebuildSound.{All-both, rebuild_total}

module _ (R : F64) where
  emptied-IsHashConsed : (g : Graph R) → IsHashConsed (emptied R g)
  unfolding emptied
  emptied-IsHashConsed g =
      let h = new-IsHashConsed R g.signature in
      record {
        ordered = h.ordered;
        outputs_in_range = h.outputs_in_range;
        found = h.found;
        indexed = h.indexed;
        fits = h.fits;
      }

  start-IsRebuilding :
      (env : Env R) (g : Graph R) (vs : List R.F)
      → IsHashConsed g
      → IsRebuilding R env g.nodes g.outputs vs
          (emptied R g)
          []
          (replicate (length g.nodes) u32_max)
          (replicate (length g.nodes) false)
          (push_all g.outputs [])
  unfolding emptied eval_nodes
  start-IsRebuilding env g vs h =
      let n = length g.nodes in
      record {
        well_formed = emptied-IsHashConsed g;
        runs = refl;
        remap_size = length-replicate n u32_max;
        visited_size = length-replicate n false;
        room = omega (arith, unmapped-replicate n);
        values = λ i lt m. absurd (unset i lt m);
        waiting = λ i l. absurd (unseen i l);
        pending = Pending-push_all g.nodes g.outputs (Mapped (replicate n u32_max)) g.outputs [] (
            Mem-All (λ c. Mapped (replicate n u32_max) c ⊎ Mem c g.outputs) g.outputs
              (λ c m. inr m));
        descends = Descends-push_all g.outputs [] (Mem-All (λ c. Unit) g.outputs (λ c m. tt)) tt;
        inside = All-push_all n g.outputs [] h.outputs_in_range tt;
      }
    where
      unset : (i : ℕ) → i < length g.nodes → Mapped (replicate (length g.nodes) u32_max) i → ⊥
      unset i lt m =
          let e = ap (λ j. j == u32_max) (get_or-replicate (length g.nodes) i u32_max 0 lt) in cc

      unseen : (i : ℕ) → IsLive (replicate (length g.nodes) false) i → ⊥
      unseen i l = let e = get_or-replicate_same (length g.nodes) i false in cc

  -- A pass of `canonicalize_once` over a well-formed graph of less than 2^32 nodes, where a folded
  -- `Digamma` whose own loop does not return counts as NaN: the pass does not panic, and its stack
  -- is empty before its fuel is used up. Its result is well-formed, has no more nodes, and in IEEE
  -- arithmetic it evaluates as the graph.
  pub canonicalize_once_sound :
      (g : Graph R) (inputs : List (List R.F)) (params : List R.F)
      → IeeeLaws R
      → IsHashConsed g
      → length g.nodes < 2 ^ 32
      → (g' : Graph R) × (changed : Bool) × (canonicalize_once R g ≡ some (g', changed))
        × IsHashConsed g'
        × (length g'.nodes ≤ length g.nodes)
        × (interpret R g' inputs params ≡ interpret R g inputs params)
  unfolding canonicalize_once rebuild_all
  canonicalize_once_sound g inputs params ieee h bound = elim (Bool-cases (length g.nodes == 0)) [
    | inl none_there ↦ (g, false, rw none_there refl, h, omega arith, refl)
    | inr some_there ↦
        let env = env_of R g inputs params in
        let (vs, runs, sol) = eval_nodes_total R env g.nodes h.ordered in
        let (r, us, visited, found, done) =
          rebuild_total R ieee env g.nodes g.outputs vs h.ordered sol bound
            (length g.outputs + unvisited_work (replicate (length g.nodes) false) g.nodes)
            (push_all g.outputs []) (start-IsRebuilding env g vs h)
            (omega (arith, length-push_all g.outputs [])) in
        let ready =
          All-both (λ o. o < length g.nodes) (Mapped r.1) g.outputs h.outputs_in_range
            done.pending in
        let f = λ (c : NodeId). get_or r.1 c 0 in
        let mapped =
          remap_ids_total r.1 g.outputs
            (All-map (λ o p. omega (arith, p.0, done.remap_size)) g.outputs ready) in
        (
          record g { nodes = r.0.nodes; dedup = r.0.dedup; outputs = map f g.outputs },
          not (same_nodes r.0.nodes g.nodes) || not (same_ids (map f g.outputs) g.outputs),
          rw (some_there, found, mapped) refl,
          record {
            ordered = done.well_formed.ordered;
            outputs_in_range =
                All-of-map (λ o. o < length r.0.nodes) f g.outputs
                  (All-map (λ o p. new_id_in_range R env g.nodes g.outputs vs sol.0 o done p.0 p.1)
                    g.outputs ready);
            found = done.well_formed.found;
            indexed = done.well_formed.indexed;
            fits = done.well_formed.fits;
          },
          omega (arith, done.room),
          interpret-congr R g
              (record g { nodes = r.0.nodes; dedup = r.0.dedup; outputs = map f g.outputs }) inputs
              params vs us refl runs done.runs
              (read_all-map R env f (get_elem? vs) (get_elem? us) g.outputs
                (All-map (λ o p. done.values o p.0 p.1) g.outputs ready)),
        )
  ]

  -- At most any number of passes over a well-formed graph of less than 2^32 nodes, until one changes
  -- nothing: the loop does not panic, its result is well-formed and has no more nodes, and in IEEE
  -- arithmetic it evaluates as the graph.
  pub canonicalize_passes_sound :
      (passes : ℕ) (g : Graph R) (any : Bool) (inputs : List (List R.F)) (params : List R.F)
      → IeeeLaws R
      → IsHashConsed g
      → length g.nodes < 2 ^ 32
      → (g' : Graph R) × (changed : Bool) × (canonicalize_passes R passes g any
          ≡ some (g', changed))
        × IsHashConsed g'
        × (length g'.nodes ≤ length g.nodes)
        × (interpret R g' inputs params ≡ interpret R g inputs params)
  unfolding canonicalize_passes
  canonicalize_passes_sound zero g any inputs params ieee h bound =
      (g, any, refl, h, omega arith, refl)
  canonicalize_passes_sound (suc passes) g any inputs params ieee h bound =
      let (g', changed, runs, good, shrinks, same) =
        canonicalize_once_sound g inputs params ieee h bound in
      elim (Bool-cases changed) [
        | inr done ↦ (g', any, rw (runs, done, canonicalize_passes) refl, good, shrinks, same)
        | inl more ↦
            let (g'', changed', runs', good', shrinks', same') =
              canonicalize_passes_sound passes g' true inputs params ieee good
                (omega (arith, shrinks, bound)) in
            (
              g'',
              changed',
              rw (runs, more, canonicalize_passes) runs',
              good',
              omega (arith, shrinks, shrinks'),
              same' ∙ same,
            )
      ]

  -- `canonicalize` on a well-formed graph of less than 2^32 nodes does not panic; the new graph is
  -- well-formed, has no more nodes, and in IEEE arithmetic it evaluates as the old one.
  pub canonicalize_sound :
      (g : Graph R) (inputs : List (List R.F)) (params : List R.F)
      → IeeeLaws R
      → IsHashConsed g
      → length g.nodes < 2 ^ 32
      → (g' : Graph R) × (changed : Bool) × (canonicalize R g ≡ some (g', changed))
        × IsHashConsed g'
        × (length g'.nodes ≤ length g.nodes)
        × (interpret R g' inputs params ≡ interpret R g inputs params)
  unfolding canonicalize
  canonicalize_sound g inputs params ieee h bound =
      canonicalize_passes_sound 8 g false inputs params ieee h bound
