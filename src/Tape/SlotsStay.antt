-- ===== src/Tape/SlotsStay.antt =====
-- ssa/tape.rs: `allocate_work_slots` as a whole: no op writes the slot of a node that is read later.
use mathlib.Core.List.{append_assoc, append-nil}
use fastsim.Common.{
  some, ℕ, zero, suc, ◌+◌, ◌≤◌, ◌<◌, ◌≡◌, ◌≢◌, refl, sym, ap, subst, ◌∙◌, List, [], ◌∷◌, ◌++◌,
  length, get_elem?, get_or, arith,
}
use fastsim.Graph.Node.{Node, NodeId}
use fastsim.Graph.Meaning.Values.{IsOrdered, Below}
use fastsim.Tape.Alloc.{Alloc, alloc_step, alloc_loop, allocate_work_slots, last_uses}
use fastsim.Tape.Slots.{get_or-append}
use fastsim.Tape.AllocSound.{
  Allocated, alloc_step-Allocated, alloc_step-extends, alloc_step_fresh, alloc_loop-Allocated,
  Allocated-start, empty_alloc,
}

module _ (last_use : List ℕ) where
  alloc_loop-extends :
      (i : ℕ) (nodes : List Node) (a : Alloc)
      → (ext : List ℕ) × ((alloc_loop last_use i nodes a).slot_of ≡ a.slot_of ++ ext)
  unfolding alloc_loop
  alloc_loop-extends i [] a = ([], sym (append-nil a.slot_of))
  alloc_loop-extends i (n ∷ nodes) a =
      let (s, e) = alloc_step-extends last_use i n a in
      let (ext, e') = alloc_loop-extends (suc i) nodes (alloc_step last_use i n a) in
      (s ∷ ext, e' ∙ ap (λ l. l ++ ext) e ∙ append_assoc a.slot_of (s ∷ []) ext)

  alloc_loop_fresh :
      (i : ℕ) (nodes : List Node) (a : Alloc)
      → ((j : ℕ) (n : Node) → get_elem? nodes j ≡ some n → Below (i + j) n)
      → Allocated last_use i a
      → (k c : ℕ) → k < length nodes
      → c < i + k
      → suc (i + k) ≤ get_or last_use c 0
      → get_or (alloc_loop last_use i nodes a).slot_of c 0
        ≢ get_or (alloc_loop last_use i nodes a).slot_of (i + k) 0
  unfolding alloc_loop
  alloc_loop_fresh i [] a below ok k c lk lt reads = absurd (omega (arith, lk))
  alloc_loop_fresh i (n ∷ nodes) a below ok zero c lk lt reads =
      let here : Below i n = subst (λ j. Below j n) (omega arith) (below 0 n refl) in
      let a' = alloc_step last_use i n a in
      let (ext, e) = alloc_loop-extends (suc i) nodes a' in
      let size = (alloc_step-Allocated last_use i n a here ok).size in
      let at = λ (j : ℕ) (h : j < suc i).
        ap (λ l. get_or l j 0) e ∙ get_or-append a'.slot_of ext j (omega (arith, h, size)) in
      let here_i : i + 0 ≡ i = omega arith in
      λ same. alloc_step_fresh last_use i c n a here ok (omega (arith, lt)) (omega (arith, reads)) (
        sym (at c (omega (arith, lt)))
        ∙ same
        ∙ ap (λ j. get_or (alloc_loop last_use (suc i) nodes a').slot_of j 0) here_i
        ∙ at i (omega arith))
  alloc_loop_fresh i (n ∷ nodes) a below ok (suc k) c lk lt reads =
      let here : Below i n = subst (λ j. Below j n) (omega arith) (below 0 n refl) in
      let there : suc i + k ≡ i + suc k = omega arith in
      let a' = alloc_step last_use i n a in
      subst
        (λ j.
          get_or (alloc_loop last_use (suc i) nodes a').slot_of c 0
          ≢ get_or (alloc_loop last_use (suc i) nodes a').slot_of j 0)
        there
        (alloc_loop_fresh (suc i) nodes a'
          (λ j m e. subst (λ q. Below q m) (omega arith) (below (suc j) m e))
          (alloc_step-Allocated last_use i n a here ok) k c (omega (arith, lk)) (omega (arith, lt))
          (omega (arith, reads)))

module _ (nodes : List Node) (outputs : List NodeId) (ordered : IsOrdered nodes) where
  pub length-allocate_work_slots : length (allocate_work_slots nodes outputs) ≡ length nodes
  unfolding allocate_work_slots
  length-allocate_work_slots =
      (alloc_loop-Allocated (last_uses nodes outputs) 0 nodes empty_alloc
        (λ j n e. subst (λ k. Below k n) (omega arith) (ordered j n e))
        (Allocated-start (last_uses nodes outputs))).size
      ∙ omega arith

  -- In an ordered graph op `i` does not write the slot of an earlier node that is used after it.
  pub slot_stays :
      (i c : ℕ)
      → i < length nodes
      → c < i
      → suc i ≤ get_or (last_uses nodes outputs) c 0
      → get_or (allocate_work_slots nodes outputs) c 0
        ≢ get_or (allocate_work_slots nodes outputs) i 0
  unfolding allocate_work_slots
  slot_stays i c li lc reads =
      let zero_i : 0 + i ≡ i = omega arith in
      subst
        (λ j.
          get_or (allocate_work_slots nodes outputs) c 0
          ≢ get_or (allocate_work_slots nodes outputs) j 0)
        zero_i
        (alloc_loop_fresh (last_uses nodes outputs) 0 nodes empty_alloc
          (λ j n e. subst (λ k. Below k n) (omega arith) (ordered j n e))
          (Allocated-start (last_uses nodes outputs)) i c li (omega (arith, lc))
          (omega (arith, reads)))
