-- ===== src/Tape/AllocSound.antt =====
-- ssa/tape.rs: `allocate_work_slots` never gives the slot of a node that is still in use to another.
use fastsim.Common.{
  some, some-inj, ℕ, zero, suc, ◌+◌, ◌≤◌, ◌<◌, ◌≡◌, ◌≢◌, ◌⊎◌, inl, inr, refl, sym, ap, subst, ◌∙◌,
  List, [], ◌∷◌, ◌++◌, All, All-map, length, length-push, get_elem?, get_or, arith,
}
use fastsim.Graph.Node.{Node, NodeId, children}
use fastsim.Graph.Meaning.Values.{IsOrdered, Below}
use fastsim.Tape.Alloc.{
  Alloc, alloc_step, alloc_loop, allocate_work_slots, collect_dying, push_slots, take_slot,
  last_uses, u32_max,
}
use fastsim.Tape.Liveness.{last_uses_pinned}
use fastsim.Tape.Slots.{
  AreApart, AreApart-weaken, push_slots-AreApart, take_slot-AreApart, take_slot-extends,
  collect_dying-lem, DiesHere,
}

module _ (last_use : List ℕ) where
  -- A node that is computed before op `i` and is read by it or later.
  abbrev pub Live : ℕ → ℕ → Type 0
  Live i c = (c < i) × (i ≤ get_or last_use c 0)

  pub record Allocated (i : ℕ) (a : Alloc) : Type 0 where
    pub size : length a.slot_of ≡ i
    pub apart : AreApart a.slot_of (Live i) a.free a.n_slots

  not_dying :
      (i c : ℕ) (ds : List NodeId)
      → suc i ≤ get_or last_use c 0
      → All (DiesHere last_use i) ds
      → All (λ d. d ≢ c) ds
  not_dying i c ds h a =
      All-map (λ d p e. absurd (omega (arith, p.1, ap (λ k. get_or last_use k 0) e, h))) ds a

  alloc_step-AreApart :
      (i : ℕ) (n : Node) (a : Alloc)
      → Below i n
      → Allocated i a
      → AreApart
          (alloc_step last_use i n a).slot_of
          (λ c. Live (suc i) c ⊎ (c ≡ i))
          (alloc_step last_use i n a).free
          (alloc_step last_use i n a).n_slots
  unfolding alloc_step
  alloc_step-AreApart i n a below ok =
      let dying = collect_dying last_use i (children n) [] in
      let (distinct, dies) = collect_dying-lem last_use i (children n) [] below tt tt in
      let H = λ (c : ℕ). Live i c × All (λ d. d ≢ c) dying in
      let free = push_slots a.slot_of dying a.free in
      let pushed =
        push_slots-AreApart a.slot_of (Live i) dying a.free a.n_slots
          (All-map (λ c p. (p.0, omega (arith, p.1))) dying dies) distinct ok.apart in
      let taken =
        take_slot-AreApart a.slot_of H (λ c h. omega (arith, h.0.0, ok.size)) free a.n_slots
          pushed in
      AreApart-weaken (take_slot a.slot_of free a.n_slots).slot_of
        (λ c. H c ⊎ (c ≡ length a.slot_of)) (λ c. Live (suc i) c ⊎ (c ≡ i)) _ _
        (λ c h. elim h [
          | inr e ↦ inr (e ∙ sym ok.size)
          | inl live ↦ elim (split c i live.0) [
            | inl lt ↦ inl ((lt, omega (arith, live.1)), not_dying i c dying live.1 dies)
            | inr e ↦ inr (e ∙ sym ok.size)
          ]
        ])
        taken
    where
      split : (c k : ℕ) → c < suc k → (c < k) ⊎ (c ≡ k)
      split c k h = ground arith

  pub alloc_step-extends :
      (i : ℕ) (n : Node) (a : Alloc)
      → (s : ℕ) × ((alloc_step last_use i n a).slot_of ≡ a.slot_of ++ s ∷ [])
  unfolding alloc_step
  alloc_step-extends i n a = take_slot-extends a.slot_of _ a.n_slots

  pub alloc_step-Allocated :
      (i : ℕ) (n : Node) (a : Alloc)
      → Below i n
      → Allocated i a
      → Allocated (suc i) (alloc_step last_use i n a)
  alloc_step-Allocated i n a below ok = record {
    size =
        let (s, e) = alloc_step-extends i n a in
        ap length e ∙ length-push a.slot_of s ∙ ap suc ok.size;
    apart =
        AreApart-weaken _ (λ c. Live (suc i) c ⊎ (c ≡ i)) (Live (suc i)) _ _ (λ c h. inl h)
          (alloc_step-AreApart i n a below ok);
  }

  -- The slot of op `i` is not that of a node which a later op reads.
  pub alloc_step_fresh :
      (i c : ℕ) (n : Node) (a : Alloc)
      → Below i n
      → Allocated i a
      → c < i
      → suc i ≤ get_or last_use c 0
      → get_or (alloc_step last_use i n a).slot_of c 0
        ≢ get_or (alloc_step last_use i n a).slot_of i 0
  alloc_step_fresh i c n a below ok lt reads =
      (alloc_step-AreApart i n a below ok).injective c i (inl (omega (arith, lt), reads)) (inr refl)
        (λ e. absurd (omega (arith, lt, e)))

  -- From a state in which the nodes live before op `i` have different slots and none of these is free,
  -- the loop over ops that read earlier nodes only ends in such a state, whatever the last uses are.
  pub alloc_loop-Allocated :
      (i : ℕ) (nodes : List Node) (a : Alloc)
      → ((j : ℕ) (n : Node) → get_elem? nodes j ≡ some n → Below (i + j) n)
      → Allocated i a
      → Allocated (i + length nodes) (alloc_loop last_use i nodes a)
  unfolding alloc_loop
  alloc_loop-Allocated i [] a below ok = subst (λ k. Allocated k a) (omega arith) ok
  alloc_loop-Allocated i (n ∷ nodes) a below ok =
      subst (λ k. Allocated k (alloc_loop last_use i (n ∷ nodes) a)) (omega arith)
        (alloc_loop-Allocated (suc i) nodes (alloc_step last_use i n a)
          (λ j m e. subst (λ k. Below k m) (omega arith) (below (suc j) m e))
          (alloc_step-Allocated i n a (subst (λ k. Below k n) (omega arith) (below 0 n refl)) ok))

abbrev pub empty_alloc : Alloc
empty_alloc = record { slot_of = []; free = []; n_slots = 0 }

pub Allocated-start : (last_use : List ℕ) → Allocated last_use 0 empty_alloc
Allocated-start last_use = record {
  size = refl;
  apart = record {
    distinct = tt;
    bound = tt;
    held_bound = λ k h. absurd (omega (arith, h.0));
    not_free = λ k h. tt;
    injective = λ k l h h2 ne2. absurd (omega (arith, h.0));
  };
}

pub All-at :
    {A : Type 0} (P : A → Type 0) (xs : List A) (i : ℕ) {x : A}
    → All P xs
    → get_elem? xs i ≡ some x
    → P x
All-at P [] i h e = cc
All-at P (y ∷ xs) zero h e = subst P (some-inj e) h.0
All-at P (y ∷ xs) (suc i) h e = All-at P xs i h.1 e

-- In an ordered graph whose ids are below the mark of the outputs, and whose outputs are ids of it,
-- two outputs that are different nodes have different work slots.
pub outputs_apart :
    (nodes : List Node) (outputs : List NodeId) (p q : ℕ) (c d : NodeId)
    → IsOrdered nodes
    → length nodes ≤ u32_max
    → All (λ o. o < length nodes) outputs
    → get_elem? outputs p ≡ some c
    → get_elem? outputs q ≡ some d
    → c ≢ d
    → get_or (allocate_work_slots nodes outputs) c 0
      ≢ get_or (allocate_work_slots nodes outputs) d 0
unfolding allocate_work_slots
outputs_apart nodes outputs p q c d ordered fits inside ec ed ne =
    let pinned = last_uses_pinned nodes outputs inside in
    let lc = All-at (λ o. o < length nodes) outputs p inside ec in
    let ld = All-at (λ o. o < length nodes) outputs q inside ed in
    let pc = All-at (λ o. get_or (last_uses nodes outputs) o 0 ≡ u32_max) outputs p pinned ec in
    let pd = All-at (λ o. get_or (last_uses nodes outputs) o 0 ≡ u32_max) outputs q pinned ed in
    let done =
      alloc_loop-Allocated (last_uses nodes outputs) 0 nodes empty_alloc
        (λ j n e. subst (λ k. Below k n) (omega arith) (ordered j n e))
        (Allocated-start (last_uses nodes outputs)) in
    done.apart.injective c d (omega (arith, lc), omega (arith, pc, fits))
      (omega (arith, ld), omega (arith, pd, fits)) ne
