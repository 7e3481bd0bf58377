-- ===== src/Autodiff/Reach.antt =====
-- ssa/autodiff.rs: the searches for the inputs that a node reaches.
use fastsim.Common.{
  ℕ, zero, suc, ◌+◌, ◌-◌, ◌≤◌, ◌<◌, ◌≡◌, ◌↔◌, ◌⊎◌, inl, inr, refl, sym, ap, subst, ◌∙◌, Bool, true,
  false, ◌&&◌, Bool-cases, List, [], ◌∷◌, some, some-inj, Mem, length, length-set, lt-length,
  get_elem?, get_elem?-total, get_or, get_or-set, set, replicate, ltb, leb, if◌then◌else◌,
  ℕ_discrete, length-replicate, get_or-replicate_same, arith,
}
use fastsim.Graph.Node.{Node, NodeId, children}
use fastsim.Graph.Meaning.Values.{IsOrdered}
use fastsim.Optimize.DeadCode.{push_children, unmarked_children}
use fastsim.Optimize.Mark.{
  Reachable, root, operand, IsLive, IsMarking, IsMarking-skip, IsMarking-mark, start-IsMarking,
  Reachable-IsLive, length-push_children, unmarked-set, set-IsLive_inv,
}
use fastsim.Optimize.DeadCodeSound.{All-Mem}
use fastsim.Autodiff.Jacobian.{mark_input, collect_from, collect_reached_inputs}

module _ (nodes : List Node) (roots : List NodeId) (ordered : IsOrdered nodes)
    (inside : (o : ℕ) → Mem o roots → o < length nodes) where
  -- What the roots reach are nodes.
  pub Reachable-lt : {i : ℕ} → Reachable nodes roots i → i < length nodes
  Reachable-lt (root {o} m) = inside o m
  Reachable-lt (operand {i} {c} n r e m) =
      omega (arith, lt-length nodes i e, All-Mem (λ k. k < i) (children n) c (ordered i n e) m)

  -- A run of `collect_from` from a state of the search with the nodes `seen` marked: whatever holds of
  -- the mask and is kept as nodes are marked holds at the end.
  module _ (start size : ℕ) (P : List Bool → List Bool → Type 0)
      (keeps : (seen mask : List Bool) (id : ℕ) (n : Node)
        → length seen ≡ length nodes
        → get_elem? nodes id ≡ some n
        → Reachable nodes roots id
        → P seen mask
        → (marked : List Bool) × (mark_input start size n mask ≡ some marked)
          × P (set seen id true) marked) where
    collect_from_total :
        (fuel : ℕ) (seen mask : List Bool) (stack : List NodeId)
        → IsMarking nodes roots seen stack
        → P seen mask
        → length stack + unmarked_children seen nodes ≤ fuel
        → (mask' : List Bool) × (seen' : List Bool) × (collect_from nodes fuel start size seen mask
              stack
            ≡ some mask')
          × IsMarking nodes roots seen' []
          × P seen' mask'
    unfolding collect_from
    collect_from_total fuel seen mask [] h p enough = (mask, seen, refl, h, p)
    collect_from_total zero seen mask (id ∷ stack) h p enough = absurd (omega (arith, enough))
    collect_from_total (suc fuel) seen mask (id ∷ stack) h p enough =
        let top = h.stack_reachable id (inl refl) in
        let lt = Reachable-lt top in
        let (n, at) = get_elem?-total nodes id lt in
        elim (Bool-cases (get_or seen id false)) [
          | inl live ↦
              let (mask', seen', runs, done, q) =
                collect_from_total fuel seen mask stack
                  (IsMarking-skip nodes roots seen id stack (ground (arith, live, lt)) h) p
                  (omega (arith, enough)) in
              (mask', seen', rw (at, live, collect_from) runs, done, q)
          | inr fresh ↦
              let counted = unmarked-set seen nodes id n at (omega (arith, h.size, lt)) fresh in
              let (marked, marks, p') = keeps seen mask id n h.size at top p in
              let (mask', seen', runs, done, q) =
                collect_from_total fuel (set seen id true) marked (push_children (children n) stack)
                  (IsMarking-mark nodes roots seen id n stack at h) p'
                  (omega (arith, enough, counted, length-push_children (children n) stack)) in
              (mask', seen', rw (at, fresh, marks, collect_from) runs, done, q)
        ]

-- The mask has the inputs of the marked nodes, and inputs that are reached only.
record IsMasking (nodes : List Node) (roots : List NodeId) (start size : ℕ) (seen mask : List Bool)
    : Type 0 where
  mask_size : length mask ≡ size
  sound :
      (k : ℕ)
      → get_or mask k false ≡ true
      → (i : ℕ) × Reachable nodes roots i × (get_elem? nodes i ≡ some (Node.input (start + k)))
  complete :
      (k i : ℕ)
      → k < size
      → IsLive seen i
      → get_elem? nodes i ≡ some (Node.input (start + k))
      → get_or mask k false ≡ true

-- The mask with the input of a node of the range.
unfoldable masked : ℕ → ℕ → Node → List Bool → List Bool
masked start size (Node.input i) mask =
    if leb start i && ltb i (start + size) then set mask (i - start) true else mask
masked start size n mask = mask

module _ (start size : ℕ) where
  -- A mask of the size of the range has a place for every input that is marked.
  mark_input-masked :
      (n : Node) (mask : List Bool)
      → length mask ≡ size
      → mark_input start size n mask ≡ some (masked start size n mask)
  unfolding mark_input masked
  mark_input-masked (Node.input j) mask same =
      elim (Bool-cases (leb start j && ltb j (start + size))) [
        | inl within ↦
            let inside : ltb (j - start) (length mask) ≡ true = ground (arith, within, same) in
            rw (within, inside) refl
        | inr outside ↦ rw outside refl
      ]
  mark_input-masked (Node.const b) mask same = refl
  mark_input-masked _ mask same = refl

  length-masked : (n : Node) (mask : List Bool) → length (masked start size n mask) ≡ length mask
  unfolding masked
  length-masked (Node.input j) mask = elim (Bool-cases (leb start j && ltb j (start + size))) [
    | inl within ↦ rw within (length-set mask (j - start) true)
    | inr outside ↦ rw outside refl
  ]
  length-masked (Node.const b) mask = refl
  length-masked _ mask = refl

  masked-marks :
      (k : ℕ) (mask : List Bool)
      → length mask ≡ size
      → k < size
      → get_or (masked start size (Node.input (start + k)) mask) k false ≡ true
  unfolding masked
  masked-marks k mask same lt =
      let within : (leb start (start + k) && ltb (start + k) (start + size)) ≡ true =
        ground (arith, lt) in
      let at : (start + k) - start ≡ k = omega arith in
      rw (within, at) (get_or-set mask k k true false (omega (arith, same, lt)) ∙ ground arith)

  masked-keeps :
      (n : Node) (mask : List Bool) (k : ℕ)
      → length mask ≡ size
      → get_or mask k false ≡ true
      → get_or (masked start size n mask) k false ≡ true
  unfolding masked
  masked-keeps (Node.input j) mask k same e =
      elim (Bool-cases (leb start j && ltb j (start + size))) [
        | inl within ↦ rw within (
            get_or-set mask (j - start) k true false (ground (arith, within, same))
            ∙ ground (arith, e))
        | inr outside ↦ rw outside e
      ]
  masked-keeps (Node.const b) mask k same e = e
  masked-keeps _ mask k same e = e

  masked_inv :
      (n : Node) (mask : List Bool) (k : ℕ)
      → length mask ≡ size
      → get_or (masked start size n mask) k false ≡ true
      → (n ≡ Node.input (start + k)) ⊎ (get_or mask k false ≡ true)
  unfolding masked
  masked_inv (Node.input j) mask k same e =
      elim (Bool-cases (leb start j && ltb j (start + size))) [
        | inl within ↦
            let lt : j - start < length mask = ground (arith, within, same) in
            let le : start ≤ j = ground (arith, within) in
            let e' : get_or (set mask (j - start) true) k false ≡ true =
              sym (ap (λ b. get_or (if b then set mask (j - start) true else mask) k false) within)
              ∙ e in
            let split = sym (get_or-set mask (j - start) k true false lt) ∙ e' in
            elim (ℕ_discrete (j - start) k) [
              | yes here ↦ inl (ap Node.input (omega (arith, here, le)))
              | no other ↦ inr (ground (arith, split, other))
            ]
        | inr outside ↦ inr (
            sym (ap (λ b. get_or (if b then set mask (j - start) true else mask) k false) outside)
            ∙ e)
      ]
  masked_inv (Node.const b) mask k same e = inr e
  masked_inv _ mask k same e = inr e

module _ (nodes : List Node) (roots : List NodeId) (start size : ℕ) where
  masked-IsMasking :
      (seen mask : List Bool) (id : ℕ) (n : Node)
      → length seen ≡ length nodes
      → get_elem? nodes id ≡ some n
      → Reachable nodes roots id
      → IsMasking nodes roots start size seen mask
      → IsMasking nodes roots start size (set seen id true) (masked start size n mask)
  masked-IsMasking seen mask id n same at r h = record {
    mask_size = length-masked start size n mask ∙ h.mask_size;
    sound = λ k e. elim (masked_inv start size n mask k h.mask_size e) [
      | inl here ↦ (id, r, at ∙ ap some here)
      | inr old ↦ h.sound k old
    ];
    complete = λ k i lt live e.
        elim (set-IsLive_inv seen id (omega (arith, same, lt-length nodes id at)) i live) [
          | inl here ↦
              let kind : n ≡ Node.input (start + k) =
                some-inj (sym at ∙ ap (get_elem? nodes) (sym here) ∙ e) in
              subst (λ m. get_or (masked start size m mask) k false ≡ true) (sym kind)
                (masked-marks start size k mask h.mask_size lt)
          | inr old ↦ masked-keeps start size n mask k h.mask_size (h.complete k i lt old e)
        ];
  }

  mark_input-IsMasking :
      (seen mask : List Bool) (id : ℕ) (n : Node)
      → length seen ≡ length nodes
      → get_elem? nodes id ≡ some n
      → Reachable nodes roots id
      → IsMasking nodes roots start size seen mask
      → (marked : List Bool) × (mark_input start size n mask ≡ some marked)
        × IsMasking nodes roots start size (set seen id true) marked
  mark_input-IsMasking seen mask id n same at r h = (
    masked start size n mask,
    mark_input-masked start size n mask h.mask_size,
    masked-IsMasking seen mask id n same at r h,
  )

-- In a graph whose operands stand before their users, the search from a node does not panic, ends on its
-- fuel, and marks exactly the inputs of the range that the node reaches.
pub collect_reached_inputs-Reachable :
    (nodes : List Node) (out : NodeId) (start size : ℕ)
    → IsOrdered nodes
    → out < length nodes
    → (mask : List Bool) × (collect_reached_inputs nodes out start size (replicate size false)
        ≡ some mask)
      × (length mask ≡ size)
      × ((k : ℕ)
          → k < size
          → (get_or mask k false ≡ true) ↔ (
              (i : ℕ) × Reachable nodes (out ∷ []) i
              × (get_elem? nodes i ≡ some (Node.input (start + k)))))
unfolding collect_reached_inputs collect_from
collect_reached_inputs-Reachable nodes out start size ordered lt =
    let inside : (o : ℕ) → Mem o (out ∷ []) → o < length nodes =
      λ o m. elim m [ inl e ↦ omega (arith, e, lt) | inr none_left ↦ absurd none_left ] in
    let (mask, seen, runs, done, p) =
      collect_from_total nodes (out ∷ []) ordered inside start size
        (IsMasking nodes (out ∷ []) start size) (mark_input-IsMasking nodes (out ∷ []) start size)
        (suc (unmarked_children (replicate (length nodes) false) nodes))
        (replicate (length nodes) false) (replicate size false) (out ∷ [])
        (start-IsMarking nodes (out ∷ []))
        (record {
          mask_size = length-replicate size false;
          sound = λ k e. absurd (true_ne_false (sym e ∙ get_or-replicate_same size k false));
          complete = λ k i below live e.
              absurd (true_ne_false (sym live ∙ get_or-replicate_same (length nodes) i false));
        })
        (omega arith) in
    (
      mask,
      runs,
      p.mask_size,
      λ k below. (
        p.sound k,
        λ reached.
            p.complete k reached.0 below
              (Reachable-IsLive nodes (out ∷ []) seen done reached.1
                (Reachable-lt nodes (out ∷ []) ordered inside reached.1))
              reached.2,
      ),
    )
  where
    true_ne_false : true ≡ false → ⊥
    true_ne_false e = cc
