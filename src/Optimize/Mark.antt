-- ===== src/Optimize/Mark.antt =====
-- ssa/optimize.rs: the search of `dead_code_elimination` ends, and marks the reachable nodes.
use fastsim.Common.{
  ℕ, zero, suc, ◌+◌, ◌≤◌, ◌<◌, ◌≡◌, ◌⊎◌, inl, inr, refl, sym, ap, subst, ◌∙◌, Bool, true, false,
  ◌||◌, Bool-cases, List, [], ◌∷◌, some, some-inj, Mem, length, length-set, lt-length, get_elem?,
  get_elem?-total, get_or, get_or-set, set, replicate, leb, ◌↔◌, arith,
}
use fastsim.Graph.Node.{Node, NodeId, children}
use fastsim.Optimize.DeadCode.{push_children, mark_live, unmarked_children, reachable}

-- The nodes that the outputs need.
pub data Reachable (nodes : List Node) (outputs : List NodeId) : ℕ → Type 0 where
  root : {o : ℕ} → Mem o outputs → Reachable nodes outputs o
  operand :
      {i c : ℕ} (n : Node)
      → Reachable nodes outputs i
      → get_elem? nodes i ≡ some n
      → Mem c (children n)
      → Reachable nodes outputs c

abbrev pub IsLive : List Bool → ℕ → Type 0
IsLive live i = get_or live i false ≡ true

pub length-push_children :
    (cs stack : List NodeId) → length (push_children cs stack) ≡ length cs + length stack
unfolding push_children
length-push_children [] stack = omega arith
length-push_children (c ∷ cs) stack = omega (arith, length-push_children cs (c ∷ stack))

-- Marking a node takes its operands off the count.
pub unmarked-set :
    (live : List Bool) (nodes : List Node) (i : ℕ) (n : Node)
    → get_elem? nodes i ≡ some n
    → i < length live
    → get_or live i false ≡ false
    → length (children n) + unmarked_children (set live i true) nodes ≡ unmarked_children live nodes
unfolding unmarked_children
unmarked-set [] nodes i n e lt dead = elim lt [ ]
unmarked-set (b ∷ live) [] i n e lt dead = cc
unmarked-set (b ∷ live) (m ∷ nodes) zero n e lt dead =
    let same : m ≡ n = some-inj e in rw (dead, same) (omega arith)
unmarked-set (b ∷ live) (m ∷ nodes) (suc i) n e lt dead =
    omega (arith, unmarked-set live nodes i n e (omega arith) dead)

-- What the search leaves on its way: every mark and every id on the stack is reachable, every output
-- and every operand of a marked node is marked or on the stack.
pub record IsMarking (nodes : List Node) (outputs : List NodeId) (live : List Bool)
    (stack : List NodeId) : Type 0 where
  pub size : length live ≡ length nodes
  pub live_reachable : (i : ℕ) → IsLive live i → Reachable nodes outputs i
  pub stack_reachable : (i : ℕ) → Mem i stack → Reachable nodes outputs i
  pub roots : (o : ℕ) → Mem o outputs → o < length nodes → IsLive live o ⊎ Mem o stack
  pub closed :
      (i c : ℕ) (n : Node)
      → IsLive live i
      → get_elem? nodes i ≡ some n
      → Mem c (children n)
      → c < length nodes
      → IsLive live c ⊎ Mem c stack

Mem-push_children :
    (cs stack : List NodeId) (c : ℕ) → Mem c cs ⊎ Mem c stack → Mem c (push_children cs stack)
unfolding push_children
Mem-push_children [] stack c (inl m) = elim m [ ]
Mem-push_children [] stack c (inr m) = m
Mem-push_children (d ∷ cs) stack c (inl (inl e)) = Mem-push_children cs (d ∷ stack) c (inr (inl e))
Mem-push_children (d ∷ cs) stack c (inl (inr m)) = Mem-push_children cs (d ∷ stack) c (inl m)
Mem-push_children (d ∷ cs) stack c (inr m) = Mem-push_children cs (d ∷ stack) c (inr (inr m))

push_children_inv :
    (cs stack : List NodeId) (c : ℕ) → Mem c (push_children cs stack) → Mem c cs ⊎ Mem c stack
unfolding push_children
push_children_inv [] stack c m = inr m
push_children_inv (d ∷ cs) stack c m = elim (push_children_inv cs (d ∷ stack) c m) [
  | inl old ↦ inl (inr old)
  | inr (inl e) ↦ inl (inl e)
  | inr (inr old) ↦ inr old
]

pub live_in_range : (live : List Bool) (i : ℕ) → IsLive live i → i < length live
live_in_range [] i h = cc
live_in_range (b ∷ live) zero h = omega arith
live_in_range (b ∷ live) (suc i) h = omega (arith, live_in_range live i h)

module _ (live : List Bool) (id : ℕ) (lt : id < length live) where
  set-IsLive_self : (c : ℕ) → c ≡ id → IsLive (set live id true) c
  set-IsLive_self c e = get_or-set live id c true false lt ∙ ground (arith, e)

  set-IsLive_keeps : (c : ℕ) → IsLive live c → IsLive (set live id true) c
  set-IsLive_keeps c h = get_or-set live id c true false lt ∙ ground (arith, h)

  pub set-IsLive_inv : (c : ℕ) → IsLive (set live id true) c → (c ≡ id) ⊎ IsLive live c
  set-IsLive_inv c h = let e = sym (get_or-set live id c true false lt) ∙ h in ground (arith, e)

module _ (nodes : List Node) (outputs : List NodeId) where
  -- The id on the top of the stack is out of range or marked already.
  pub IsMarking-skip :
      (live : List Bool) (id : ℕ) (stack : List NodeId)
      → (leb (length nodes) id || get_or live id false) ≡ true
      → IsMarking nodes outputs live (id ∷ stack)
      → IsMarking nodes outputs live stack
  IsMarking-skip live id stack seen h = record {
    size = h.size;
    live_reachable = h.live_reachable;
    stack_reachable = λ i m. h.stack_reachable i (inr m);
    roots = λ o m lt. drop_top o lt (h.roots o m lt);
    closed = λ i c n l e m lt. drop_top c lt (h.closed i c n l e m lt);
  }
    where
      drop_top :
          (c : ℕ)
          → c < length nodes
          → IsLive live c ⊎ Mem c (id ∷ stack)
          → IsLive live c ⊎ Mem c stack
      drop_top c lt (inl l) = inl l
      drop_top c lt (inr (inl e)) =
          inl (ap (λ k. get_or live k false) e ∙ ground (arith, seen, lt, e))
      drop_top c lt (inr (inr m)) = inr m

  -- The node on the top of the stack is marked, and its operands are put on the stack.
  pub IsMarking-mark :
      (live : List Bool) (id : ℕ) (n : Node) (stack : List NodeId)
      → get_elem? nodes id ≡ some n
      → IsMarking nodes outputs live (id ∷ stack)
      → IsMarking nodes outputs (set live id true) (push_children (children n) stack)
  IsMarking-mark live id n stack at h =
      let top = h.stack_reachable id (inl refl) in
      record {
        size = length-set live id true ∙ h.size;
        live_reachable = λ i l. elim (set-IsLive_inv live id inside i l) [
          | inl e ↦ subst (Reachable nodes outputs) (sym e) top
          | inr old ↦ h.live_reachable i old
        ];
        stack_reachable = λ i m. elim (push_children_inv (children n) stack i m) [
          | inl fresh ↦ operand n top at fresh
          | inr old ↦ h.stack_reachable i (inr old)
        ];
        roots = λ o m lt. settle o (h.roots o m lt);
        closed = λ i c k l e m lt. elim (set-IsLive_inv live id inside i l) [
          | inr old ↦ settle c (h.closed i c k old e m lt)
          | inl same ↦ inr (
              Mem-push_children (children n) stack c (
                inl (
                  subst (λ q. Mem c (children q))
                    (some-inj (sym e ∙ ap (get_elem? nodes) same ∙ at)) m)))
        ];
      }
    where
      inside : id < length live
      inside = omega (arith, h.size, lt-length nodes id at)

      settle :
          (c : ℕ)
          → IsLive live c ⊎ Mem c (id ∷ stack)
          → IsLive (set live id true) c ⊎ Mem c (push_children (children n) stack)
      settle c (inl l) = inl (set-IsLive_keeps live id inside c l)
      settle c (inr (inl e)) = inl (set-IsLive_self live id inside c e)
      settle c (inr (inr m)) = inr (Mem-push_children (children n) stack c (inr m))

  mark_live_total :
      (fuel : ℕ) (live : List Bool) (stack : List NodeId)
      → IsMarking nodes outputs live stack
      → length stack + unmarked_children live nodes ≤ fuel
      → (live' : List Bool) × (mark_live nodes fuel live stack ≡ some live')
        × IsMarking nodes outputs live' []
  unfolding mark_live
  mark_live_total fuel live [] h enough = (live, refl, h)
  mark_live_total zero live (id ∷ stack) h enough = absurd (omega (arith, enough))
  mark_live_total (suc fuel) live (id ∷ stack) h enough =
      elim (Bool-cases (leb (length nodes) id || get_or live id false)) [
        | inl seen ↦
            let (live', runs, done) =
              mark_live_total fuel live stack (IsMarking-skip live id stack seen h)
                (omega (arith, enough)) in
            (live', rw (seen, mark_live) runs, done)
        | inr fresh ↦
            let (n, at) = get_elem?-total nodes id ground (arith, fresh) in
            let counted =
              unmarked-set live nodes id n at (omega (arith, h.size, lt-length nodes id at)) ground
                (arith, fresh) in
            let (live', runs, done) =
              mark_live_total fuel (set live id true) (push_children (children n) stack)
                (IsMarking-mark live id n stack at h)
                (omega (arith, enough, counted, length-push_children (children n) stack)) in
            (live', rw (fresh, at, mark_live) runs, done)
      ]

  pub start-IsMarking : IsMarking nodes outputs (replicate (length nodes) false) outputs
  start-IsMarking = record {
    size = length-replicate (length nodes);
    live_reachable = λ i l. absurd (none_live (length nodes) i l);
    stack_reachable = λ i m. root m;
    roots = λ o m lt. inr m;
    closed = λ i c n l e m lt. absurd (none_live (length nodes) i l);
  }
    where
      length-replicate : (n : ℕ) → length (replicate n false) ≡ n
      length-replicate zero = refl
      length-replicate (suc n) = ap suc (length-replicate n)

      none_live : (n i : ℕ) → IsLive (replicate n false) i → ⊥
      none_live zero i h = cc
      none_live (suc n) zero h = cc
      none_live (suc n) (suc i) h = none_live n i h

  pub Reachable-IsLive :
      (live : List Bool)
      → IsMarking nodes outputs live []
      → {i : ℕ} → Reachable nodes outputs i
      → i < length nodes
      → IsLive live i
  Reachable-IsLive live h (root {o} m) lt = elim (h.roots o m lt) [
    | inl l ↦ l
    | inr none_left ↦ absurd none_left
  ]
  Reachable-IsLive live h (operand {i} {c} n r e m) lt =
      elim (h.closed i c n (Reachable-IsLive live h r (lt-length nodes i e)) e m lt) [
        | inl l ↦ l
        | inr none_left ↦ absurd none_left
      ]

  -- The search ends on the fuel it is given, and it marks exactly the ids of nodes that are reachable
  -- from the outputs.
  pub reachable-Reachable :
      (live : List Bool) × (reachable nodes outputs ≡ some live)
      × (length live ≡ length nodes)
      × ((i : ℕ) → IsLive live i ↔ ((i < length nodes) × Reachable nodes outputs i))
  unfolding reachable
  reachable-Reachable =
      let (live, runs, done) =
        mark_live_total (length outputs + unmarked_children (replicate (length nodes) false) nodes)
          (replicate (length nodes) false) outputs start-IsMarking (omega arith) in
      (
        live,
        runs,
        done.size,
        λ i. (
          (λ l. (omega (arith, done.size, live_in_range live i l), done.live_reachable i l)),
          λ p. Reachable-IsLive live done p.1 p.0,
        ),
      )
