-- ===== src/Optimize/Pending.antt =====
-- ssa/optimize.rs: the stack of the rebuild of a graph, and the counts that the search goes by.
use fastsim.Common.{
  ℕ, zero, suc, ◌+◌, ◌<◌, ◌≡◌, ◌⊎◌, inl, inr, refl, Bool, true, false, List, [], ◌∷◌, some,
  some-inj, Mem, All, All-map, length, get_elem?, get_or, set, replicate, ◌==◌, if◌then◌else◌,
  arith,
}
use fastsim.Graph.Node.{Node, NodeId, children}
use fastsim.Optimize.Rebuild.{Entry, u32_max, push_all, unvisited_work}

-- A node that has its new id.
abbrev pub Mapped : List NodeId → ℕ → Type 0
Mapped remap i = (get_or remap i 0 == u32_max) ≡ false

-- The ids without a new one.
abbrev pub unmapped : List NodeId → ℕ
unmapped [] = 0
unmapped (k ∷ remap) = (if k == u32_max then 1 else 0) + unmapped remap

-- The node waits on the stack for its operands.
abbrev pub Waits : ℕ → List Entry → Type 0
Waits i [] = ⊥
Waits i (e ∷ stack) = ((i ≡ e.0) × (e.1 ≡ true)) ⊎ Waits i stack

-- The nodes that wait on the stack have ids above `id`.
abbrev pub IsUnder : ℕ → List Entry → Type 0
IsUnder id stack = All (λ e. e.1 ≡ true → id < e.0) stack

-- Above a node that waits there are smaller ids only.
abbrev pub Descends : List Entry → Type 0
Descends [] = Unit
Descends (e ∷ stack) = IsUnder e.0 stack × Descends stack

-- The operands of a node that waits satisfy `P` or stand above it; the outputs satisfy `P` or stand
-- on the stack.
abbrev pub Pending : List Node → List NodeId → (ℕ → Type 0) → List Entry → Type 0
Pending nodes outputs P [] = All P outputs
Pending nodes outputs P (e ∷ stack) =
    (e.1 ≡ true → (n : Node) → get_elem? nodes e.0 ≡ some n → All P (children n))
    × Pending nodes outputs (λ c. P c ⊎ (c ≡ e.0)) stack

pub Pending-map :
    (nodes : List Node) (outputs : List NodeId) (P Q : ℕ → Type 0) (stack : List Entry)
    → ((c : ℕ) → P c → Q c)
    → Pending nodes outputs P stack
    → Pending nodes outputs Q stack
Pending-map nodes outputs P Q [] f h = All-map f outputs h
Pending-map nodes outputs P Q (e ∷ stack) f h = (
  λ b n at. All-map f (children n) (h.0 b n at),
  Pending-map nodes outputs (λ c. P c ⊎ (c ≡ e.0)) (λ c. Q c ⊎ (c ≡ e.0)) stack
      (λ c p. elim p [ inl q ↦ inl (f c q) | inr r ↦ inr r ]) h.1,
)

pub Pending-push_all :
    (nodes : List Node) (outputs : List NodeId) (P : ℕ → Type 0) (cs : List NodeId)
    (stack : List Entry)
    → Pending nodes outputs (λ c. P c ⊎ Mem c cs) stack
    → Pending nodes outputs P (push_all cs stack)
unfolding push_all
Pending-push_all nodes outputs P [] stack h =
    Pending-map nodes outputs (λ c. P c ⊎ Mem c []) P stack
      (λ c p. elim p [ inl q ↦ q | inr r ↦ elim r [ ] ]) h
Pending-push_all nodes outputs P (d ∷ cs) stack h = (
  λ b n at. cc,
  Pending-push_all nodes outputs (λ c. P c ⊎ (c ≡ d)) cs stack
      (Pending-map nodes outputs (λ c. P c ⊎ Mem c (d ∷ cs)) (λ c. (P c ⊎ (c ≡ d)) ⊎ Mem c cs) stack
        (λ c p. elim p [ inl q ↦ inl (inl q) | inr (inl e) ↦ inl (inr e) | inr (inr m) ↦ inr m ])
        h),
)

pub IsUnder-trans : (c id : ℕ) (stack : List Entry) → c < id → IsUnder id stack → IsUnder c stack
IsUnder-trans c id [] lt h = tt
IsUnder-trans c id (e ∷ stack) lt h =
    (λ b. omega (arith, lt, h.0 b), IsUnder-trans c id stack lt h.1)

pub IsUnder-push_all :
    (id : ℕ) (cs : List NodeId) (stack : List Entry)
    → IsUnder id stack
    → IsUnder id (push_all cs stack)
unfolding push_all
IsUnder-push_all id [] stack h = h
IsUnder-push_all id (c ∷ cs) stack h = (λ b. cc, IsUnder-push_all id cs stack h)

pub Descends-push_all :
    (cs : List NodeId) (stack : List Entry)
    → All (λ c. IsUnder c stack) cs
    → Descends stack
    → Descends (push_all cs stack)
unfolding push_all
Descends-push_all [] stack under h = h
Descends-push_all (c ∷ cs) stack under h =
    (IsUnder-push_all c cs stack under.0, Descends-push_all cs stack under.1 h)

pub Waits-push_all :
    (i : ℕ) (cs : List NodeId) (stack : List Entry) → Waits i stack → Waits i (push_all cs stack)
unfolding push_all
Waits-push_all i [] stack w = w
Waits-push_all i (c ∷ cs) stack w = inr (Waits-push_all i cs stack w)

-- A node above which nothing smaller waits does not wait itself.
pub Waits-IsUnder : (i : ℕ) (stack : List Entry) → Waits i stack → IsUnder i stack → ⊥
Waits-IsUnder i [] w h = w
Waits-IsUnder i (e ∷ stack) (inl w) h = omega (arith, w.0, h.0 w.1)
Waits-IsUnder i (e ∷ stack) (inr w) h = Waits-IsUnder i stack w h.1

pub length-push_all :
    (cs : List NodeId) (stack : List Entry) → length (push_all cs stack) ≡ length cs + length stack
unfolding push_all
length-push_all [] stack = omega arith
length-push_all (c ∷ cs) stack = omega (arith, length-push_all cs stack)

-- Visiting a node takes its operands and itself off the count.
pub unvisited_work-set :
    (visited : List Bool) (nodes : List Node) (i : ℕ) (n : Node)
    → get_elem? nodes i ≡ some n
    → i < length visited
    → get_or visited i false ≡ false
    → suc (length (children n)) + unvisited_work (set visited i true) nodes
      ≡ unvisited_work visited nodes
unfolding unvisited_work
unvisited_work-set [] nodes i n e lt fresh = elim lt [ ]
unvisited_work-set (b ∷ visited) [] i n e lt fresh = cc
unvisited_work-set (b ∷ visited) (m ∷ nodes) zero n e lt fresh =
    let same : m ≡ n = some-inj e in rw (fresh, same) (omega arith)
unvisited_work-set (b ∷ visited) (m ∷ nodes) (suc i) n e lt fresh =
    omega (arith, unvisited_work-set visited nodes i n e (omega arith) fresh)

-- A new id takes one off the count of those that are missing.
pub unmapped-set :
    (remap : List NodeId) (i k : ℕ)
    → i < length remap
    → (get_or remap i 0 == u32_max) ≡ true
    → k < u32_max
    → suc (unmapped (set remap i k)) ≡ unmapped remap
unmapped-set [] i k lt missing small = elim lt [ ]
unmapped-set (j ∷ remap) zero k lt missing small = ground (arith, missing, small)
unmapped-set (j ∷ remap) (suc i) k lt missing small =
    omega (arith, unmapped-set remap i k (omega arith) missing small)

pub unmapped-replicate : (n : ℕ) → unmapped (replicate n u32_max) ≡ n
unmapped-replicate zero = refl
unmapped-replicate (suc n) = omega (arith, unmapped-replicate n)
