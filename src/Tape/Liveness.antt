-- ===== src/Tape/Liveness.antt =====
-- ssa/tape.rs: what the array `last_use` says.
use fastsim.Common.{
  ℕ, zero, suc, ◌+◌, ◌≤◌, ◌<◌, ◌≡◌, ◌≢◌, inl, inr, refl, sym, ap, subst, ◌∙◌, List, [], ◌∷◌, some,
  some-inj, lt-length, All, All-map, length, length-set, get_or, set, get_elem?, ltb, Bool-cases,
  ltb→lt, ltb→le, if◌then◌else◌, arith,
}
use fastsim.Graph.Node.{Node, NodeId, children}
use fastsim.Tape.Alloc.{u32_max, range_from, note_uses, note_all_uses, pin_outputs, last_uses}
use fastsim.Graph.Meaning.Values.{Below, IsOrdered}

get_or-set_self : (xs : List ℕ) (i v : ℕ) → i < length xs → get_or (set xs i v) i 0 ≡ v
get_or-set_self [] i v h = elim h [ ]
get_or-set_self (x ∷ xs) zero v h = refl
get_or-set_self (x ∷ xs) (suc i) v h = get_or-set_self xs i v (omega arith)

get_or-set_ne : (xs : List ℕ) (i j v : ℕ) → i ≢ j → get_or (set xs i v) j 0 ≡ get_or xs j 0
get_or-set_ne [] i j v h = refl
get_or-set_ne (x ∷ xs) zero zero v h = absurd (h refl)
get_or-set_ne (x ∷ xs) zero (suc j) v h = refl
get_or-set_ne (x ∷ xs) (suc i) zero v h = refl
get_or-set_ne (x ∷ xs) (suc i) (suc j) v h = get_or-set_ne xs i j v (λ e. h (ap suc e))

-- Writing a value that is not smaller never lowers an entry.
set_raises : (xs : List ℕ) (i j v : ℕ) → get_or xs i 0 ≤ v → get_or xs j 0 ≤ get_or (set xs i v) j 0
set_raises [] i j v h = omega arith
set_raises (x ∷ xs) zero zero v h = h
set_raises (x ∷ xs) zero (suc j) v h = omega arith
set_raises (x ∷ xs) (suc i) zero v h = omega arith
set_raises (x ∷ xs) (suc i) (suc j) v h = set_raises xs i j v h

abbrev raise : ℕ → NodeId → List ℕ → List ℕ
raise i c last_use = if ltb (get_or last_use c 0) i then set last_use c i else last_use

length-raise : (i : ℕ) (c : NodeId) (l : List ℕ) → length (raise i c l) ≡ length l
length-raise i c l = ground (arith, length-set l c i)

raise_raises : (i : ℕ) (c : NodeId) (l : List ℕ) (j : ℕ) → get_or l j 0 ≤ get_or (raise i c l) j 0
raise_raises i c l j = elim (Bool-cases (ltb (get_or l c 0) i)) [
  | inl less ↦ rw less (set_raises l c j i (omega (arith, ltb→lt _ _ less)))
  | inr more ↦ rw more (omega arith)
]

raise_reaches : (i : ℕ) (c : NodeId) (l : List ℕ) → c < length l → i ≤ get_or (raise i c l) c 0
raise_reaches i c l lt = elim (Bool-cases (ltb (get_or l c 0) i)) [
  | inl less ↦ rw less (omega (arith, get_or-set_self l c i lt))
  | inr more ↦ rw more (ltb→le _ _ more)
]

length-note_uses : (i : ℕ) (cs : List NodeId) (l : List ℕ) → length (note_uses i cs l) ≡ length l
unfolding note_uses
length-note_uses i [] l = refl
length-note_uses i (c ∷ cs) l = length-note_uses i cs (raise i c l) ∙ length-raise i c l

note_uses_raises :
    (i : ℕ) (cs : List NodeId) (l : List ℕ) (j : ℕ) → get_or l j 0 ≤ get_or (note_uses i cs l) j 0
unfolding note_uses
note_uses_raises i [] l j = omega arith
note_uses_raises i (c ∷ cs) l j =
    omega (arith, raise_raises i c l j, note_uses_raises i cs (raise i c l) j)

-- Each operand is noted as used at least until op `i`.
note_uses_reaches :
    (i : ℕ) (cs : List NodeId) (l : List ℕ)
    → All (λ c. c < length l) cs
    → All (λ c. i ≤ get_or (note_uses i cs l) c 0) cs
unfolding note_uses
note_uses_reaches i [] l h = tt
note_uses_reaches i (c ∷ cs) l h = (
  omega (arith, raise_reaches i c l h.0, note_uses_raises i cs (raise i c l) c),
  note_uses_reaches i cs (raise i c l)
      (subst (λ n. All (λ d. d < n) cs) (sym (length-raise i c l)) h.1),
)

length-note_all_uses :
    (i : ℕ) (nodes : List Node) (l : List ℕ) → length (note_all_uses i nodes l) ≡ length l
unfolding note_all_uses
length-note_all_uses i [] l = refl
length-note_all_uses i (n ∷ nodes) l =
    length-note_all_uses (suc i) nodes (note_uses i (children n) l)
    ∙ length-note_uses i (children n) l

note_all_uses_raises :
    (i : ℕ) (nodes : List Node) (l : List ℕ) (j : ℕ)
    → get_or l j 0 ≤ get_or (note_all_uses i nodes l) j 0
unfolding note_all_uses
note_all_uses_raises i [] l j = omega arith
note_all_uses_raises i (n ∷ nodes) l j = omega (
  arith,
  note_uses_raises i (children n) l j,
  note_all_uses_raises (suc i) nodes (note_uses i (children n) l) j,
)

note_all_uses_reaches :
    (k : ℕ) (nodes : List Node) (l : List ℕ) (i : ℕ) (n : Node)
    → ((j : ℕ) (m : Node) → get_elem? nodes j ≡ some m → Below (length l) m)
    → get_elem? nodes i ≡ some n
    → All (λ c. k + i ≤ get_or (note_all_uses k nodes l) c 0) (children n)
unfolding note_all_uses
note_all_uses_reaches k [] l i n h e = cc
note_all_uses_reaches k (m ∷ nodes) l zero n h e =
    All-map
      (λ c (p : k ≤ get_or (note_uses k (children m) l) c 0).
        omega (arith, note_all_uses_raises (suc k) nodes (note_uses k (children m) l) c))
      (children n)
      (subst (λ o. All (λ c. k ≤ get_or (note_uses k (children m) l) c 0) (children o)) (some-inj e)
        (note_uses_reaches k (children m) l (h 0 m refl)))
note_all_uses_reaches k (m ∷ nodes) l (suc i) n h e =
    let l' = note_uses k (children m) l in
    All-map (λ c (p : suc k + i ≤ get_or (note_all_uses (suc k) nodes l') c 0). omega arith)
      (children n)
      (note_all_uses_reaches (suc k) nodes l' i n
        (λ j o q. subst (λ b. Below b o) (sym (length-note_uses k (children m) l)) (h (suc j) o q))
        e)

set_at_least : (xs : List ℕ) (o c v i : ℕ) → i ≤ v → i ≤ get_or xs c 0 → i ≤ get_or (set xs o v) c 0
set_at_least [] o c v i h k = k
set_at_least (x ∷ xs) zero zero v i h k = h
set_at_least (x ∷ xs) zero (suc c) v i h k = k
set_at_least (x ∷ xs) (suc o) zero v i h k = k
set_at_least (x ∷ xs) (suc o) (suc c) v i h k = set_at_least xs o c v i h k

set_stays :
    (xs : List ℕ) (o c v : ℕ) → get_or xs c 0 ≡ v → c < length xs → get_or (set xs o v) c 0 ≡ v
set_stays [] o c v h lt = h
set_stays (x ∷ xs) zero zero v h lt = refl
set_stays (x ∷ xs) zero (suc c) v h lt = h
set_stays (x ∷ xs) (suc o) zero v h lt = h
set_stays (x ∷ xs) (suc o) (suc c) v h lt = set_stays xs o c v h (omega arith)

pin_keeps :
    (outputs : List NodeId) (l : List ℕ) (c i : ℕ)
    → i ≤ u32_max
    → i ≤ get_or l c 0
    → i ≤ get_or (pin_outputs outputs l) c 0
unfolding pin_outputs
pin_keeps [] l c i h k = k
pin_keeps (o ∷ outputs) l c i h k =
    pin_keeps outputs (set l o u32_max) c i h (set_at_least l o c u32_max i h k)

pin_stays :
    (outputs : List NodeId) (l : List ℕ) (c : ℕ)
    → c < length l
    → get_or l c 0 ≡ u32_max
    → get_or (pin_outputs outputs l) c 0 ≡ u32_max
unfolding pin_outputs
pin_stays [] l c lt h = h
pin_stays (o ∷ outputs) l c lt h =
    pin_stays outputs (set l o u32_max) c (omega (arith, length-set l o u32_max))
      (set_stays l o c u32_max h lt)

pin_pins :
    (outputs : List NodeId) (l : List ℕ)
    → All (λ o. o < length l) outputs
    → All (λ o. get_or (pin_outputs outputs l) o 0 ≡ u32_max) outputs
unfolding pin_outputs
pin_pins [] l h = tt
pin_pins (o ∷ outputs) l h = (
  pin_stays outputs (set l o u32_max) o (omega (arith, length-set l o u32_max, h.0))
      (get_or-set_self l o u32_max h.0),
  pin_pins outputs (set l o u32_max)
      (subst (λ n. All (λ d. d < n) outputs) (sym (length-set l o u32_max)) h.1),
)

length-range_from : (k n : ℕ) → length (range_from k n) ≡ n
unfolding range_from
length-range_from k zero = refl
length-range_from k (suc n) = ap suc (length-range_from (suc k) n)

-- In an ordered graph whose ids are below the mark of the outputs, an operand of op `i` is in use at
-- least until op `i`.
pub last_uses_reaches :
    (nodes : List Node) (outputs : List NodeId) (i : ℕ) (n : Node)
    → IsOrdered nodes
    → length nodes ≤ u32_max
    → get_elem? nodes i ≡ some n
    → All (λ c. i ≤ get_or (last_uses nodes outputs) c 0) (children n)
unfolding last_uses
last_uses_reaches nodes outputs i n ordered fits e =
    let start = range_from 0 (length nodes) in
    All-map
      (λ c (p : 0 + i ≤ get_or (note_all_uses 0 nodes start) c 0).
        pin_keeps outputs (note_all_uses 0 nodes start) c i (omega (arith, lt-length nodes i e))
          (omega arith))
      (children n)
      (note_all_uses_reaches 0 nodes start i n
        (λ j m q.
          All-map
            (λ c (p : c < j).
              omega (arith, lt-length nodes j q, length-range_from 0 (length nodes)))
            (children m) (ordered j m q))
        e)

-- When the outputs are ids of the graph, each output is in use to the end.
pub last_uses_pinned :
    (nodes : List Node) (outputs : List NodeId)
    → All (λ o. o < length nodes) outputs
    → All (λ o. get_or (last_uses nodes outputs) o 0 ≡ u32_max) outputs
unfolding last_uses
last_uses_pinned nodes outputs h =
    let start = range_from 0 (length nodes) in
    pin_pins outputs (note_all_uses 0 nodes start) (
      All-map
        (λ o (p : o < length nodes).
          omega (arith, length-note_all_uses 0 nodes start, length-range_from 0 (length nodes)))
        outputs h)
