-- ===== src/Optimize/Rank.antt =====
-- ssa/optimize.rs: the new ids of `dead_code_elimination` number the kept nodes in their order.
use mathlib.Core.List.{map, map-append}
use fastsim.Common.{
  ℕ, zero, suc, ◌+◌, ◌<◌, ◌≡◌, refl, sym, ap, ◌∙◌, Bool, true, false, List, [], ◌∷◌, some, some-inj,
  All, length, get_elem?, get_or, lt→ltb, if◌then◌else◌, arith,
}
use fastsim.Graph.Node.{Node, NodeId, children, map_children}
use fastsim.Optimize.DeadCode.{remap_from, keep_live, remap_nodes, remap_ids, in_range}
use fastsim.Optimize.Mark.{IsLive}

-- The number of kept ids before an id.
abbrev pub rank : List Bool → ℕ → ℕ
rank [] i = 0
rank (b ∷ live) zero = 0
rank (b ∷ live) (suc i) = (if b then 1 else 0) + rank live i

pub remap_from-rank :
    (next : ℕ) (live : List Bool) (i : ℕ)
    → IsLive live i
    → get_or (remap_from next live) i 0 ≡ next + rank live i
unfolding remap_from
remap_from-rank next [] i h = cc
remap_from-rank next (true ∷ live) zero h = omega arith
remap_from-rank next (true ∷ live) (suc i) h = omega (arith, remap_from-rank (suc next) live i h)
remap_from-rank next (false ∷ live) zero h = cc
remap_from-rank next (false ∷ live) (suc i) h = omega (arith, remap_from-rank next live i h)

pub length-remap_from : (next : ℕ) (live : List Bool) → length (remap_from next live) ≡ length live
unfolding remap_from
length-remap_from next [] = refl
length-remap_from next (true ∷ live) = ap suc (length-remap_from (suc next) live)
length-remap_from next (false ∷ live) = ap suc (length-remap_from next live)

-- The order of the kept ids stays.
pub rank_mono : (live : List Bool) (c i : ℕ) → IsLive live c → c < i → rank live c < rank live i
rank_mono [] c i l lt = cc
rank_mono (b ∷ live) c zero l lt = absurd (omega (arith, lt))
rank_mono (true ∷ live) zero (suc i) l lt = omega arith
rank_mono (false ∷ live) zero (suc i) l lt = cc
rank_mono (b ∷ live) (suc c) (suc i) l lt = omega (arith, rank_mono live c i l (omega (arith, lt)))

module _ {A : Type 0} where
  -- A kept element stands at its rank.
  pub get_elem?-rank :
      (live : List Bool) (xs : List A) (i : ℕ)
      → length xs ≡ length live
      → IsLive live i
      → get_elem? (keep_live live xs) (rank live i) ≡ get_elem? xs i
  unfolding keep_live
  get_elem?-rank [] xs i h l = cc
  get_elem?-rank (b ∷ live) [] i h l = absurd (omega (arith, h))
  get_elem?-rank (true ∷ live) (x ∷ xs) zero h l = refl
  get_elem?-rank (true ∷ live) (x ∷ xs) (suc i) h l =
      let step : 1 + rank live i ≡ suc (rank live i) = omega arith in
      ap (get_elem? (x ∷ keep_live live xs)) step ∙ get_elem?-rank live xs i (omega (arith, h)) l
  get_elem?-rank (false ∷ live) (x ∷ xs) zero h l = cc
  get_elem?-rank (false ∷ live) (x ∷ xs) (suc i) h l =
      let step : 0 + rank live i ≡ rank live i = omega arith in
      ap (get_elem? (keep_live live xs)) step ∙ get_elem?-rank live xs i (omega (arith, h)) l

  -- Each element of the kept list is a kept element.
  pub keep_live_inv :
      (live : List Bool) (xs : List A) (j : ℕ) {x : A}
      → length xs ≡ length live
      → get_elem? (keep_live live xs) j ≡ some x
      → (i : ℕ) × IsLive live i × (rank live i ≡ j) × (get_elem? xs i ≡ some x)
  unfolding keep_live
  keep_live_inv [] xs j h e = cc
  keep_live_inv (b ∷ live) [] j h e = absurd (omega (arith, h))
  keep_live_inv (true ∷ live) (x ∷ xs) zero h e = (0, refl, refl, e)
  keep_live_inv (true ∷ live) (x ∷ xs) (suc j) h e =
      let (i, l, r, at) = keep_live_inv live xs j (omega (arith, h)) e in
      (suc i, l, omega (arith, r), at)
  keep_live_inv (false ∷ live) (x ∷ xs) j h e =
      let (i, l, r, at) = keep_live_inv live xs j (omega (arith, h)) e in
      (suc i, l, omega (arith, r), at)

pub length-keep_live :
    {A B : Type 0} (live : List Bool) (xs : List A) (ys : List B)
    → length xs ≡ length ys
    → length (keep_live live xs) ≡ length (keep_live live ys)
unfolding keep_live
length-keep_live [] xs ys h = refl
length-keep_live (b ∷ live) [] (y ∷ ys) h = absurd (omega (arith, h))
length-keep_live (b ∷ live) (x ∷ xs) [] h = absurd (omega (arith, h))
length-keep_live (true ∷ live) [] [] h = refl
length-keep_live (false ∷ live) [] [] h = refl
length-keep_live (true ∷ live) (x ∷ xs) (y ∷ ys) h =
    ap suc (length-keep_live live xs ys (omega (arith, h)))
length-keep_live (false ∷ live) (x ∷ xs) (y ∷ ys) h = length-keep_live live xs ys (omega (arith, h))

pub in_range_of_All : (n : ℕ) (cs : List NodeId) → All (λ c. c < n) cs → in_range n cs ≡ true
unfolding in_range
in_range_of_All n [] h = refl
in_range_of_All n (c ∷ cs) h = rw (lt→ltb c n h.0, in_range) (in_range_of_All n cs h.1)

pub remap_ids_total :
    (remap ids : List NodeId)
    → All (λ c. c < length remap) ids
    → remap_ids remap ids ≡ some (map (λ c. get_or remap c 0) ids)
unfolding remap_ids
remap_ids_total remap ids h = rw (in_range_of_All (length remap) ids h) refl

pub remap_nodes_total :
    (remap : List NodeId) (nodes : List Node)
    → All (λ n. All (λ c. c < length remap) (children n)) nodes
    → remap_nodes remap nodes ≡ some (map (map_children (λ c. get_or remap c 0)) nodes)
unfolding remap_nodes
remap_nodes_total remap [] h = refl
remap_nodes_total remap (n ∷ nodes) h =
    rw (in_range_of_All (length remap) (children n) h.0, remap_nodes_total remap nodes h.1) refl

pub children-map_children :
    (f : NodeId → NodeId) (n : Node) → children (map_children f n) ≡ map f (children n)
unfolding children map_children
children-map_children f (Node.dot a b) = sym (map-append f a b)
children-map_children f (Node.reduce op args) = refl
children-map_children f (Node.const b) = refl
children-map_children f _ = refl

module _ {A B : Type 0} (f : A → B) where
  pub get_elem?-map :
      (xs : List A) (j : ℕ) {x : A} → get_elem? xs j ≡ some x → get_elem? (map f xs) j ≡ some (f x)
  get_elem?-map [] j e = cc
  get_elem?-map (x ∷ xs) zero e = ap (λ y. some (f y)) (some-inj e)
  get_elem?-map (x ∷ xs) (suc j) e = get_elem?-map xs j e

  pub get_elem?-map_inv :
      (xs : List A) (j : ℕ) {y : B}
      → get_elem? (map f xs) j ≡ some y
      → (x : A) × (get_elem? xs j ≡ some x) × (f x ≡ y)
  get_elem?-map_inv [] j e = cc
  get_elem?-map_inv (x ∷ xs) zero e = (x, refl, some-inj e)
  get_elem?-map_inv (x ∷ xs) (suc j) e = get_elem?-map_inv xs j e
