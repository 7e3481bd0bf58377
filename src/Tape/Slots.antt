-- ===== src/Tape/Slots.antt =====
-- ssa/tape.rs: the free list and the slots in use stay apart.
use mathlib.Core.Bool.{false≢true}
use fastsim.Common.{
  ℕ, zero, suc, ◌+◌, ◌<◌, ◌≡◌, ◌≢◌, ◌⊎◌, inl, inr, refl, sym, ap, subst, ◌∙◌, false, ◌==◌, List, [],
  ◌∷◌, ◌++◌, All, All-append, length, length-push, get_or, Bool-cases, ==_iff, arith,
}
use fastsim.Tape.Alloc.{contains, collect_dying, push_slots, take_slot}

-- No entry twice.
abbrev pub Distinct : List ℕ → Type 0
Distinct [] = Unit
Distinct (x ∷ xs) = All (λ y. y ≢ x) xs × Distinct xs

pub get_or-append : (xs ys : List ℕ) (c : ℕ) → c < length xs → get_or (xs ++ ys) c 0 ≡ get_or xs c 0
get_or-append [] ys c h = elim h [ ]
get_or-append (x ∷ xs) ys zero h = refl
get_or-append (x ∷ xs) ys (suc c) h = get_or-append xs ys c (omega arith)

get_or-push : (xs : List ℕ) (x : ℕ) → get_or (xs ++ x ∷ []) (length xs) 0 ≡ x
get_or-push [] x = refl
get_or-push (y ∷ xs) x = get_or-push xs x

-- The nodes that hold a slot hold different ones, and none of them is free.
pub record AreApart (slot_of : List ℕ) (Held : ℕ → Type 0) (free : List ℕ) (n_slots : ℕ)
    : Type 0 where
  pub distinct : Distinct free
  pub bound : All (λ s. s < n_slots) free
  pub held_bound : (c : ℕ) → Held c → get_or slot_of c 0 < n_slots
  pub not_free : (c : ℕ) → Held c → All (λ s. s ≢ get_or slot_of c 0) free
  pub injective : (c d : ℕ) → Held c → Held d → c ≢ d → get_or slot_of c 0 ≢ get_or slot_of d 0

pub AreApart-weaken :
    (slot_of : List ℕ) (H K : ℕ → Type 0) (free : List ℕ) (n : ℕ)
    → ((c : ℕ) → K c → H c)
    → AreApart slot_of H free n
    → AreApart slot_of K free n
AreApart-weaken slot_of H K free n f a = record {
  distinct = a.distinct;
  bound = a.bound;
  held_bound = λ c h. a.held_bound c (f c h);
  not_free = λ c h. a.not_free c (f c h);
  injective = λ c d h k. a.injective c d (f c h) (f d k);
}

-- A node gives up its slot.
free_one :
    (slot_of : List ℕ) (H : ℕ → Type 0) (free : List ℕ) (n d : ℕ)
    → H d
    → AreApart slot_of H free n
    → AreApart slot_of (λ c. H c × (c ≢ d)) (get_or slot_of d 0 ∷ free) n
free_one slot_of H free n d held a = record {
  distinct = (a.not_free d held, a.distinct);
  bound = (a.held_bound d held, a.bound);
  held_bound = λ c h. a.held_bound c h.0;
  not_free = λ c h. ((λ e. a.injective c d h.0 held h.1 (sym e)), a.not_free c h.0);
  injective = λ c e h k. a.injective c e h.0 k.0;
}

pub push_slots-AreApart :
    (slot_of : List ℕ) (H : ℕ → Type 0) (ds free : List ℕ) (n : ℕ)
    → All H ds
    → Distinct ds
    → AreApart slot_of H free n
    → AreApart slot_of (λ c. H c × All (λ d. d ≢ c) ds) (push_slots slot_of ds free) n
unfolding push_slots
push_slots-AreApart slot_of H [] free n h k a = AreApart-weaken slot_of H _ free n (λ c p. p.0) a
push_slots-AreApart slot_of H (d ∷ ds) free n h k a =
    AreApart-weaken slot_of (λ c. (H c × (c ≢ d)) × All (λ e. e ≢ c) ds) _ _ n
      (λ c p. ((p.0, λ e. p.1.0 (sym e)), p.1.1))
      (push_slots-AreApart slot_of (λ c. H c × (c ≢ d)) ds (get_or slot_of d 0 ∷ free) n
        (both ds h.1 k.0) k.1 (free_one slot_of H free n d h.0 a))
  where
    both : (es : List ℕ) → All H es → All (λ y. y ≢ d) es → All (λ c. H c × (c ≢ d)) es
    both [] p q = tt
    both (e ∷ es) p q = ((p.0, q.0), both es p.1 q.1)

module _ (slot_of : List ℕ) (H : ℕ → Type 0) (placed : (c : ℕ) → H c → c < length slot_of) where
  abbrev pub OrNew : ℕ → Type 0
  OrNew c = H c ⊎ (c ≡ length slot_of)

  old_slot : (s c : ℕ) → H c → get_or (slot_of ++ s ∷ []) c 0 ≡ get_or slot_of c 0
  old_slot s c h = get_or-append slot_of (s ∷ []) c (placed c h)

  new_slot : (s c : ℕ) → c ≡ length slot_of → get_or (slot_of ++ s ∷ []) c 0 ≡ s
  new_slot s c e = ap (λ k. get_or (slot_of ++ s ∷ []) k 0) e ∙ get_or-push slot_of s

  -- A slot that is neither free nor held goes to the next node.
  give :
      (s : ℕ) (free : List ℕ) (n : ℕ)
      → s < n
      → All (λ t. t ≢ s) free
      → ((c : ℕ) → H c → get_or slot_of c 0 ≢ s)
      → AreApart slot_of H free n
      → AreApart (slot_of ++ s ∷ []) OrNew free n
  give s free n lt fresh unheld a = record {
    distinct = a.distinct;
    bound = a.bound;
    held_bound = λ c h. elim h [
      | inl old ↦ subst (λ t. t < n) (sym (old_slot s c old)) (a.held_bound c old)
      | inr e ↦ subst (λ t. t < n) (sym (new_slot s c e)) lt
    ];
    not_free = λ c h. elim h [
      | inl old ↦ subst (λ t. All (λ u. u ≢ t) free) (sym (old_slot s c old)) (a.not_free c old)
      | inr e ↦ subst (λ t. All (λ u. u ≢ t) free) (sym (new_slot s c e)) fresh
    ];
    injective = λ c d h k ne same. elim h [
      | inl old ↦ elim k [
        | inl old' ↦ a.injective c d old old' ne (sym (old_slot s c old) ∙ same ∙ old_slot s d old')
        | inr e ↦ unheld c old (sym (old_slot s c old) ∙ same ∙ new_slot s d e)
      ]
      | inr e ↦ elim k [
        | inl old' ↦ unheld d old' (sym (old_slot s d old') ∙ sym same ∙ new_slot s c e)
        | inr e' ↦ ne (e ∙ sym e')
      ]
    ];
  }

  pub take_slot-AreApart :
      (free : List ℕ) (n : ℕ)
      → AreApart slot_of H free n
      → AreApart
          (take_slot slot_of free n).slot_of
          OrNew
          (take_slot slot_of free n).free
          (take_slot slot_of free n).n_slots
  unfolding take_slot
  take_slot-AreApart [] n a =
      give n [] (n + 1) (omega arith) tt (λ c h e. absurd (omega (arith, a.held_bound c h)))
        (record {
          distinct = tt;
          bound = tt;
          held_bound = λ c h. omega (arith, a.held_bound c h);
          not_free = λ c h. tt;
          injective = a.injective;
        })
  take_slot-AreApart (s ∷ free) n a =
      give s free n a.bound.0 a.distinct.0 (λ c h e. (a.not_free c h).0 (sym e))
        (record {
          distinct = a.distinct.1;
          bound = a.bound.1;
          held_bound = a.held_bound;
          not_free = λ c h. (a.not_free c h).1;
          injective = a.injective;
        })

pub length-take_slot :
    (slot_of free : List ℕ) (n : ℕ)
    → length (take_slot slot_of free n).slot_of ≡ suc (length slot_of)
unfolding take_slot
length-take_slot slot_of [] n = length-push slot_of n
length-take_slot slot_of (s ∷ free) n = length-push slot_of s

pub take_slot-extends :
    (slot_of free : List ℕ) (n : ℕ)
    → (s : ℕ) × ((take_slot slot_of free n).slot_of ≡ slot_of ++ s ∷ [])
unfolding take_slot
take_slot-extends slot_of [] n = (n, refl)
take_slot-extends slot_of (s ∷ free) n = (s, refl)

contains_sound : (ds : List ℕ) (c : ℕ) → contains ds c ≡ false → All (λ d. d ≢ c) ds
unfolding contains
contains_sound [] c h = tt
contains_sound (d ∷ ds) c h = elim (Bool-cases (d == c)) [
  | inl same ↦ absurd (false≢true (sym (rw same at h)))
  | inr other ↦ (ground arith, contains_sound ds c (rw other at h))
]

Distinct-push : (ds : List ℕ) (c : ℕ) → Distinct ds → All (λ d. d ≢ c) ds → Distinct (ds ++ c ∷ [])
Distinct-push [] c h k = (tt, tt)
Distinct-push (d ∷ ds) c h k =
    (All-append (λ y. y ≢ d) ds (c ∷ []) h.0 ((λ e. k.0 (sym e)), tt), Distinct-push ds c h.1 k.1)

-- The dying operands are distinct, stand below the op, and are used for the last time by it.
module _ (last_use : List ℕ) (i : ℕ) where
  abbrev pub DiesHere : ℕ → Type 0
  DiesHere c = (c < i) × (get_or last_use c 0 ≡ i)

  pub collect_dying-lem :
      (cs dying : List ℕ)
      → All (λ c. c < i) cs
      → Distinct dying
      → All DiesHere dying
      → Distinct (collect_dying last_use i cs dying)
        × All DiesHere (collect_dying last_use i cs dying)
  unfolding collect_dying
  collect_dying-lem [] dying h d a = (d, a)
  collect_dying-lem (c ∷ cs) dying h d a = elim (Bool-cases (get_or last_use c 0 == i)) [
    | inl dies ↦ elim (Bool-cases (contains dying c)) [
      | inl known ↦ rw (dies, known) (collect_dying-lem cs dying h.1 d a)
      | inr new ↦
          rw (dies, new)
            (collect_dying-lem cs (dying ++ c ∷ []) h.1
              (Distinct-push dying c d (contains_sound dying c new))
              (All-append DiesHere dying (c ∷ []) a ((h.0, (==_iff _ _).0 dies), tt)))
    ]
    | inr lives ↦ rw lives (collect_dying-lem cs dying h.1 d a)
  ]
