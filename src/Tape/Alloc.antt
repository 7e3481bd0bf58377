-- ===== src/Tape/Alloc.antt =====
-- ssa/tape.rs: `allocate_work_slots`, the assignment of work slots by liveness.
--
-- The array `slot_of` is the list of the slots given out so far; a node that has none yet reads as
-- slot 0, as in the array that starts with zeros. The free list has its top in front.
use fastsim.Common.{
  ℕ, zero, suc, ◌+◌, ◌-◌, ◌^◌, Bool, true, false, ◌&&◌, not, List, [], ◌∷◌, ◌++◌, get_or, set,
  length, ltb, ◌==◌, if◌then◌else◌,
}
use fastsim.Graph.Node.{Node, NodeId, children}

abbrev pub u32_max : ℕ
u32_max = 2 ^ 32 - 1

-- `(0..n)`
unfoldable pub range_from : ℕ → ℕ → List ℕ
range_from start zero = []
range_from start (suc n) = start ∷ range_from (suc start) n

-- The visit of the operands of op `i`.
unfoldable pub note_uses : ℕ → List NodeId → List ℕ → List ℕ
note_uses i [] last_use = last_use
note_uses i (c ∷ cs) last_use =
    note_uses i cs (if ltb (get_or last_use c 0) i then set last_use c i else last_use)

unfoldable pub note_all_uses : ℕ → List Node → List ℕ → List ℕ
note_all_uses i [] last_use = last_use
note_all_uses i (n ∷ nodes) last_use =
    note_all_uses (suc i) nodes (note_uses i (children n) last_use)

unfoldable pub pin_outputs : List NodeId → List ℕ → List ℕ
pin_outputs [] last_use = last_use
pin_outputs (o ∷ outputs) last_use = pin_outputs outputs (set last_use o u32_max)

unfoldable pub last_uses : List Node → List NodeId → List ℕ
last_uses nodes outputs = pin_outputs outputs (note_all_uses 0 nodes (range_from 0 (length nodes)))

unfoldable pub contains : List ℕ → ℕ → Bool
contains [] c = false
contains (d ∷ ds) c = if d == c then true else contains ds c

-- The operands that die at op `i`, each once.
unfoldable pub collect_dying : List ℕ → ℕ → List NodeId → List NodeId → List NodeId
collect_dying last_use i [] dying = dying
collect_dying last_use i (c ∷ cs) dying =
    collect_dying last_use i cs
      (if (get_or last_use c 0 == i) && not (contains dying c) then dying ++ c ∷ [] else dying)

unfoldable pub push_slots : List ℕ → List NodeId → List ℕ → List ℕ
push_slots slot_of [] free = free
push_slots slot_of (c ∷ cs) free = push_slots slot_of cs (get_or slot_of c 0 ∷ free)

pub record Alloc : Type 0 where
  pub slot_of : List ℕ
  pub free : List ℕ
  pub n_slots : ℕ

-- `free.pop().unwrap_or_else(…)`, and the store into `slot_of[i]`
unfoldable pub take_slot : List ℕ → List ℕ → ℕ → Alloc
take_slot slot_of [] n_slots = record {
  slot_of = slot_of ++ n_slots ∷ [];
  free = [];
  n_slots = n_slots + 1;
}
take_slot slot_of (s ∷ free) n_slots = record {
  slot_of = slot_of ++ s ∷ [];
  free = free;
  n_slots = n_slots;
}

-- The body of the loop at op `i`.
unfoldable pub alloc_step : List ℕ → ℕ → Node → Alloc → Alloc
unfolding take_slot
alloc_step last_use i n a =
    take_slot a.slot_of (push_slots a.slot_of (collect_dying last_use i (children n) []) a.free)
      a.n_slots

unfoldable pub alloc_loop : List ℕ → ℕ → List Node → Alloc → Alloc
alloc_loop last_use i [] a = a
alloc_loop last_use i (n ∷ nodes) a = alloc_loop last_use (suc i) nodes (alloc_step last_use i n a)

unfoldable pub allocate_work_slots : List Node → List NodeId → List ℕ
allocate_work_slots nodes outputs =
    (alloc_loop (last_uses nodes outputs) 0 nodes
      (record { slot_of = []; free = []; n_slots = 0 })).slot_of
