-- ===== src/Graph/Signature.antt =====
-- ssa/graph.rs: `InputSlot` and `InputSignature`, the named layout of the flat input space.
pub mod Decode
use Prim.Native.String.{String}
use text.Mathlib.Text.{◌==◌ as str_eq}
use fastsim.Common.{
  ℕ, ◌+◌, ◌-◌, ◌^◌, Bool, ◌&&◌, List, [], ◌∷◌, Option, none, some, length, ltb, leb, if◌then◌else◌,
}

pub record InputSlot : Type 0 where
  pub name : String
  pub size : ℕ
  pub offset : ℕ

pub record InputSignature : Type 0 where
  pub slots : List InputSlot
  pub total_size : ℕ

-- The loop of `from_named_sizes` from a running offset: the slots and the offset after them.
unfoldable pub place_slots : ℕ → List (String × ℕ) → List InputSlot × ℕ
place_slots offset [] = ([], offset)
place_slots offset ((name, size) ∷ entries) =
    let (slots, end) = place_slots (offset + size) entries in
    (record { name = name; size = size; offset = offset } ∷ slots, end)

unfoldable pub from_named_sizes : List (String × ℕ) → InputSignature
unfolding place_slots
from_named_sizes entries =
    let (slots, end) = place_slots 0 entries in record { slots = slots; total_size = end }

unfoldable pub empty : InputSignature
empty = record { slots = []; total_size = 0 }

find_slot : String → List InputSlot → Option InputSlot
find_slot name [] = none
find_slot name (s ∷ slots) = if str_eq s.name name then some s else find_slot name slots

unfoldable pub slot : InputSignature → String → Option InputSlot
unfolding find_slot
slot sig name = find_slot name sig.slots

abbrev pub usize_max : ℕ
usize_max = 2 ^ 64 - 1

unfoldable pub decode_slots : ℕ → ℕ → List InputSlot → ℕ × ℕ
decode_slots flat i [] = (usize_max, 0)
decode_slots flat i (s ∷ slots) =
    if leb s.offset flat && ltb flat (s.offset + s.size)
    then (i, flat - s.offset)
    else decode_slots flat (i + 1) slots

-- The slot and the element of a flat index, or the sentinel.
unfoldable pub decode : InputSignature → ℕ → ℕ × ℕ
unfolding decode_slots
decode sig flat = decode_slots flat 0 sig.slots

unfoldable pub len : InputSignature → ℕ
len sig = length sig.slots
