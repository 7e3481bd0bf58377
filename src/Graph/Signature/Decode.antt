-- ===== src/Graph/Signature/Decode.antt =====
-- ssa/graph.rs: decoding a flat index inverts the layout.
use Prim.Native.String.{String}
use fastsim.Common.{
  ℕ, zero, suc, ◌+◌, ◌≤◌, ◌<◌, ◌≡◌, refl, List, [], ◌∷◌, some, get_elem?, ltb, Bool-cases, inl, inr,
  ltb→le, arith,
}
use fastsim.Graph.Signature.{
  InputSlot, place_slots, from_named_sizes, decode, decode_slots, usize_max,
}

offset_le :
    (start i : ℕ) (entries : List (String × ℕ)) {s : InputSlot}
    → get_elem? (place_slots start entries).0 i ≡ some s
    → start ≤ s.offset
unfolding place_slots
offset_le start i [] h = cc
offset_le start zero ((name, size) ∷ entries) h = ground arith
offset_le start (suc i) ((name, size) ∷ entries) h =
    omega (arith, offset_le (start + size) i entries h)

decode_from :
    (start k i e : ℕ) (entries : List (String × ℕ)) {s : InputSlot}
    → get_elem? (place_slots start entries).0 i ≡ some s
    → e < s.size
    → decode_slots (s.offset + e) k (place_slots start entries).0 ≡ (k + i, e)
unfolding place_slots decode_slots
decode_from start k i e [] h lt = cc
decode_from start k zero e ((name, size) ∷ entries) h lt = ground arith
decode_from start k (suc i) e ((name, size) ∷ entries) h lt = ground (
  arith,
  offset_le (start + size) i entries h,
  decode_from (start + size) (k + 1) i e entries h lt,
)

-- Decoding the flat position of an element gives back its slot and its index in the slot.
pub decode-from_named_sizes :
    (entries : List (String × ℕ)) (i e : ℕ) (s : InputSlot)
    → get_elem? (from_named_sizes entries).slots i ≡ some s
    → e < s.size
    → decode (from_named_sizes entries) (s.offset + e) ≡ (i, e)
unfolding from_named_sizes decode
decode-from_named_sizes entries i e s h lt = ground (arith, decode_from 0 0 i e entries h lt)

end_ge : (start : ℕ) (entries : List (String × ℕ)) → start ≤ (place_slots start entries).1
unfolding place_slots
end_ge start [] = omega arith
end_ge start ((name, size) ∷ entries) = omega (arith, end_ge (start + size) entries)

sentinel_from :
    (start k flat : ℕ) (entries : List (String × ℕ))
    → (place_slots start entries).1 ≤ flat
    → decode_slots flat k (place_slots start entries).0 ≡ (usize_max, 0)
unfolding place_slots decode_slots
sentinel_from start k flat [] h = refl
sentinel_from start k flat ((name, size) ∷ entries) h =
    ground
      (arith, end_ge (start + size) entries, sentinel_from (start + size) (k + 1) flat entries h)

-- A flat index from the total size on decodes to the sentinel.
pub decode_out_of_range :
    (entries : List (String × ℕ)) (flat : ℕ)
    → (from_named_sizes entries).total_size ≤ flat
    → decode (from_named_sizes entries) flat ≡ (usize_max, 0)
unfolding from_named_sizes decode
decode_out_of_range entries flat h = sentinel_from 0 0 flat entries h

in_range_from :
    (start k flat : ℕ) (entries : List (String × ℕ))
    → start ≤ flat
    → flat < (place_slots start entries).1
    → (i : ℕ) × (s : InputSlot) × (get_elem? (place_slots start entries).0 i ≡ some s)
      × ((decode_slots flat k (place_slots start entries).0).0 ≡ k + i)
      × (s.offset + (decode_slots flat k (place_slots start entries).0).1 ≡ flat)
      × ((decode_slots flat k (place_slots start entries).0).1 < s.size)
unfolding place_slots decode_slots
in_range_from start k flat [] h lt = absurd (omega arith)
in_range_from start k flat ((name, size) ∷ entries) h lt =
    elim (Bool-cases (ltb flat (start + size))) [
      | inl here ↦ (
        zero,
        record { name = name; size = size; offset = start },
        refl,
        ground arith,
        ground arith,
        ground arith,
      )
      | inr there ↦
          let (i, s, at, slot, flat_eq, elem) =
            in_range_from (start + size) (k + 1) flat entries (ltb→le _ _ there) lt in
          (suc i, s, at, ground arith, ground arith, ground arith)
    ]

-- A flat index below the total size decodes to a slot of the signature and an element of the slot
-- whose flat position it is.
pub decode_in_range :
    (entries : List (String × ℕ)) (flat : ℕ)
    → flat < (from_named_sizes entries).total_size
    → (s : InputSlot) × (get_elem?
          (from_named_sizes entries).slots
          (decode (from_named_sizes entries) flat).0
        ≡ some s)
      × (s.offset + (decode (from_named_sizes entries) flat).1 ≡ flat)
      × ((decode (from_named_sizes entries) flat).1 < s.size)
unfolding from_named_sizes decode
decode_in_range entries flat lt =
    let (i, s, at, slot, flat_eq, elem) = in_range_from 0 0 flat entries (omega arith) lt in
    (s, ground arith, flat_eq, elem)
