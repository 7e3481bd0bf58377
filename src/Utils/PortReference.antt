-- ===== src/Utils/PortReference.antt =====
-- utils/portreference.rs: `PortReference`, a block and a list of its ports.
--
-- The blocks are a store, in which an `Rc` is an id, and two references to one block share its
-- registers. A reference keeps what it resolved. A panic is `none`; an error is on the left. The warnings
-- that the constructor prints are left out.
use Prim.Native.String.{String}
use fastsim.Common.{
  ℕ, List, [], ◌∷◌, Option, none, some, ◌>>=◌, ◌⊎◌, inl, inr, length, get_elem?, set, ltb, ◌==◌,
  if◌then◌else◌,
}
use fastsim.F64.{F64}
use fastsim.Utils.Register.{Register, size_for, resize, write}

pub data Port : Type 0 where
  index : ℕ → Port
  name : String → Port

-- The two aliases of ports that a block may lack.
pub data SimError : Type 0 where
  input_port_alias : String → SimError
  output_port_alias : String → SimError

-- The part of a block that references use.
pub record Block (R : F64) : Type 0 where
  pub inputs : Register R
  pub outputs : Register R

pub record PortReference : Type 0 where
  pub block : ℕ
  pub ports : List Port
  pub input_indices : Option (List ℕ)
  pub output_indices : Option (List ℕ)

-- The register that an operation is for: the functions for inputs and outputs differ in it only.
pub data Side : Type 0 where
  input : Side
  output : Side

unfoldable pub alias_error : Side → String → SimError
alias_error Side.input key = SimError.input_port_alias key
alias_error Side.output key = SimError.output_port_alias key

unfoldable pub cache : Side → PortReference → Option (List ℕ)
cache Side.input ref = ref.input_indices
cache Side.output ref = ref.output_indices

unfoldable pub with_cache : Side → List ℕ → PortReference → PortReference
with_cache Side.input indices ref = record ref { input_indices = some indices }
with_cache Side.output indices ref = record ref { output_indices = some indices }

-- No ports, and an empty list of them, stand for port 0.
unfoldable pub ports_or_default : Option (List Port) → List Port
ports_or_default none = Port.index 0 ∷ []
ports_or_default (some []) = Port.index 0 ∷ []
ports_or_default (some (p ∷ ps)) = p ∷ ps

unfoldable pub new : ℕ → Option (List Port) → PortReference
unfolding ports_or_default
new block ports = record {
  block = block;
  ports = ports_or_default ports;
  input_indices = none;
  output_indices = none;
}

-- The first error ends the loop.
unfoldable pub push_index : SimError ⊎ ℕ → SimError ⊎ List ℕ → SimError ⊎ List ℕ
push_index (inl e) rest = inl e
push_index (inr i) (inl e) = inl e
push_index (inr i) (inr is) = inr (i ∷ is)

module _ (R : F64) where
  unfoldable pub register : Side → Block R → Register R
  register Side.input b = b.inputs
  register Side.output b = b.outputs

  unfoldable pub with_register : Side → Register R → Block R → Block R
  with_register Side.input r b = record b { inputs = r }
  with_register Side.output r b = record b { outputs = r }

  -- The index of a port, or the error for a name that the register does not have.
  unfoldable pub port_index : Side → Register R → Port → SimError ⊎ ℕ
  unfolding alias_error
  port_index side r (Port.index i) = inr i
  port_index side r (Port.name key) = elim (r.mapping key) [
    | none ↦ inl (alias_error side key)
    | some i ↦ inr i
  ]

  unfoldable pub port_indices : Side → Register R → List Port → SimError ⊎ List ℕ
  unfolding port_index push_index
  port_indices side r [] = inr []
  port_indices side r (p ∷ ps) = push_index (port_index side r p) (port_indices side r ps)

  pub record Resolved : Type 0 where
    pub blocks : List (Block R)
    pub reference : PortReference
    pub indices : List ℕ

  -- The register grows to the greatest of the indices, of which there must be one, and they are kept.
  unfoldable pub grow_register :
      Side → List (Block R) → PortReference → Block R → List ℕ → Option Resolved
  unfolding size_for resize register with_register with_cache
  grow_register side blocks ref b [] = none
  grow_register side blocks ref b (i ∷ is) = some (record {
    blocks =
        set blocks ref.block
          (with_register side (resize R (register side b) (size_for (i ∷ is))) b);
    reference = with_cache side (i ∷ is) ref;
    indices = i ∷ is;
  })

  unfoldable pub resolve_in :
      Side → List (Block R) → PortReference → Block R → Option (SimError ⊎ Resolved)
  unfolding port_indices grow_register register
  resolve_in side blocks ref b = elim (port_indices side (register side b) ref.ports) [
    | inl e ↦ some (inl e)
    | inr indices ↦ do r ← grow_register side blocks ref b indices; some (inr r)
  ]

  unfoldable pub resolve_indices :
      Side → List (Block R) → PortReference → Option (SimError ⊎ Resolved)
  unfolding cache resolve_in
  resolve_indices side blocks ref = elim (cache side ref) [
    | some indices ↦ some (inr (record { blocks = blocks; reference = ref; indices = indices }))
    | none ↦ do b ← get_elem? blocks ref.block; resolve_in side blocks ref b
  ]

  -- `expect`
  unfoldable pub expect_resolved : SimError ⊎ Resolved → Option Resolved
  expect_resolved (inl e) = none
  expect_resolved (inr r) = some r

  unfoldable pub ensure_indices : Side → List (Block R) → PortReference → Option Resolved
  unfolding resolve_indices expect_resolved
  ensure_indices side blocks ref = do
    result ← resolve_indices side blocks ref
    expect_resolved result

  -- A read and a write that panic out of range.
  unfoldable pub read_at : Register R → ℕ → Option R.F
  read_at r i = get_elem? r.values i

  unfoldable pub write_at : Register R → ℕ → R.F → Option (Register R)
  unfolding write
  write_at r i v = if ltb i (length r.values) then some (write R r i v) else none

  unfoldable pub read_ports : Register R → List ℕ → Option (List R.F)
  unfolding read_at
  read_ports r [] = some []
  read_ports r (i ∷ is) = do v ← read_at r i; vs ← read_ports r is; some (v ∷ vs)

  -- `zip`: to the end of the shorter list.
  unfoldable pub write_zip : Register R → List ℕ → List R.F → Option (Register R)
  unfolding write_at
  write_zip r (i ∷ is) (v ∷ vs) = do r' ← write_at r i v; write_zip r' is vs
  write_zip r is vs = some r

  unfoldable pub copy_zip : Register R → Register R → List ℕ → List ℕ → Option (Register R)
  unfolding read_at write_at
  copy_zip source r (s ∷ ss) (d ∷ ds) = do
    v ← read_at source s
    r' ← write_at r d v
    copy_zip source r' ss ds
  copy_zip source r ss ds = some r

  -- From a block to itself: the values are read before any is written.
  unfoldable pub transfer_within : Register R → Register R → List ℕ → List ℕ → Option (Register R)
  unfolding read_at write_at read_ports write_zip
  transfer_within source r (s ∷ []) (d ∷ []) = do v ← read_at source s; write_at r d v
  transfer_within source r ss ds = do vs ← read_ports source ss; write_zip r ds vs

  -- From a block to another.
  unfoldable pub transfer_across : Register R → Register R → List ℕ → List ℕ → Option (Register R)
  unfolding read_at write_at copy_zip
  transfer_across source r (s ∷ []) (d ∷ []) = do v ← read_at source s; write_at r d v
  transfer_across source r ss ds = copy_zip source r ss ds

  unfoldable pub transfer : List (Block R) → ℕ → ℕ → List ℕ → List ℕ → Option (List (Block R))
  unfolding transfer_within transfer_across
  transfer blocks src dst ss ds = do
    from ← get_elem? blocks src
    into ← get_elem? blocks dst
    r ←
        if src == dst
        then transfer_within from.outputs into.inputs ss ds
        else transfer_across from.outputs into.inputs ss ds
    some (set blocks dst (record into { inputs = r }))

  pub record Sent : Type 0 where
    pub blocks : List (Block R)
    pub source : PortReference
    pub target : PortReference

  -- `to`: from the outputs of a block to the inputs of another.
  unfoldable pub to : List (Block R) → PortReference → PortReference → Option Sent
  unfolding ensure_indices transfer
  to blocks ref other = do
    from ← ensure_indices Side.output blocks ref
    into ← ensure_indices Side.input from.blocks other
    sent ← transfer into.blocks from.reference.block into.reference.block from.indices into.indices
    some (record { blocks = sent; source = from.reference; target = into.reference })

  -- What is read, with the store and the reference after resolving.
  pub record Read : Type 0 where
    pub blocks : List (Block R)
    pub reference : PortReference
    pub values : List R.F

  unfoldable pub get_values : Side → List (Block R) → PortReference → Option Read
  unfolding ensure_indices register read_ports
  get_values side blocks ref = do
    r ← ensure_indices side blocks ref
    b ← get_elem? r.blocks ref.block
    vs ← read_ports (register side b) r.indices
    some (record { blocks = r.blocks; reference = r.reference; values = vs })

  unfoldable pub get_inputs : List (Block R) → PortReference → Option Read
  unfolding get_values
  get_inputs blocks ref = get_values Side.input blocks ref

  unfoldable pub get_outputs : List (Block R) → PortReference → Option Read
  unfolding get_values
  get_outputs blocks ref = get_values Side.output blocks ref

  -- The buffer is cleared and filled: what it has after the call is the `values`.
  unfoldable pub get_outputs_into : List (Block R) → PortReference → List R.F → Option Read
  unfolding get_values
  get_outputs_into blocks ref buffer = get_values Side.output blocks ref

  unfoldable pub set_values :
      Side → List (Block R) → PortReference → List R.F → Option (List (Block R) × PortReference)
  unfolding ensure_indices register with_register write_zip
  set_values side blocks ref vals = do
    r ← ensure_indices side blocks ref
    b ← get_elem? r.blocks ref.block
    filled ← write_zip (register side b) r.indices vals
    some (set r.blocks ref.block (with_register side filled b), r.reference)

  unfoldable pub set_inputs :
      List (Block R) → PortReference → List R.F → Option (List (Block R) × PortReference)
  unfolding set_values
  set_inputs blocks ref vals = set_values Side.input blocks ref vals

  unfoldable pub set_outputs :
      List (Block R) → PortReference → List R.F → Option (List (Block R) × PortReference)
  unfolding set_values
  set_outputs blocks ref vals = set_values Side.output blocks ref vals
