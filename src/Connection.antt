-- ===== src/Connection.antt =====
-- connection.rs: `Connection`, from the outputs of a block to the inputs of its targets.
pub mod Transfer
pub mod Update
pub mod Resolve
use fastsim.Common.{
  ℕ, Bool, true, false, List, [], ◌∷◌, ◌++◌, Option, none, some, ◌>>=◌, ◌⊎◌, inl, inr, length, ◌==◌,
  ◌||◌, if◌then◌else◌,
}
use fastsim.F64.{F64}
use fastsim.Utils.PortReference.{
  PortReference, Block, SimError, Side, Sent, Resolved, resolve_indices, to,
}

pub record Connection : Type 0 where
  pub source : PortReference
  pub targets : List PortReference
  pub active : Bool

unfoldable pub new : PortReference → List PortReference → Connection
new source targets = record { source = source; targets = targets; active = true }

unfoldable pub single : ℕ → ℕ → Connection
unfolding new fastsim.Utils.PortReference.new
single source target =
    new (fastsim.Utils.PortReference.new source none)
      (fastsim.Utils.PortReference.new target none ∷ [])

unfoldable pub on : Connection → Connection
on c = record c { active = true }

unfoldable pub off : Connection → Connection
off c = record c { active = false }

-- Whether an id is in a list of them.
unfoldable pub any_block : ℕ → List ℕ → Bool
any_block b [] = false
any_block b (c ∷ cs) = b == c || any_block b cs

unfoldable pub push_targets : List ℕ → List PortReference → List ℕ
unfolding any_block
push_targets blocks [] = blocks
push_targets blocks (trg ∷ targets) =
    push_targets (if any_block trg.block blocks then blocks else blocks ++ trg.block ∷ []) targets

unfoldable pub get_blocks : Connection → List ℕ
unfolding push_targets
get_blocks c = push_targets (c.source.block ∷ []) c.targets

module _ (R : F64) where
  -- The store, the source, and the targets so far.
  pub record Progress : Type 0 where
    pub blocks : List (Block R)
    pub source : PortReference
    pub targets : List PortReference

  -- The targets in turn; a reference that resolves its ports keeps them.
  unfoldable pub send_all : List (Block R) → PortReference → List PortReference → Option Progress
  unfolding to
  send_all blocks source [] = some (record { blocks = blocks; source = source; targets = [] })
  send_all blocks source (trg ∷ targets) = do
    sent ← to R blocks source trg
    rest ← send_all sent.blocks sent.source targets
    some (record rest { targets = sent.target ∷ rest.targets })

  unfoldable pub update : List (Block R) → Connection → Option (List (Block R) × Connection)
  unfolding send_all
  update blocks c =
      if c.active
      then (do
        p ← send_all blocks c.source c.targets
        some (p.blocks, record c { source = p.source; targets = p.targets }))
      else some (blocks, c)

  -- The store, the targets, and the error that ended the loop. What was resolved before it stays so.
  pub record Targets : Type 0 where
    pub blocks : List (Block R)
    pub targets : List PortReference
    pub error : Option SimError

  unfoldable pub resolve_targets : List (Block R) → List PortReference → Option Targets
  unfolding resolve_indices
  resolve_targets blocks [] = some (record { blocks = blocks; targets = []; error = none })
  resolve_targets blocks (trg ∷ targets) = do
    result ← resolve_indices R Side.input blocks trg
    elim result [
      | inl e ↦ some (record { blocks = blocks; targets = trg ∷ targets; error = some e })
      | inr r ↦ do
        rest ← resolve_targets r.blocks targets
        some (record rest { targets = r.reference ∷ rest.targets })
    ]

  unfoldable pub resolve_ports :
      List (Block R) → Connection → Option (List (Block R) × Connection × Option SimError)
  unfolding resolve_indices resolve_targets
  resolve_ports blocks c = do
    result ← resolve_indices R Side.output blocks c.source
    elim result [
      | inl e ↦ some (blocks, c, some e)
      | inr r ↦ do
        t ← resolve_targets r.blocks c.targets
        some (t.blocks, record c { source = r.reference; targets = t.targets }, t.error)
    ]
