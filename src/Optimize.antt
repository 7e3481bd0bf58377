-- ===== src/Optimize.antt =====
-- ssa/optimize.rs: the passes over the graph.
--
-- A function of the source that changes the graph in place and returns whether it did is a function
-- to the new graph and that flag, under `Option`: `none` is the panic of an index out of bounds.
pub mod Store
pub mod Fold
pub mod Strength
pub mod Algebraic
pub mod Fma
pub mod InPlace
pub mod FoldSound
pub mod Decide
pub mod StrengthSound
pub mod AlgebraicSound
pub mod FmaSound
pub mod DeadCode
pub mod Mark
pub mod Rank
pub mod DeadCodeSound
pub mod Canonical
pub mod FoldChoice
pub mod SortSound
pub mod ChoiceSound
pub mod CanonicalSound
pub mod Round
pub mod RoundSound
pub mod Rebuild
pub mod Pending
pub mod Rebuilding
pub mod RebuildSound
pub mod CanonicalizeSound
pub mod Fixpoint
