-- ===== src/Witnesses.antt =====
-- The theorems at concrete inputs that meet their hypotheses.
pub mod Data
pub mod Instances
pub mod Drifts
pub mod Collections
pub mod Sorting
pub mod Utilities
pub mod Launches
pub mod NodeClasses
pub mod Batches
pub mod Types
pub mod Creations
pub mod Claims
