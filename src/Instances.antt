-- ===== src/Instances.antt =====
-- The instances of a plugin's services and their scaling (tierd/internal/plugin/scale.go, state.go and
-- lifecycle.go).
pub mod Rows
pub mod Paths
pub mod Materialise
pub mod Scale
pub mod Keys
pub mod Keeps
pub mod Numbers
pub mod RowsBack
pub mod Restoring
pub mod Full
pub mod Apart
pub mod Aggregate
pub mod Names
pub mod Leftovers
pub mod Answers
pub mod Inserting
pub mod Succeeding
