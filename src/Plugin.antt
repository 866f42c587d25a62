-- ===== src/Plugin.antt =====
-- Checks on the manifest of a plugin (tierd/internal/plugin).
pub mod Cycle
pub mod CycleWalks
pub mod CycleSearch
pub mod CycleFound
pub mod CycleFuel
pub mod CycleExact
pub mod CycleGraph
pub mod Sizes
pub mod Checks
pub mod Accepted
