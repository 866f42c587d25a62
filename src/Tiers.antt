-- ===== src/Tiers.antt =====
-- The rules on tiered pools (tierd/internal/tiermeta): names, tier definitions, states and sizes.
pub mod Rules
pub mod Histories
