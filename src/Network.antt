-- ===== src/Network.antt =====
-- The network settings (tierd/internal/network).
pub mod Dirs
pub mod SafeApply
pub mod Restoring
pub mod Confirming
pub mod Texts
pub mod Nics
pub mod BondPolicy
pub mod BondKept
pub mod BondWritten
