-- ===== src/Snapshot.antt =====
-- The coordinated snapshots of a ZFS namespace and the movement workers they hold still
-- (tierd/internal/tiering/zfsmgd/quiesce.go, snapshot.go).
pub mod Quiesce
pub mod System
pub mod Invariant
pub mod Moves
pub mod Workers
pub mod Calls
pub mod Safety
