-- ===== src/Placement.antt =====
-- The placement planner of the mdadm tiering adapter (tierd/internal/tiering/mdadm/placement.go).
pub mod Types
pub mod Capacity
pub mod CapBounds
pub mod Admit
pub mod Assign
pub mod Moves
pub mod SizeBias
