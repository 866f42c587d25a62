-- ===== src/Lun.antt =====
-- The move of a live iSCSI LUN between the tiers of a smoothfs pool (tierd/internal/api).
pub mod State
pub mod Executor
pub mod Safety
pub mod StepsLeft
pub mod Runs
pub mod Stopped
pub mod Destination
pub mod Waiting
