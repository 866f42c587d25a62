-- ===== src/Spindown.antt =====
-- The windows in which a pool's disks may be active (tierd/internal/spindown).
pub mod Clock
pub mod Windows
pub mod Next
pub mod Found
