-- ===== src/Monitor.antt =====
-- The health monitor (tierd/internal/monitor/monitor.go).
pub mod Format
pub mod State
pub mod Cycle
pub mod AlertLists
pub mod Invariant
pub mod Lifecycle
pub mod Checks
pub mod Preserved
pub mod Polls
