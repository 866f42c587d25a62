-- ===== src/Smart.antt =====
-- SMART data and its alarm rules (tierd/internal/smart).
pub mod Types
pub mod Alarms
pub mod Events
pub mod Rules
