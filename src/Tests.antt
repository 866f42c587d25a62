-- ===== src/Tests.antt =====
-- Concrete runs of the program's parts.
mod Sorter
mod Placing
mod Alarming
mod Alerting
mod Storing
mod Guarding
mod Pooling
mod Lunning
mod Manifests
mod Pools
mod Snapshots
mod Scaling
mod Bonding
