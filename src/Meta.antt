-- ===== src/Meta.antt =====
-- The per-object metadata store (tierd/internal/tiering/meta).
pub mod Bytes
pub mod Record
pub mod Codec
pub mod Cache
pub mod CacheLaws
pub mod Shard
pub mod Writer
pub mod Drain
pub mod Pool
pub mod PoolLaws
pub mod PoolMove
pub mod PoolPut
pub mod Reconcile
pub mod Sweep
pub mod Victims
pub mod Sweeping
pub mod Walking
