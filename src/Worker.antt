-- ===== src/Worker.antt =====
-- The cache worker: src/worker/.
pub mod Policy
pub mod CacheManager
pub mod StorageTier
pub mod LruCache
pub mod PageStore
pub mod MetaStore
pub mod BlockStore
