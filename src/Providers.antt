-- ===== src/Providers.antt =====
-- The providers: the base class in packages/plugin-rest-cache/server/src/types/CacheProvider.ts, and
-- packages/provider-rest-cache-memory/src/MemoryCacheProvider.ts.
pub mod Base
pub mod Batches
pub mod Memory
