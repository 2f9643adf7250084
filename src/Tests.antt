-- ===== src/Tests.antt =====
-- Runs of the model, and each theorem with conditions at an input that meets them.
mod RaceTests
mod RecvTests
mod StoreTests
mod StrategyTests
mod ResponseTests
mod KeyTests
mod TextTests
mod RedisTests
mod PatternTests
mod RouteTests
mod PurgeTests
mod PageTests
mod RelatedTests
mod ProviderTests
