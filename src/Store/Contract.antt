-- ===== src/Store/Contract.antt =====
-- packages/plugin-rest-cache/server/src/types/CacheProvider.ts: what every provider offers.
use plugin_rest_cache.Prelude.{ℕ, Bool, List, Option, Text}
use plugin_rest_cache.Outcome.{Reply, Timed}

-- Each call answers and leaves the provider in a new state. A read is raced against a timer.
pub record Provider (P : Type 0) : Type 0 where
  pub get : Text → P → Timed (Option Text) × P
  pub set : Text → Text → ℕ → P → Reply (Unit {0}) × P
  pub del : Text → P → Reply (Unit {0}) × P
  pub del_many : List Text → P → Reply (Unit {0}) × P
  pub keys : Text → P → Reply (List Text) × P
  pub clear : P → Reply (Unit {0}) × P
  pub ready : P → Bool
