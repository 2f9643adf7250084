-- ===== src/Providers/Base.antt =====
-- packages/plugin-rest-cache/server/src/types/CacheProvider.ts: what a provider inherits.
use plugin_rest_cache.Prelude.{ℕ, zero, suc, List, [], ◌∷◌, length, take, drop, Text}
use plugin_rest_cache.Outcome.{Reply, fulfils, rejects, throws}

-- CONCURRENCY
abbrev pub concurrency : ℕ
concurrency = 16

module _ {P : Type 0} (del : Text → P → Reply (Unit {0}) × P) where
  -- `await Promise.all(keys.map((key) => this.del(key)))`: every call is made, unless one throws.
  unfoldable pub del_together : List Text → P → Reply (Unit {0}) × P
  del_together [] p = (fulfils tt, p)
  del_together (key ∷ keys) p =
      let (reply, p') = del key p in
      let later = del_together keys p' in
      elim reply [ fulfils _ ↦ later | rejects ↦ (rejects, later.1) | throws ↦ (rejects, p') ]

  -- The loop over the keys that are left, on fuel.
  unfoldable pub del_batches : ℕ → List Text → P → Reply (Unit {0}) × P
  unfolding del_together
  del_batches zero keys p = (fulfils tt, p)
  del_batches (suc f) [] p = (fulfils tt, p)
  del_batches (suc f) (key ∷ keys) p =
      let (reply, p') = del_together (take concurrency (key ∷ keys)) p in
      let later = del_batches f (drop concurrency (key ∷ keys)) p' in
      elim reply [ fulfils _ ↦ later | rejects ↦ (rejects, p') | throws ↦ (rejects, p') ]

  -- Each round takes a key at least.
  unfoldable pub default_del_many : List Text → P → Reply (Unit {0}) × P
  unfolding del_batches
  default_del_many keys = del_batches (length keys) keys

  -- `await this.delMany(await this.keys())`
  unfoldable pub default_clear : (P → Reply (List Text) × P) → P → Reply (Unit {0}) × P
  unfolding default_del_many
  default_clear keys p =
      let (reply, p') = keys p in
      elim reply [
        | fulfils listed ↦ default_del_many listed p'
        | rejects ↦ (rejects, p')
        | throws ↦ (rejects, p')
      ]
