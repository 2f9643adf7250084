-- ===== src/Redis/Purgeable.antt =====
-- packages/provider-rest-cache-redis/src/RedisCacheProvider.ts: keys() after calls that interleave.
use plugin_rest_cache.Prelude.{ℕ, ◌≡◌, refl, sym, ◌∙◌, true, false, some, List, ◌++◌, map, Text}
use plugin_rest_cache.Outcome.{resolved}
use plugin_rest_cache.Redis.{KeyvRedisStore, finished}
use plugin_rest_cache.Redis.Client.{Server, Obeys}
use plugin_rest_cache.Redis.Tracking.{World, Reach}
use plugin_rest_cache.Redis.Visible.{Quiet-tracked}
use plugin_rest_cache.Redis.Names.{Listings, prefix_of, truthy, unqualified, set_keys, keys}
use plugin_rest_cache.Redis.Listed.{has-map, unqualified_lem}
use plugin_rest_cache.Store.Listing.{has}

-- SMEMBERS answers with the members.
abbrev pub Answers : {R : Type 0} → Server R → Listings R → Type 0
Answers {R} server listings =
    (set_name : Text) (r : R)
    → (members : List Text) × (listings.smembers set_name r ≡ resolved members)
      × ((j : Text) → has members j ≡ server.member set_name r j)

-- When no write, deletion or prune is in progress, keys() lists the key of every entry that exists
-- and whose name no failed command gave up, if every entry was tracked at the start; calls may
-- interleave in any order.
pub Quiet-listed :
    {R : Type 0} (server : Server R) (listings : Listings R)
    → Obeys server
    → Answers server listings
    → (store : KeyvRedisStore) (namespace set_name : Text) → store.has_client ≡ true
    → truthy store.namespace ≡ some namespace
    → truthy store.tracking_set ≡ some set_name
    → store.use_redis_sets ≡ true
    → (v w : World R) → ((i : ℕ) → v.threads i ≡ finished)
    → ((j : Text) → server.live v.server j ≡ true → server.member set_name v.server j ≡ true)
    → Reach server store set_name v w
    → ((i : ℕ) → w.threads i ≡ finished)
    → (f : ℕ)
    → (listed : List Text) × (keys listings f store w.server ≡ some (resolved listed))
      × ((key : Text)
          → has w.lost (prefix_of namespace ++ key) ≡ false
          → server.live w.server (prefix_of namespace ++ key) ≡ true
          → has listed key ≡ true)
unfolding keys set_keys
Quiet-listed server listings obeys answers store namespace set_name client ns sn on v w idle tracked
      r quiet f =
    let (members, listed, same) = answers set_name w.server in
    let prefix = prefix_of namespace in
    (
      map (unqualified prefix) members,
      rw (client, keys, ns, keys, sn, keys, on, set_keys, listed) refl,
      λ key safe alive.
          let found =
            Quiet-tracked server obeys store set_name on v w idle tracked r quiet (prefix ++ key)
              safe alive in
          rw (sym (unqualified_lem prefix key))
            (has-map (unqualified prefix) members (prefix ++ key) (same (prefix ++ key) ∙ found)),
    )
