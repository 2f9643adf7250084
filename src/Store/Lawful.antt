-- ===== src/Store/Lawful.antt =====
-- packages/plugin-rest-cache/server/src/types/CacheProvider.ts: what a provider that answers does.
use plugin_rest_cache.Prelude.{
  ℕ, ◌≡◌, Bool, true, false, Option, none, some, List, ◌++◌, if◌then◌else◌, Text, text_eq,
}
use plugin_rest_cache.Outcome.{fulfils, in_time}
use plugin_rest_cache.Store.Contract.{Provider}
use plugin_rest_cache.Store.Listing.{has}

abbrev pub is_some {ℓ} : {A : Type ℓ} → Option A → Bool
is_some none = false
is_some (some a) = true

-- A map from keys to texts, as long as the provider is ready and no entry expires.
pub record Lawful {P : Type 0} (api : Provider P) : Type 0 where
  pub view : P → Text → Option Text
  pub get-view :
      (k : Text) (p : P)
      → api.ready p ≡ true
      → ((api.get k p).0 ≡ in_time (fulfils (view p k)))
        × (api.ready (api.get k p).1 ≡ true)
        × ((j : Text) → view (api.get k p).1 j ≡ view p j)
  pub set-view :
      (k v : Text) (max_age : ℕ) (p : P)
      → api.ready p ≡ true
      → ((api.set k v max_age p).0 ≡ fulfils tt)
        × (api.ready (api.set k v max_age p).1 ≡ true)
        × ((j : Text)
            → view (api.set k v max_age p).1 j ≡ (if text_eq j k then some v else view p j))
  pub del_many-view :
      (ks : List Text) (p : P)
      → api.ready p ≡ true
      → ((api.del_many ks p).0 ≡ fulfils tt)
        × (api.ready (api.del_many ks p).1 ≡ true)
        × ((j : Text) → view (api.del_many ks p).1 j ≡ (if has ks j then none else view p j))
  -- The listing may be narrowed to the prefix.
  pub keys-view :
      (prefix : Text) (p : P)
      → api.ready p ≡ true
      → (listed : List Text) × ((api.keys prefix p).0 ≡ fulfils listed)
        × (api.ready (api.keys prefix p).1 ≡ true)
        × ((t : Text) → has listed (prefix ++ t) ≡ is_some (view p (prefix ++ t)))
        × ((j : Text) → view (api.keys prefix p).1 j ≡ view p j)
  pub clear-view :
      (p : P)
      → api.ready p ≡ true
      → ((api.clear p).0 ≡ fulfils tt)
        × (api.ready (api.clear p).1 ≡ true)
        × ((j : Text) → view (api.clear p).1 j ≡ none)
