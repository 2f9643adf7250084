-- ===== src/Providers/Memory.antt =====
-- packages/provider-rest-cache-memory/src/MemoryCacheProvider.ts, over the cache manager's calls.
use plugin_rest_cache.Prelude.{
  ℕ, suc, ◌≡◌, refl, ap, true, Option, none, some, List, [], ◌∷◌, ◌++◌, if◌then◌else◌, Text,
  text_eq,
}
use plugin_rest_cache.Outcome.{Reply, fulfils, in_time}
use plugin_rest_cache.Store.Contract.{Provider}
use plugin_rest_cache.Store.Lawful.{Lawful, is_some}
use plugin_rest_cache.Store.Listing.{has}

-- The calls of a cache-manager cache, and the keys that its first store's iterator yields.
pub record Cache (C : Type 0) : Type 0 where
  pub get : Text → C → Reply (Option Text) × C
  pub set : Text → Text → ℕ → C → Reply (Unit {0}) × C
  pub del : Text → C → Reply (Unit {0}) × C
  pub mdel : List Text → C → Reply (Unit {0}) × C
  pub iterated : C → Reply (List Text) × C
  pub clear : C → Reply (Unit {0}) × C

-- The options, and those that quick-lru is given: `max` is renamed to `maxSize`.
pub record MemoryCacheProviderOptions : Type 0 where
  pub ttl : Option ℕ
  pub max_size : Option ℕ
  pub max : Option ℕ

unfoldable pub adapter_options : MemoryCacheProviderOptions → MemoryCacheProviderOptions
adapter_options options = elim options.max [
  | some (suc n) ↦ record { ttl = none; max_size = some (suc n); max = none }
  | other ↦ record { ttl = none; max_size = options.max_size; max = other }
]

module _ {C : Type 0} (cache : Cache C) where
  unfoldable pub memory_del_many : List Text → C → Reply (Unit {0}) × C
  memory_del_many [] c = (fulfils tt, c)
  memory_del_many (key ∷ keys) c = cache.mdel (key ∷ keys) c

  -- The provider that the memory class is. Its calls are async: an exception is a rejection.
  unfoldable pub memory_cache_provider : Provider C
  unfolding memory_del_many
  memory_cache_provider = record {
    get = λ key c. let (reply, c') = cache.get key c in (in_time reply, c');
    set = λ key val max_age c. cache.set key val max_age c;
    del = λ key c. cache.del key c;
    del_many = memory_del_many;
    keys = λ keys_prefix c. cache.iterated c;
    clear = λ c. cache.clear c;
    ready = λ c. true;
  }

-- A cache that answers: a map from keys to texts, while no entry expires or is evicted.
pub record Answers {C : Type 0} (cache : Cache C) : Type 0 where
  pub view : C → Text → Option Text
  pub get-view :
      (k : Text) (c : C)
      → ((cache.get k c).0 ≡ fulfils (view c k))
        × ((j : Text) → view (cache.get k c).1 j ≡ view c j)
  pub set-view :
      (k v : Text) (max_age : ℕ) (c : C)
      → ((cache.set k v max_age c).0 ≡ fulfils tt)
        × ((j : Text)
            → view (cache.set k v max_age c).1 j ≡ (if text_eq j k then some v else view c j))
  pub mdel-view :
      (ks : List Text) (c : C)
      → ((cache.mdel ks c).0 ≡ fulfils tt)
        × ((j : Text) → view (cache.mdel ks c).1 j ≡ (if has ks j then none else view c j))
  pub iterated-view :
      (c : C)
      → (listed : List Text) × ((cache.iterated c).0 ≡ fulfils listed)
        × ((j : Text) → has listed j ≡ is_some (view c j))
        × ((j : Text) → view (cache.iterated c).1 j ≡ view c j)
  pub clear-view :
      (c : C) → ((cache.clear c).0 ≡ fulfils tt) × ((j : Text) → view (cache.clear c).1 j ≡ none)

module _ {C : Type 0} (cache : Cache C) (a : Answers cache) where
  memory_del_many-view :
      (ks : List Text) (c : C)
      → ((memory_del_many cache ks c).0 ≡ fulfils tt)
        × ((j : Text)
            → a.view (memory_del_many cache ks c).1 j ≡ (if has ks j then none else a.view c j))
  unfolding memory_del_many
  memory_del_many-view [] c = (refl, λ j. refl)
  memory_del_many-view (k ∷ ks) c = a.mdel-view (k ∷ ks) c

  -- The memory provider meets the laws that the store relies on, if its cache answers.
  pub memory_cache_provider-Lawful : Lawful (memory_cache_provider cache)
  unfolding memory_cache_provider
  memory_cache_provider-Lawful = record {
    view = a.view;
    get-view = λ k c r. (ap in_time (a.get-view k c).0, refl, (a.get-view k c).1);
    set-view =
        λ k v max_age c r. ((a.set-view k v max_age c).0, refl, (a.set-view k v max_age c).1);
    del_many-view = λ ks c r. ((memory_del_many-view ks c).0, refl, (memory_del_many-view ks c).1);
    keys-view = λ prefix c r. (
      (a.iterated-view c).0,
      (a.iterated-view c).1,
      refl,
      λ t. (a.iterated-view c).2 (prefix ++ t),
      (a.iterated-view c).3,
    );
    clear-view = λ c r. ((a.clear-view c).0, refl, (a.clear-view c).1);
  }
