-- ===== src/Redis/Deleted.antt =====
-- packages/provider-rest-cache-redis/src/RedisCacheProvider.ts: delMany.
use plugin_rest_cache.Prelude.{
  ◌≡◌, refl, ap, ◌∙◌, false, ◌&&◌, not, some, List, [], ◌∷◌, ◌++◌, map, Text, starts_with,
}
use plugin_rest_cache.Redis.{KeyvRedisStore, Thread, finished, start_del_many}
use plugin_rest_cache.Redis.Client.{Server, Obeys}
use plugin_rest_cache.Redis.Names.{prefix_of}
use plugin_rest_cache.Redis.Alone.{Runs, start_del_many_lem}
use plugin_rest_cache.Redis.Provider.{by_commands, tracked_namespace, del_many}
use plugin_rest_cache.Store.Listing.{has, has-prefixed, has-prefixed_other}

module _ {R : Type 0} (server : Server R) (obeys : Obeys server) (store : KeyvRedisStore)
    (set_name namespace : Text) where
  -- The keys are gone from the entries and from the tracking set, and all else is as it was.
  abbrev pub Deleted : List Text → Thread → R → Type 0
  Deleted keys t r =
      (r' : R) × Runs server store set_name t r r'
      × ((key : Text)
          → (server.live r' (prefix_of namespace ++ key)
              ≡ (not (has keys key) && server.live r (prefix_of namespace ++ key)))
            × (server.member set_name r' (prefix_of namespace ++ key)
                ≡ (not (has keys key) && server.member set_name r (prefix_of namespace ++ key))))
      × ((name : Text)
          → starts_with name (prefix_of namespace) ≡ false
          → (server.live r' name ≡ server.live r name)
            × (server.member set_name r' name ≡ server.member set_name r name))

  -- Alone and with no failure, delMany of a store with a tracking set finishes, on a cluster and on
  -- a standalone server, and removes exactly the entries of these keys and their members.
  pub del_many_lem :
      (keys : List Text) (r : R)
      → tracked_namespace store ≡ some namespace
      → (t : Thread) × (del_many store keys ≡ by_commands t) × Deleted keys t r
  unfolding del_many
  del_many_lem [] r sets =
      (finished, refl, (r, Runs.stops r, λ key. (refl, refl), λ name other. (refl, refl)))
  del_many_lem (k ∷ keys) r sets =
      let prefix = prefix_of namespace in
      let names = map (◌++◌ prefix) (k ∷ keys) in
      let (r', runs, live, member) =
        start_del_many_lem server obeys store set_name store.is_cluster names r in
      (
        start_del_many store.is_cluster names,
        rw (sets, del_many) refl,
        (
          r',
          runs,
          λ key. (
            live (prefix ++ key)
                ∙ ap (λ b. not b && server.live r (prefix ++ key))
                    (has-prefixed prefix key (k ∷ keys)),
            member (prefix ++ key)
                ∙ ap (λ b. not b && server.member set_name r (prefix ++ key))
                    (has-prefixed prefix key (k ∷ keys)),
          ),
          λ name other. (
            live name
                ∙ ap (λ b. not b && server.live r name)
                    (has-prefixed_other prefix name (k ∷ keys) other),
            member name
                ∙ ap (λ b. not b && server.member set_name r name)
                    (has-prefixed_other prefix name (k ∷ keys) other),
          ),
        ),
      )
