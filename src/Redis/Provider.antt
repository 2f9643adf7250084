-- ===== src/Redis/Provider.antt =====
-- packages/provider-rest-cache-redis/src/RedisCacheProvider.ts: the class, and the pacing of prunes.
use plugin_rest_cache.Prelude.{
  ℕ, ◌+◌, Bool, true, false, ◌&&◌, ◌||◌, not, Option, none, some, List, [], ◌∷◌, ◌++◌, map, ltb,
  if◌then◌else◌, Text,
}
use plugin_rest_cache.Outcome.{Outcome, resolved, rejected}
use plugin_rest_cache.Redis.{KeyvRedisStore, Thread, start_del_many, finished}
use plugin_rest_cache.Redis.Names.{prefix_of, truthy}

-- What a call of delMany or clear does: the commands of a thread, or a call of the cache manager.
pub data Plan : Type 0 where
  by_commands : Thread → Plan
  by_mdel : List Text → Plan
  by_clear : Plan
  -- `await this.delMany(await this.keys())`, where keys() rejects
  gives_up : Plan

-- The namespace, if the store has a client and keeps a tracking set.
unfoldable pub tracked_namespace : KeyvRedisStore → Option Text
tracked_namespace store = elim (truthy store.tracking_set) [
  | none ↦ none
  | some set_name ↦
      if store.has_client && store.use_redis_sets then truthy store.namespace else none
]

unfoldable pub del_many : KeyvRedisStore → List Text → Plan
unfolding tracked_namespace prefix_of
del_many store [] = by_commands finished
del_many store (key ∷ keys) = elim (tracked_namespace store) [
  | some namespace ↦
      by_commands (start_del_many store.is_cluster (map (◌++◌ (prefix_of namespace)) (key ∷ keys)))
  | none ↦ by_mdel (key ∷ keys)
]

-- clear(), given what keys() answers.
unfoldable pub clear : KeyvRedisStore → Outcome (List Text) → Plan
unfolding del_many
clear store listed =
    if store.has_client && store.is_cluster
    then (elim listed [ resolved keys ↦ del_many store keys | rejected ↦ gives_up ])
    else by_clear

-- PRUNE_INTERVAL
abbrev pub prune_interval : ℕ
prune_interval = 300000

-- When the last pass was started, none for -Infinity, and if one is running.
pub record PruneState : Type 0 where
  pub last_started : Option ℕ
  pub running : Bool

abbrev pub prune_state : PruneState
prune_state = record { last_started = none; running = false }

-- `Date.now() - state.lastStarted < interval`
unfoldable pub too_soon : ℕ → ℕ → Option ℕ → Bool
too_soon interval now none = false
too_soon interval now (some last) = ltb now (last + interval)

-- The members of the client and of the store that a prune calls.
pub record Prunable : Type 0 where
  pub has_sscan : Bool
  pub has_exists : Bool
  pub has_srem : Bool
  pub has_sadd : Bool

unfoldable pub prunable : KeyvRedisStore → Prunable → Bool
prunable store p = elim store.tracking_set [
  | none ↦ false
  | some _ ↦ elim (truthy store.namespace) [
    | none ↦ false
    | some _ ↦
        store.use_redis_sets
        && (store.has_client && (p.has_sscan && (p.has_exists && (p.has_srem && p.has_sadd))))
  ]
]

-- The new state, and whether a pass is started.
unfoldable pub start_prune : Bool → ℕ → ℕ → PruneState → PruneState × Bool
unfolding too_soon
start_prune can_prune interval now state =
    if not can_prune || (state.running || too_soon interval now state.last_started)
    then (state, false)
    else (record { last_started = some now; running = true }, true)

-- `.finally(() => { state.running = null; })`
unfoldable pub finish_prune : PruneState → PruneState
finish_prune state = record state { running = false }
