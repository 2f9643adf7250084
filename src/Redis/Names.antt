-- ===== src/Redis/Names.antt =====
-- packages/provider-rest-cache-redis/src/RedisCacheProvider.ts: keys().
use plugin_rest_cache.Prelude.{
  ℕ, zero, suc, true, false, Option, none, some, List, [], ◌∷◌, ◌++◌, map, if◌then◌else◌, length,
  drop, Text, lit, text_eq, starts_with,
}
use mathlib.Core.Option
use plugin_rest_cache.Outcome.{Outcome, resolved, rejected}
use plugin_rest_cache.Redis.{KeyvRedisStore}

-- The calls that list: SMEMBERS, one page of SCAN on a node, the masters, and the store's iterator.
pub record Listings (R : Type 0) : Type 0 where
  pub smembers : Text → R → Outcome (List Text)
  pub scan : ℕ → Text → Text → R → Outcome (Text × List Text)
  pub masters : List ℕ
  pub iterated : R → Outcome (List Text)

-- `${namespace}:`
unfoldable pub prefix_of : Text → Text
prefix_of namespace = namespace ++ b':' ∷ []

-- `key.startsWith(prefix) ? key.slice(prefix.length) : key`
unfoldable pub unqualified : Text → Text → Text
unqualified prefix key = if starts_with key prefix then drop (length prefix) key else key

-- A text that is there and not empty.
abbrev pub truthy : Option Text → Option Text
truthy (some (c ∷ t)) = some (c ∷ t)
truthy _ = none

-- `sets:${namespace}:`
unfoldable pub named : Text → Text
named set_name = lit "sets:" ++ (set_name ++ b':' ∷ [])

-- The node that a standalone client is.
abbrev pub own_node : ℕ
own_node = 0

-- Two listings one after the other.
unfoldable pub also : Outcome (List Text) → Outcome (List Text) → Outcome (List Text)
also (resolved xs) (resolved ys) = resolved (xs ++ ys)
also (resolved _) rejected = rejected
also rejected _ = rejected

abbrev pub renamed : (Text → Text) → Outcome (List Text) → Outcome (List Text)
renamed f (resolved names) = resolved (map f names)
renamed f rejected = rejected

-- `key.slice(named.length)`, and then the prefix.
unfoldable pub logical_name : Text → Text → Text → Text
unfolding named unqualified prefix_of
logical_name namespace set_name key =
    unqualified (prefix_of namespace) (drop (length (named set_name)) key)

module _ {R : Type 0} (listings : Listings R) where
  -- The loop over the pages of a node, on fuel; without fuel it has not come to an end.
  unfoldable pub scan_node : ℕ → ℕ → Text → Text → R → Option (Outcome (List Text))
  unfolding also
  scan_node zero node pattern cursor r = none
  scan_node (suc f) node pattern cursor r = elim (listings.scan node cursor pattern r) [
    | rejected ↦ some rejected
    | resolved (next, batch) ↦ elim (text_eq next (lit "0")) [
      | true ↦ some (resolved batch)
      | false ↦ Option.map (also (resolved batch)) (scan_node f node pattern next r)
    ]
  ]

  unfoldable pub scan_nodes : ℕ → Text → List ℕ → R → Option (Outcome (List Text))
  unfolding also scan_node
  scan_nodes f pattern [] r = some (resolved [])
  scan_nodes f pattern (node ∷ nodes) r = elim (scan_node f node pattern (lit "0") r) [
    | none ↦ none
    | some rejected ↦ some rejected
    | some (resolved found) ↦ Option.map (also (resolved found)) (scan_nodes f pattern nodes r)
  ]

  abbrev pub nodes_of : KeyvRedisStore → List ℕ
  nodes_of store = if store.is_cluster then listings.masters else own_node ∷ []

  -- Where there is no tracking set the entries are found by their names.
  unfoldable pub scanned_keys : ℕ → KeyvRedisStore → Text → Text → R → Option (Outcome (List Text))
  unfolding scan_nodes logical_name
  scanned_keys f store namespace set_name r =
      Option.map (renamed (logical_name namespace set_name))
        (scan_nodes f (named set_name ++ b'*' ∷ []) (nodes_of store) r)

  unfoldable pub set_keys : Text → Text → R → Outcome (List Text)
  unfolding unqualified prefix_of
  set_keys namespace set_name r =
      renamed (unqualified (prefix_of namespace)) (listings.smembers set_name r)

  -- The three branches; the store has a client, a namespace and the name of a set, or it has not.
  unfoldable pub keys : ℕ → KeyvRedisStore → R → Option (Outcome (List Text))
  unfolding scanned_keys set_keys
  keys f store r = elim (if store.has_client then truthy store.namespace else none) [
    | none ↦ some (listings.iterated r)
    | some namespace ↦ elim (truthy store.tracking_set) [
      | none ↦ some (listings.iterated r)
      | some set_name ↦
          if store.use_redis_sets
          then some (set_keys namespace set_name r)
          else scanned_keys f store namespace set_name r
    ]
  ]
