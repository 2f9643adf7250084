-- ===== src/Purging.antt =====
-- packages/plugin-rest-cache/server/src/services/cacheConfig.ts, and clearByUid of
-- services/cacheStore.ts: which patterns a purge of a content type has.
pub mod Triggers
pub mod Scope
pub mod Requests
pub mod Matched
pub mod Cleared
pub mod Written
pub mod Pages
pub mod Embedded
pub mod Lifecycle
use plugin_rest_cache.Prelude.{
  Bool, true, false, Option, none, some, List, [], ◌∷◌, ◌++◌, map, if◌then◌else◌, filter, find,
  Text, text_eq,
}
use plugin_rest_cache.Outcome.{Outcome, resolved, rejected}
use plugin_rest_cache.Patterns.{Params, get_route_reg_exp}
use plugin_rest_cache.Response.Decisions.{CacheRouteConfig, is_get}
use plugin_rest_cache.Store.{CacheStore, clear_by_regexp}
use plugin_rest_cache.Store.Contract.{Provider}
use plugin_rest_cache.Store.Listing.{has}
use plugin_rest_cache.Store.Log.{RegExp}

-- What the purges and the wiring read of a content type's configuration and of the strategy.
pub record CacheContentTypeConfig : Type 0 where
  pub content_type : Text
  pub routes : List CacheRouteConfig
  pub related_content_type_uid : List Text

pub record CachePluginStrategy : Type 0 where
  pub content_types : List CacheContentTypeConfig
  pub clear_related_cache : Bool
  pub enable_content_api_purge : Bool
  pub enable_admin_ctb_middleware : Bool
  pub enable_document_service_middleware : Bool

module _ (strategy : CachePluginStrategy) where
  unfoldable pub get_uids : List Text
  get_uids = map (λ (conf : CacheContentTypeConfig). conf.content_type) strategy.content_types

  unfoldable pub get : Text → Option CacheContentTypeConfig
  get uid = find (λ conf. text_eq conf.content_type uid) strategy.content_types

  unfoldable pub is_cached : Text → Bool
  unfolding get
  is_cached uid = elim (get uid) [ none ↦ false | some _ ↦ true ]

  unfoldable pub get_related_cached_uid : Text → List Text
  unfolding get get_uids
  get_related_cached_uid uid = elim (get uid) [
    | none ↦ []
    | some conf ↦ filter (has get_uids) conf.related_content_type_uid
  ]

-- The sources of the patterns of some routes.
unfoldable pub route_sources : List CacheRouteConfig → Option Params → Bool → List Text
unfolding get_route_reg_exp
route_sources [] params wildcard = []
route_sources (route ∷ routes) params wildcard =
    get_route_reg_exp route params wildcard ++ route_sources routes params wildcard

-- `routes.filter((route) => route.method === 'GET')`
abbrev pub get_routes : CacheContentTypeConfig → List CacheRouteConfig
get_routes conf = filter (λ route. is_get route.method) conf.routes

-- `new RegExp(source)` for each, of which one may throw.
unfoldable pub compile_all : (Text → Option RegExp) → List Text → Option (List RegExp)
compile_all compile [] = some []
compile_all compile (source ∷ sources) = elim (compile source) [
  | none ↦ none
  | some r ↦ elim (compile_all compile sources) [ none ↦ none | some rs ↦ some (r ∷ rs) ]
]

-- The `RegExp` constructor; none where it throws.
module _ (compile : Text → Option RegExp) (strategy : CachePluginStrategy) where
  unfoldable pub get_cache_keys_regexp : Text → Option Params → Bool → Option (List RegExp)
  unfolding get route_sources compile_all
  get_cache_keys_regexp uid params wildcard = elim (get strategy uid) [
    | none ↦ some []
    | some conf ↦ compile_all compile (route_sources (get_routes conf) params wildcard)
  ]

  -- The loop over the related content types.
  unfoldable pub related_regexps : List Text → Option (List RegExp)
  unfolding get_cache_keys_regexp is_cached
  related_regexps [] = some []
  related_regexps (uid ∷ uids) =
      elim (if is_cached strategy uid then get_cache_keys_regexp uid (some []) true else some []) [
        | none ↦ none
        | some here ↦ elim (related_regexps uids) [
          | none ↦ none
          | some later ↦ some (here ++ later)
        ]
      ]

  -- The patterns of a purge of a content type; none where a pattern throws.
  unfoldable pub uid_regexps :
      CacheContentTypeConfig → Text → Option Params → Bool → Option (List RegExp)
  unfolding related_regexps
  uid_regexps conf uid params wildcard = elim (get_cache_keys_regexp uid params wildcard) [
    | none ↦ none
    | some own ↦
        if strategy.clear_related_cache
        then (elim (related_regexps conf.related_content_type_uid) [
          | none ↦ none
          | some related ↦ some (own ++ related)
        ])
        else some own
  ]

  module _ {P : Type 0} (api : Provider P) (keys_prefix : Text) where
    unfoldable pub clear_by_uid :
        Text → Option Params → Bool → CacheStore P → Outcome (Unit {0}) × CacheStore P
    unfolding uid_regexps
    clear_by_uid uid params wildcard s = elim (get strategy uid) [
      | none ↦ (rejected, s)
      | some conf ↦ elim (uid_regexps conf uid params wildcard) [
        | none ↦ (rejected, s)
        | some reg_exps ↦ clear_by_regexp api keys_prefix reg_exps s
      ]
    ]

    -- `clearCache`, which is deprecated: the purge is not awaited.
    unfoldable pub clear_cache :
        Text → Option Params → Bool → CacheStore P → Outcome (Unit {0}) × CacheStore P
    unfolding clear_by_uid
    clear_cache uid params wildcard s = (resolved tt, (clear_by_uid uid params wildcard s).1)
