-- ===== src/Purging/Requests.antt =====
-- packages/plugin-rest-cache/server/src: middlewares/purge.ts and purgeAdmin.ts, controllers/purge.ts.
use plugin_rest_cache.Prelude.{
  ℕ, Bool, false, ◌&&◌, Option, none, some, [], ◌∷◌, leb, if◌then◌else◌, Text, lit,
}
use plugin_rest_cache.Outcome.{Outcome, resolved, rejected}
use plugin_rest_cache.Patterns.{Params}
use plugin_rest_cache.Purging.{CachePluginStrategy, is_cached, clear_by_uid}
use plugin_rest_cache.Store.{CacheStore}
use plugin_rest_cache.Store.Contract.{Provider}
use plugin_rest_cache.Store.Log.{RegExp}

-- `ctx.status >= 200 && ctx.status <= 300`
unfoldable pub succeeded : ℕ → Bool
succeeded status = leb 200 status && leb status 300

-- What a purge controller answers.
pub data Answer : Type 0 where
  bad_request : Text → Answer
  not_found emptied failed : Answer

-- The body of a request to purge.
pub record PurgeRequestBody : Type 0 where
  pub content_type : Option Text
  pub params : Option (Option Params)
  pub wildcard : Option Bool

abbrev pub Purged : Type 0 → Type 0
Purged P = Outcome (Unit {0}) × CacheStore P

abbrev pub answer_of : {P : Type 0} → Purged P → Answer × CacheStore P
answer_of (resolved _, store) = (emptied, store)
answer_of (rejected, store) = (failed, store)

-- A default stands for undefined, and not for null.
abbrev pub default_params : Option (Option Params) → Option Params
default_params none = some []
default_params (some params) = params

abbrev pub default_wildcard : Option Bool → Bool
default_wildcard none = false
default_wildcard (some b) = b

-- It is not made without a content type, nor for one that is not cached.
unfoldable pub create_purge : CachePluginStrategy → Option Text → Option Text
unfolding is_cached
create_purge strategy (some (c ∷ uid)) =
    if is_cached strategy (c ∷ uid) then some (c ∷ uid) else none
create_purge strategy _ = none

module _ {P : Type 0} (compile : Text → Option RegExp) (strategy : CachePluginStrategy)
    (api : Provider P) (keys_prefix : Text) where
  -- The route middleware after `next`, with the status it left; the error of a purge is passed on.
  unfoldable pub purge : Text → ℕ → Option Params → CacheStore P → Purged P
  unfolding succeeded
  purge content_type status params store =
      if succeeded status
      then clear_by_uid compile strategy api keys_prefix content_type params false store
      else (resolved tt, store)

  -- The middleware of the admin's routes: `model` is the content type.
  unfoldable pub purge_admin : Option Text → ℕ → Params → CacheStore P → Purged P
  unfolding purge is_cached
  purge_admin (some (c ∷ uid)) status params store =
      if is_cached strategy (c ∷ uid)
      then purge (c ∷ uid) status (some params) store
      else (resolved tt, store)
  purge_admin _ status params store = (resolved tt, store)

  -- The controller behind the admin's authentication.
  unfoldable pub index : PurgeRequestBody → CacheStore P → Answer × CacheStore P
  unfolding is_cached
  index body store = elim body.content_type [
    | some (c ∷ uid) ↦
        if is_cached strategy (c ∷ uid)
        then answer_of (
            clear_by_uid compile strategy api keys_prefix (c ∷ uid) (default_params body.params)
              (default_wildcard body.wildcard) store)
        else (bad_request (lit "contentType is not cached"), store)
    | _ ↦ (bad_request (lit "contentType is required"), store)
  ]

  -- The controller of the content API, which is off by default.
  unfoldable pub content_api : PurgeRequestBody → CacheStore P → Answer × CacheStore P
  unfolding index
  content_api body store =
      if strategy.enable_content_api_purge then index body store else (not_found, store)
