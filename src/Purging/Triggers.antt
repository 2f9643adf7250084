-- ===== src/Purging/Triggers.antt =====
-- packages/plugin-rest-cache/server/src: which writes purge. utils/middlewares/registerDocumentServiceMiddleware.ts
-- and registerDatabaseLifecyclePurge.ts.
use plugin_rest_cache.Prelude.{
  ℕ, Bool, true, false, ◌&&◌, ◌||◌, not, Option, none, some, List, [], ◌∷◌, ◌++◌, ◌==◌,
  if◌then◌else◌, filter, Text, lit, text_eq, starts_with,
}
use plugin_rest_cache.Keys.Config.{default_to}
use plugin_rest_cache.Outcome.{Outcome, resolved, rejected}
use plugin_rest_cache.Patterns.{Params}
use plugin_rest_cache.Purging.{
  CachePluginStrategy, get_uids, is_cached, get_cache_keys_regexp, clear_by_uid,
}
use plugin_rest_cache.Related.{TraversableSchema, get_related_models_uid}
use plugin_rest_cache.Store.{CacheStore, clear_by_regexp}
use plugin_rest_cache.Store.Contract.{Provider}
use plugin_rest_cache.Store.Listing.{has}
use plugin_rest_cache.Store.Log.{RegExp}

-- WRITE_ACTIONS
abbrev pub write_actions : List Text
write_actions =
    lit "create"
    ∷ lit "clone"
    ∷ lit "update"
    ∷ lit "delete"
    ∷ lit "publish"
    ∷ lit "unpublish"
    ∷ lit "discardDraft"
    ∷ []

-- `document_id` is that of the params, none where there is none.
pub record DocumentServiceContext : Type 0 where
  pub action : Text
  pub uid : Text
  pub document_id : Option Text

-- A write's result, by its documentId.
unfoldable pub resolve_document_id : DocumentServiceContext → Option Text → Option Text
resolve_document_id ctx result =
    if text_eq ctx.action (lit "create") || text_eq ctx.action (lit "clone")
    then result
    else ctx.document_id

-- The store, the lists that `embeddedIn` holds, and all else that a write changes.
pub record State (P W : Type 0) : Type 0 where
  pub store : CacheStore P
  pub embedded_in : List (Text × List Text)
  pub world : W

unfoldable pub lookup : Text → List (Text × List Text) → Option (List Text)
lookup uid [] = none
lookup uid ((u, uids) ∷ m) = let later = lookup uid m in if text_eq uid u then some uids else later

-- An event of `strapi.db.lifecycles`, with the `count` of its result.
pub record LifecycleEvent : Type 0 where
  pub action : Text
  pub uid : Text
  pub count : Option ℕ

-- `s.endsWith(t)`
unfoldable pub ends_with : Text → Text → Bool
ends_with [] t = text_eq [] t
ends_with (c ∷ s) t = text_eq (c ∷ s) t || ends_with s t

-- `event.action.endsWith('Many') && event.result?.count === 0`
unfoldable pub touched_nothing : LifecycleEvent → Bool
unfolding ends_with
touched_nothing event = elim event.count [
  | none ↦ false
  | some n ↦ ends_with event.action (lit "Many") && n == 0
]

-- A documentId, or nothing for none and for an empty one.
abbrev pub document_params : Option Text → Params × Bool
document_params (some (c ∷ id)) = ((lit "id", c ∷ id) ∷ [], false)
document_params _ = ([], true)

-- The content types whose lifecycles are subscribed to.
unfoldable pub lifecycle_models : CachePluginStrategy → List Text
unfolding get_uids
lifecycle_models strategy = filter (λ uid. starts_with uid (lit "plugin::")) (get_uids strategy)

-- A call in the scope of some writes, with the documentId of what it gives.
abbrev pub Call : Type 0 → Type 0 → Type 0
Call P W = List Text → State P W → Outcome (Option Text) × State P W

abbrev pub with_store : {P W : Type 0} → State P W → CacheStore P → State P W
with_store s store = record s { store = store }

module _ (compile : Text → Option RegExp) (strategy : CachePluginStrategy)
    (components content_types : List TraversableSchema) where
  -- The other cached content types whose responses can embed this one; the search ends.
  unfoldable pub embedding : Text → List Text
  unfolding is_cached
  embedding uid =
      filter (λ related. not (text_eq related uid) && is_cached strategy related)
        (default_to [] (get_related_models_uid true components content_types uid))

  -- `cachedTypesEmbedding`, which computes a list once.
  unfoldable pub cached_types_embedding :
      Text → List (Text × List Text) → List Text × List (Text × List Text)
  unfolding embedding lookup
  cached_types_embedding uid embedded_in = elim (lookup uid embedded_in) [
    | some uids ↦ (uids, embedded_in)
    | none ↦ (embedding uid, (uid, embedding uid) ∷ embedded_in)
  ]

  -- `related.flatMap(...)`; none where a pattern throws.
  unfoldable pub wildcard_regexps : List Text → Option (List RegExp)
  wildcard_regexps [] = some []
  wildcard_regexps (uid ∷ uids) = elim (get_cache_keys_regexp compile strategy uid (some []) true) [
    | none ↦ none
    | some here ↦ elim (wildcard_regexps uids) [ none ↦ none | some later ↦ some (here ++ later) ]
  ]

  module _ {P W : Type 0} (api : Provider P) (keys_prefix : Text) where
    -- The wildcard purge of some content types; a failure is logged.
    unfoldable pub purge_related : List Text → State P W → State P W
    unfolding wildcard_regexps
    purge_related [] s = s
    purge_related (uid ∷ uids) s = elim (wildcard_regexps (uid ∷ uids)) [
      | none ↦ s
      | some reg_exps ↦ with_store s (clear_by_regexp api keys_prefix reg_exps s.store).1
    ]

    -- The purge of what embeds an uncached content type.
    unfoldable pub purge_embedding : Text → State P W → State P W
    unfolding cached_types_embedding purge_related
    purge_embedding uid s =
        let (related, embedded_in) = cached_types_embedding uid s.embedded_in in
        purge_related related (record s { embedded_in = embedded_in })

    -- The purge of a cached content type; a failure is logged.
    unfoldable pub purge_uid : Text → Params × Bool → State P W → State P W
    purge_uid uid (params, wildcard) s =
        with_store s
          (clear_by_uid compile strategy api keys_prefix uid (some params) wildcard s.store).1

    unfoldable pub purge_after : DocumentServiceContext → Option Text → State P W → State P W
    unfolding purge_embedding purge_uid resolve_document_id is_cached
    purge_after ctx result s =
        if is_cached strategy ctx.uid
        then purge_uid ctx.uid (document_params (resolve_document_id ctx result)) s
        else if strategy.clear_related_cache
        then purge_embedding ctx.uid s
        else s

    -- The middleware; `in_progress` is the scope of the caller, and `next` runs in its own.
    unfoldable pub document_service_middleware : DocumentServiceContext → Call P W → Call P W
    unfolding purge_after
    document_service_middleware ctx next in_progress s =
        if has write_actions ctx.action
        then (let (outcome, s') = next (ctx.uid ∷ in_progress) s in
            elim outcome [
              | rejected ↦ (rejected, s')
              | resolved result ↦ (resolved result, purge_after ctx result s')
            ])
        else next in_progress s

    unfoldable pub lifecycle_purge : List Text → LifecycleEvent → State P W → State P W
    unfolding touched_nothing purge_uid is_cached
    lifecycle_purge in_progress event s =
        if has in_progress event.uid || not (is_cached strategy event.uid)
        then s
        else if touched_nothing event
        then s
        else purge_uid event.uid ([], true) s
