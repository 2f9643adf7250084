-- ===== src/Purging/Written.antt =====
-- packages/plugin-rest-cache/server/src/utils/middlewares/registerDocumentServiceMiddleware.ts: what is
-- in the cache when a write returns.
use mathlib.Core.Path.{ap₂, subst}
use plugin_rest_cache.Prelude.{◌≡◌, refl, sym, ap, ◌∙◌, Bool, true, Option, some, List, ◌∷◌, Text}
use plugin_rest_cache.Outcome.{Outcome, resolved}
use plugin_rest_cache.Purging.{
  CacheContentTypeConfig, CachePluginStrategy, get, is_cached, uid_regexps, clear_by_uid,
}
use plugin_rest_cache.Purging.Cleared.{after_clear, clear_by_uid_lem}
use plugin_rest_cache.Patterns.{Params}
use plugin_rest_cache.Purging.Scope.{
  IsWrite, IsWrite-has, Writes, Scopes, resolve_document_id-Writes, document_params-Scopes,
}
use plugin_rest_cache.Purging.Triggers.{
  write_actions, DocumentServiceContext, resolve_document_id, State, document_params, Call,
  purge_uid, purge_after, document_service_middleware,
}
use plugin_rest_cache.Related.{TraversableSchema}
use plugin_rest_cache.Store.{CacheStore}
use plugin_rest_cache.Store.Clearing.{Leaves, serving}
use plugin_rest_cache.Store.Contract.{Provider}
use plugin_rest_cache.Store.Lawful.{Lawful}
use plugin_rest_cache.Store.Listing.{has}
use plugin_rest_cache.Store.Log.{Purges, RegExp}

module _ {P : Type 0} (api : Provider P) (lawful : Lawful api) (prefix : Text) where
  open lawful use {view}

  -- The service is usable, with a provider that holds these entries.
  pub record Holds (entries : Text → Option Text) (store : CacheStore P) : Type 0 where
    pub provider : P
    pub kept : store.provider ≡ some provider
    pub is_ready : api.ready provider ≡ true
    pub entry : (j : Text) → view provider j ≡ entries j

  pub Leaves-Holds :
      {g : Purges} {entries : Text → Option Text} {done : Outcome (Unit {0}) × CacheStore P}
      → Leaves api lawful prefix g entries done
      → Holds entries done.1
  Leaves-Holds l = record {
    provider = l.provider;
    kept = l.kept;
    is_ready = l.is_ready;
    entry = l.entry;
  }

  pub Holds-same :
      {entries : Text → Option Text} {store store' : CacheStore P}
      → store ≡ store'
      → Holds entries store'
      → Holds entries store
  Holds-same {entries} same h = subst (Holds entries) (sym same) h

  module _ {W : Type 0} (compile : Text → Option RegExp) (strategy : CachePluginStrategy)
      (components content_types : List TraversableSchema) where
    pub middleware_returns :
        (ctx : DocumentServiceContext) (next : Call P W) (in_progress : List Text)
        (s s' : State P W) (result : Option Text)
        → has write_actions ctx.action ≡ true
        → next (ctx.uid ∷ in_progress) s ≡ (resolved result, s')
        → document_service_middleware compile strategy components content_types api prefix ctx next
            in_progress s
          ≡ (
            resolved result,
            purge_after compile strategy components content_types api prefix ctx result s',
          )
    unfolding document_service_middleware
    middleware_returns ctx next in_progress s s' result write ran =
        rw (write, document_service_middleware, ap (λ x. x.0) ran, ap (λ x. x.1) ran) refl

    purged_store :
        (ctx : DocumentServiceContext) (result : Option Text) (s : State P W)
        (conf : CacheContentTypeConfig)
        → get strategy ctx.uid ≡ some conf
        → (purge_after compile strategy components content_types api prefix ctx result s).store
          ≡ (clear_by_uid compile strategy api prefix ctx.uid
              (some (document_params (resolve_document_id ctx result)).0)
              (document_params (resolve_document_id ctx result)).1
              s.store).1
    unfolding purge_after purge_uid is_cached
    purged_store ctx result s conf found = rw (found, purge_after, is_cached) refl

    -- When a write to a cached content type returns, it gives what the write gave, and the cache
    -- holds no entry of a key that belongs to the type's GET routes with the id of the document as
    -- `id`, or with any parameters if the id is missing or empty, nor to a related type if those
    -- are cleared; all else is as the write left it. The document is the one that a create or clone
    -- gives and the one that any other write names. The provider keeps its laws and is ready, and
    -- every pattern compiles.
    pub document_service_middleware-cached :
        (ctx : DocumentServiceContext) (next : Call P W) (in_progress : List Text)
        (s s' : State P W) (result id : Option Text) (params : Option Params) (wildcard : Bool)
        (conf : CacheContentTypeConfig) (p : P) (g : Purges) (reg_exps : List RegExp)
        → IsWrite ctx.action
        → get strategy ctx.uid ≡ some conf
        → Writes ctx result id
        → Scopes id params wildcard
        → next (ctx.uid ∷ in_progress) s ≡ (resolved result, s')
        → s'.store ≡ serving api lawful prefix p g
        → api.ready p ≡ true
        → uid_regexps compile strategy conf ctx.uid params wildcard ≡ some reg_exps
        → ((document_service_middleware compile strategy components content_types api prefix ctx
              next in_progress s).0
            ≡ resolved result)
          × Holds
              (after_clear api lawful prefix compile strategy conf params wildcard (view p))
              (document_service_middleware compile strategy components content_types api prefix ctx
                next in_progress s).1.store
    document_service_middleware-cached ctx next in_progress s s' result id params wildcard conf p g
          reg_exps write found writes scopes ran at_store r compiled =
        let known = resolve_document_id-Writes ctx result id writes in
        let (given, wild) = document_params-Scopes id params wildcard scopes in
        let returned =
          middleware_returns ctx next in_progress s s' result (IsWrite-has ctx.action write) ran in
        let stored : (purge_after compile strategy components content_types api prefix ctx result
              s').store
            ≡ (clear_by_uid compile strategy api prefix ctx.uid params wildcard
                (serving api lawful prefix p g)).1 =
          purged_store ctx result s' conf found
          ∙ ap
              (λ d.
                (clear_by_uid compile strategy api prefix ctx.uid (some (document_params d).0)
                  (document_params d).1 s'.store).1)
              known
          ∙ ap₂
              (λ given wild.
                (clear_by_uid compile strategy api prefix ctx.uid given wild s'.store).1)
              given wild
          ∙ ap (λ store. (clear_by_uid compile strategy api prefix ctx.uid params wildcard store).1)
              at_store in
        (
          ap (λ x. x.0) returned,
          Holds-same (ap (λ x. x.1.store) returned ∙ stored) (
              Leaves-Holds (
                clear_by_uid_lem api lawful prefix compile strategy conf ctx.uid params wildcard
                  reg_exps p g found compiled r)),
        )
