-- ===== src/Purging/Pages.antt =====
-- packages/plugin-rest-cache/server/src/utils/middlewares/registerDocumentServiceMiddleware.ts: the requests
-- that are not answered from the cache when a write returns.
use mathlib.Core.List.{Memᴰ}
use mathlib.Core.Option
use plugin_rest_cache.Prelude.{
  ◌<◌, ◌≡◌, ap, ◌∙◌, Bool, true, false, ◌&&◌, ◌||◌, Option, none, some, List, [], ◌∷◌, ◌++◌, map,
  arith, if_true, length, any, any-of_Mem, All, Text, lit, starts_with-append, drop-append, Free,
}
use plugin_rest_cache.Context.{Request, to_lower_case}
use plugin_rest_cache.Keys.{generate_cache_key}
use plugin_rest_cache.Keys.Config.{CacheKeysConfig}
use plugin_rest_cache.Keys.Path.{request_path}
use plugin_rest_cache.Keys.Paths.{request_path-Free}
use plugin_rest_cache.Outcome.{resolved}
use plugin_rest_cache.Patterns.{Params, get_route_reg_exp}
use plugin_rest_cache.Patterns.Exact.{given_at}
use plugin_rest_cache.Patterns.Given.{IsValue, filled}
use plugin_rest_cache.Patterns.Matcher.{reg_exp}
use plugin_rest_cache.Patterns.Pieces.{raw, pieces}
use plugin_rest_cache.Patterns.Serving.{Serves, wildcard_at, whole_route_at}
use plugin_rest_cache.Patterns.Sources.{IsPlain, has_empty_segment}
use plugin_rest_cache.Patterns.Values.{array_from}
use plugin_rest_cache.Purging.{CacheContentTypeConfig, CachePluginStrategy, get, uid_regexps}
use plugin_rest_cache.Purging.Cleared.{after_clear}
use plugin_rest_cache.Purging.Matched.{accepts, meant}
use plugin_rest_cache.Purging.Scope.{IsWrite, Writes, Scopes, document, unnamed, unknown}
use plugin_rest_cache.Purging.Triggers.{
  DocumentServiceContext, State, Call, document_service_middleware,
}
use plugin_rest_cache.Purging.Written.{document_service_middleware-cached}
use plugin_rest_cache.Related.{TraversableSchema}
use plugin_rest_cache.Response.Decisions.{CacheRouteConfig, is_get}
use plugin_rest_cache.Store.Clearing.{serving}
use plugin_rest_cache.Store.{CacheStore, read_entry}
use plugin_rest_cache.Store.Reading.{read_entry-none}
use plugin_rest_cache.Store.Contract.{Provider}
use plugin_rest_cache.Store.Lawful.{Lawful}
use plugin_rest_cache.Store.Log.{Purges, RegExp}

-- A request path of a plain route that can show a document: the route's own path, the path with the id in
-- it, or any path of the route if the id is not known.
pub data Shows (route : CacheRouteConfig) (path : Text) : Option Text → Type 0 where
  list :
      (id : Option Text)
      → route.param_names ≡ []
      → All IsPlain (map raw route.path)
      → path ≡ to_lower_case route.path
      → Shows route path id
  page :
      (id : Text)
      → IsValue id
      → 0 < length route.param_names
      → All IsPlain (pieces route.path)
      → has_empty_segment (pieces route.path) ≡ false
      → Option.map to_lower_case (filled ((lit "id", id) ∷ []) (pieces route.path)) ≡ some path
      → Shows route path (some id)
  any_page :
      0 < length route.param_names
      → All IsPlain (pieces route.path)
      → has_empty_segment (pieces route.path) ≡ false
      → Serves (pieces route.path) path
      → Shows route path none

true_or : (a b : Bool) → a ≡ true → (a || b) ≡ true
true_or a b h = ground arith

both_true : (a b : Bool) → a ≡ true → b ≡ true → (a && b) ≡ true
both_true a b h k = ground arith

module _ (other : Text → Option RegExp) (route : CacheRouteConfig) (path tail : Text)
    (free : Free b'?' path) where
  -- The purge of a document clears what shows it.
  accepts-Shows :
      (id : Option Text) (params : Option Params) (wildcard : Bool)
      → Scopes id params wildcard
      → Shows route path id
      → any
          (accepts (reg_exp other) (path ++ b'?' ∷ tail))
          (get_route_reg_exp route params wildcard)
        ≡ true
  unfolding array_from
  accepts-Shows id params wildcard scopes (list _ named plain e) =
      (whole_route_at other route params wildcard path tail named plain free).1 e
  accepts-Shows _ _ _ (document id apart) (page _ value named plain whole e) =
      (given_at other route ((lit "id", id) ∷ []) path tail named plain whole (value, tt) free).1 e
  accepts-Shows _ _ _ unnamed (page _ (long, chars) named plain whole e) = absurd (omega arith)
  accepts-Shows _ _ _ unknown (any_page named plain whole h) =
      (wildcard_at other route _ path tail named plain whole free).1 h

  meant-Shows :
      (strategy : CachePluginStrategy) (conf : CacheContentTypeConfig) (id : Option Text)
      (params : Option Params) (wildcard : Bool)
      → Memᴰ route conf.routes
      → is_get route.method ≡ true
      → Scopes id params wildcard
      → Shows route path id
      → meant (reg_exp other) strategy conf params wildcard (path ++ b'?' ∷ tail) ≡ true
  meant-Shows strategy conf id params wildcard m g scopes h = true_or _ _ (
      any-of_Mem _ route conf.routes m
        (both_true _ _ g (accepts-Shows id params wildcard scopes h)))

module _ {P : Type 0} (api : Provider P) (lawful : Lawful api) (prefix : Text)
    (other : Text → Option RegExp) (strategy : CachePluginStrategy)
    (components content_types : List TraversableSchema) where
  open lawful use {view}

  cleared_key :
      (conf : CacheContentTypeConfig) (params : Option Params) (wildcard : Bool)
      (entries : Text → Option Text) (key : Text)
      → meant (reg_exp other) strategy conf params wildcard key ≡ true
      → after_clear api lawful prefix
          (reg_exp other)
          strategy
          conf
          params
          wildcard
          entries
          (prefix ++ key)
        ≡ none
  cleared_key conf params wildcard entries key h = if_true _ _ _ (
      both_true _ _ (starts_with-append prefix key)
        (ap (meant (reg_exp other) strategy conf params wildcard) (drop-append prefix key) ∙ h))

  -- The provider is ready, and holds nothing under a path, whatever stands behind its `?`.
  pub record IsRenewed (path : Text) (store : CacheStore P) : Type 0 where
    pub provider : P
    pub kept : store.provider ≡ some provider
    pub is_ready : api.ready provider ≡ true
    pub no_entry : (tail : Text) → view provider (prefix ++ (path ++ b'?' ∷ tail)) ≡ none

  module _ {W : Type 0} (ctx : DocumentServiceContext) (next : Call P W) (in_progress : List Text)
      (s s' : State P W) (result id : Option Text) (params : Option Params) (wildcard : Bool)
      (conf : CacheContentTypeConfig) (p : P) (g : Purges) (reg_exps : List RegExp)
      (route : CacheRouteConfig) (req : Request) where
    pub document_service_middleware-IsRenewed :
        IsWrite ctx.action
        → get strategy ctx.uid ≡ some conf
        → Writes ctx result id
        → Scopes id params wildcard
        → next (ctx.uid ∷ in_progress) s ≡ (resolved result, s')
        → s'.store ≡ serving api lawful prefix p g
        → api.ready p ≡ true
        → uid_regexps (reg_exp other) strategy conf ctx.uid params wildcard ≡ some reg_exps
        → Memᴰ route conf.routes
        → is_get route.method ≡ true
        → Free b'?' req.path
        → Shows route (request_path req.path) id
        → IsRenewed
            (request_path req.path)
            (document_service_middleware
              (reg_exp other)
              strategy
              components
              content_types
              api
              prefix
              ctx
              next
              in_progress
              s).1.store
    document_service_middleware-IsRenewed write found writes scopes ran at_store r compiled m
          is_read free shows =
        let (returned, holds) =
          document_service_middleware-cached api lawful prefix (reg_exp other) strategy components
            content_types ctx next in_progress s s' result id params wildcard conf p g reg_exps
            write found writes scopes ran at_store r compiled in
        record {
          provider = holds.provider;
          kept = holds.kept;
          is_ready = holds.is_ready;
          no_entry = λ tail.
              holds.entry (prefix ++ (request_path req.path ++ b'?' ∷ tail))
              ∙ cleared_key conf _ _ (view p) (request_path req.path ++ b'?' ∷ tail) (
                  meant-Shows other route (request_path req.path) tail
                    (request_path-Free req.path free) strategy conf id params wildcard m is_read
                    scopes shows);
        }

    -- When a write to a cached content type returns, getEntry finds nothing under the key, whatever
    -- it is configured to hold, of a request for the document that was written, which is the one
    -- that a create or clone gives and the one that any other write names: for the path of a GET
    -- route of the type that has no parameter, for the path of one with the document's id in place
    -- of `id`, or, if the id is not known, for any path of one. The request's path has no question
    -- mark, the route's has no pattern syntax, constraint, modifier or empty segment, the id in it
    -- is not empty and is written alike by every client, without a `/`, the provider keeps its laws
    -- and is ready, and every pattern compiles.
    pub document_service_middleware-Shows :
        (keys : CacheKeysConfig)
        → IsWrite ctx.action
        → get strategy ctx.uid ≡ some conf
        → Writes ctx result id
        → Scopes id params wildcard
        → next (ctx.uid ∷ in_progress) s ≡ (resolved result, s')
        → s'.store ≡ serving api lawful prefix p g
        → api.ready p ≡ true
        → uid_regexps (reg_exp other) strategy conf ctx.uid params wildcard ≡ some reg_exps
        → Memᴰ route conf.routes
        → is_get route.method ≡ true
        → Free b'?' req.path
        → Shows route (request_path req.path) id
        → (read_entry api prefix
            (generate_cache_key req keys)
            (document_service_middleware
              (reg_exp other)
              strategy
              components
              content_types
              api
              prefix
              ctx
              next
              in_progress
              s).1.store).0
          ≡ none
    unfolding generate_cache_key
    document_service_middleware-Shows keys write found writes scopes ran at_store r compiled m
          is_read free shows =
        let renewed =
          document_service_middleware-IsRenewed write found writes scopes ran at_store r compiled m
            is_read free shows in
        read_entry-none api lawful prefix (generate_cache_key req keys) renewed.provider _
          renewed.kept renewed.is_ready (renewed.no_entry _)
