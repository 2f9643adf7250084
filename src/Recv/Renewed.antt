-- ===== src/Recv/Renewed.antt =====
-- packages/plugin-rest-cache/server/src/middlewares/recv.ts: a request for a document after a write to it.
use mathlib.Core.Path.{subst}
use mathlib.Core.List.{Memᴰ, append_assoc}
use plugin_rest_cache.Prelude.{
  Bool, ◌≡◌, sym, ap, ◌∙◌, true, Option, none, some, List, ◌∷◌, ◌++◌, Text, lit, Free,
}
use plugin_rest_cache.Context.{Request}
use plugin_rest_cache.Json.{Json}
use plugin_rest_cache.Keys.{generate_cache_key}
use plugin_rest_cache.Keys.Path.{request_path}
use plugin_rest_cache.Outcome.{resolved}
use plugin_rest_cache.Patterns.Matcher.{reg_exp}
use plugin_rest_cache.Purging.{CacheContentTypeConfig, CachePluginStrategy, get, uid_regexps}
use plugin_rest_cache.Purging.Pages.{Shows, IsRenewed, document_service_middleware-IsRenewed}
use plugin_rest_cache.Patterns.{Params}
use plugin_rest_cache.Purging.Scope.{IsWrite, Writes, Scopes}
use plugin_rest_cache.Purging.Triggers.{
  DocumentServiceContext, State, Call, document_service_middleware,
}
use plugin_rest_cache.Related.{TraversableSchema}
use plugin_rest_cache.Response.{value, Response}
use plugin_rest_cache.Response.Cacheable.{is_cacheable, cacheable}
use plugin_rest_cache.Response.Decisions.{CacheRouteConfig, is_get, should_lookup}
use plugin_rest_cache.Recv.{Server, RecvStrategy, Koa, returned}
use plugin_rest_cache.Recv.Handler.{recv}
use plugin_rest_cache.Recv.Missed.{IsCold, recv-IsFilled}
use plugin_rest_cache.Recv.Quiet.{quiet, answering, KoaLaws}
use plugin_rest_cache.Recv.Settled.{missed}
use plugin_rest_cache.Store.Clearing.{serving}
use plugin_rest_cache.Store.Contract.{Provider}
use plugin_rest_cache.Store.Lawful.{Lawful}
use plugin_rest_cache.Store.Log.{Purges, RegExp}

module _ {P : Type 0} (api : Provider P) (lawful : Lawful api) (prefix : Text)
    (other : Text → Option RegExp) (settings : CachePluginStrategy)
    (components content_types : List TraversableSchema) {koa : Koa} (laws : KoaLaws koa)
    (md5 : Text → Text) (strategy : RecvStrategy) (route : CacheRouteConfig)
    (origin : Response → Response) where
  -- Neither the entry nor the ETag of a renewed path is there.
  IsRenewed-IsCold :
      (req : Request) (server : Server P)
      → IsRenewed api lawful prefix other settings components content_types
          (request_path req.path)
          server.store
      → server.in_flight (generate_cache_key req route.keys) ≡ none
      → IsCold api lawful prefix laws md5 strategy route origin
          (generate_cache_key req route.keys)
          server
  unfolding generate_cache_key
  IsRenewed-IsCold req server renewed alone = record {
    provider = renewed.provider;
    purges = server.store.purges;
    store = ap (λ o. record { provider = o; purges = server.store.purges }) renewed.kept;
    ready = renewed.is_ready;
    no_entry = renewed.no_entry _;
    no_etag =
        ap (λ t. lawful.view renewed.provider (prefix ++ t))
          (append_assoc (request_path req.path) (b'?' ∷ _) (lit "_etag"))
        ∙ renewed.no_entry _;
    no_read = alone;
  }

  module _ {W : Type 0} (ctx : DocumentServiceContext) (next : Call P W) (in_progress : List Text)
      (s s' : State P W) (result id : Option Text) (params : Option Params) (wildcard : Bool)
      (conf : CacheContentTypeConfig) (p : P) (g : Purges) (reg_exps : List RegExp) where
    -- A request that is looked up in the store as a write to a cached content type left it returns
    -- the body that the origin answers, if it is for the document that was written, which is the
    -- one that a create or clone gives and the one that any other write names: for the path of a
    -- GET route of the type that has no parameter, for the path of one with the document's id in
    -- place of `id`, or, if the id is not known, for any path of one. The request's path has no
    -- question mark, the route's has no pattern syntax, constraint, modifier or empty segment, the
    -- id in it is not empty and is written alike by every client, without a `/`, every pattern
    -- compiles, the provider keeps its laws and is ready, no other request is at work, the response
    -- is cacheable, and Koa does what it documents.
    pub document_service_middleware-recv :
        (req : Request) (response : Response) (server : Server P)
        → IsWrite ctx.action
        → get settings ctx.uid ≡ some conf
        → Writes ctx result id
        → Scopes id params wildcard
        → next (ctx.uid ∷ in_progress) s ≡ (resolved result, s')
        → s'.store ≡ serving api lawful prefix p g
        → api.ready p ≡ true
        → uid_regexps (reg_exp other) settings conf ctx.uid params wildcard ≡ some reg_exps
        → Memᴰ route conf.routes
        → is_get route.method ≡ true
        → Free b'?' req.path
        → Shows route (request_path req.path) id
        → server.store
          ≡ (document_service_middleware
              (reg_exp other)
              settings
              components
              content_types
              api
              prefix
              ctx
              next
              in_progress
              s).1.store
        → server.in_flight (generate_cache_key req route.keys) ≡ none
        → should_lookup req route.hitpass ≡ resolved true
        → is_cacheable (missed koa strategy route (origin response)) ≡ cacheable
        → (v : Json) × ((missed koa strategy route (origin response)).body ≡ value v)
          × ((recv api prefix koa md5 strategy route quiet
                (answering origin)
                req
                response
                server).ended
              ≡ returned)
          × ((recv api prefix koa md5 strategy route quiet
                (answering origin)
                req
                response
                server).response.body
              ≡ value v)
    document_service_middleware-recv req response server write found writes scopes ran at_store r
          compiled m is_read free shows left alone looked ok =
        let renewed =
          document_service_middleware-IsRenewed api lawful prefix other settings components
            content_types ctx next in_progress s s' result id params wildcard conf p g reg_exps
            route req write found writes scopes ran at_store r compiled m is_read free shows in
        let cold =
          IsRenewed-IsCold req server
            (subst
              (IsRenewed api lawful prefix other settings components content_types
                (request_path req.path))
              (sym left) renewed)
            alone in
        let (v, body, not_empty, filled) =
          recv-IsFilled api lawful prefix laws md5 strategy route origin req response server looked
            cold ok in
        (v, body, filled.ended, filled.body)
