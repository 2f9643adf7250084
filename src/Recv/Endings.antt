-- ===== src/Recv/Endings.antt =====
-- packages/plugin-rest-cache/server/src/middlewares/recv.ts: what each ending does to the context.
use plugin_rest_cache.Prelude.{Option, none, some, [], if◌then◌else◌, Text, lit, text_eq}
use plugin_rest_cache.Json.{Json, null}
use plugin_rest_cache.Response.{Body, value, Response, get_header}
use plugin_rest_cache.Response.CacheControl.{build_cache_control}
use plugin_rest_cache.Response.Decisions.{CacheRouteConfig, quoted}
use plugin_rest_cache.Response.Replay.{replayed_type}
use plugin_rest_cache.Recv.{SharedResponse, RecvStrategy, Koa}

-- The response side: what each ending does to the context.
module _ (koa : Koa) (strategy : RecvStrategy) (route : CacheRouteConfig) where
  unfoldable pub set_cache_control : Response → Response
  unfolding build_cache_control get_header
  set_cache_control ctx =
      elim (build_cache_control strategy.cache_control route.max_age route.keys.use_auth) [
        | none ↦ ctx
        | some control ↦
            if text_eq (get_header (lit "Cache-Control") ctx) []
            then koa.set (lit "Cache-Control") control ctx
            else ctx
      ]

  unfoldable pub set_x_cache : Text → Response → Response
  set_x_cache verdict ctx =
      if strategy.enable_x_cache_headers then koa.set (lit "X-Cache") verdict ctx else ctx

  unfoldable pub set_etag : Option Text → Response → Response
  set_etag none ctx = ctx
  set_etag (some etag) ctx = koa.set (lit "ETag") (quoted etag) ctx

  unfoldable pub set_type : Option Text → Response → Response
  set_type none ctx = ctx
  set_type (some type) ctx = koa.set (lit "Content-Type") type ctx

  unfoldable pub replay : Body → Option Text → Response → Response
  unfolding set_type replayed_type
  replay (value v) type ctx = koa.set_body (value v) (set_type (replayed_type v type) ctx)
  replay body type ctx = koa.set_body body ctx

  unfoldable pub not_modified : Response → Response
  unfolding set_cache_control set_x_cache
  not_modified ctx =
      koa.set_status 304
        (koa.set_body (value null) (set_cache_control (set_x_cache (lit "HIT") ctx)))

  unfoldable pub hit : Option Text → Json → Option Text → Response → Response
  unfolding set_cache_control set_x_cache set_etag replay
  hit etag v type ctx =
      replay (value v) type
        (koa.set_status 200 (set_cache_control (set_etag etag (set_x_cache (lit "HIT") ctx))))

  unfoldable pub coalesced : SharedResponse → Response → Response
  unfolding set_x_cache replay
  coalesced shared ctx =
      replay shared.body shared.type (koa.set_status shared.status (set_x_cache (lit "MISS") ctx))
