-- ===== src/Tests/RouteTests.antt =====
-- The wiring of the routes at concrete inputs.
use plugin_rest_cache.Prelude.{
  ℕ, ◌≡◌, refl, Bool, true, false, not, Option, none, some, List, [], ◌∷◌, filter, Text, lit,
  text_eq,
}
use plugin_rest_cache.Keys.Config.{all_params}
use plugin_rest_cache.Response.Decisions.{HttpMethod, get, put, CacheRouteConfig, is_get}
use plugin_rest_cache.Response.Decisions as Decisions
use plugin_rest_cache.Purging.{CacheContentTypeConfig, CachePluginStrategy}
use plugin_rest_cache.Routes.{FlattenedRoute}
use plugin_rest_cache.Routes.Middlewares.{
  for_route, for_content_type, RouteMiddleware, by_name, with_config,
}
use plugin_rest_cache.Routes.Inject.{
  recv_middleware_uid, purge_middleware_uid, content_manager_routes, inject_middlewares,
}
use plugin_rest_cache.Routes.Wired.{Kept, recv_of, all_routes}
use plugin_rest_cache.Routes.Matching.{Last}
use plugin_rest_cache.Routes.Placed.{IsFirst, inject_middlewares-recv}
use plugin_rest_cache.Routes.Untouched.{inject_middlewares-writes}

abbrev cached : ℕ → HttpMethod → Text → CacheRouteConfig
cached max_age method path = record {
  max_age = max_age;
  path = path;
  method = method;
  param_names = [];
  keys = record { use_headers = []; use_query_params = all_params; use_auth = false };
  hitpass = Decisions.fixed false;
}

abbrev article : CacheContentTypeConfig
article = record {
  content_type = lit "api::article";
  routes =
      cached 1000 get (lit "/api/articles/:slug")
      ∷ cached 1000 put (lit "/api/articles/:slug")
      ∷ cached 2000 get (lit "/api/articles/:slug+")
      ∷ [];
  related_content_type_uid = [];
}

abbrev strategy : Bool → CachePluginStrategy
strategy via = record {
  content_types = article ∷ [];
  clear_related_cache = true;
  enable_content_api_purge = false;
  enable_admin_ctb_middleware = true;
  enable_document_service_middleware = via;
}

abbrev registered : HttpMethod → Option (List RouteMiddleware) → FlattenedRoute
registered method middlewares = record {
  method = method;
  path = lit "/articles/:slug+";
  global_path = some (lit "/api/articles/:slug+");
  own_prefix = false;
  middlewares = middlewares;
}

abbrev shown : FlattenedRoute
shown = registered get (some (by_name (lit "mine") ∷ by_name recv_middleware_uid ∷ []))

abbrev changed : FlattenedRoute
changed = registered put none

-- The entry that stood there is replaced, by the later of two configurations, and a write is purged.
both_wired :
    (inject_middlewares (strategy false) (shown ∷ changed ∷ []) []).0
    ≡ registered get (
        some (
          by_name (lit "mine")
          ∷ with_config recv_middleware_uid
              (for_route (cached 2000 get (lit "/api/articles/:slug+")))
          ∷ []))
      ∷ registered put
          (some (with_config purge_middleware_uid (for_content_type (lit "api::article")) ∷ []))
      ∷ []
unfolding inject_middlewares text_eq
both_wired = refl

shown-IsFirst : IsFirst shown (shown ∷ changed ∷ []) 0
shown-IsFirst = ([], changed ∷ [], refl, refl, tt)

inject_middlewares-recv_example :
    (r : FlattenedRoute) × IsFirst r
      (inject_middlewares (strategy true) (shown ∷ changed ∷ []) []).0
      0
    × Kept r shown
    × Last
        (all_routes (strategy true).content_types)
        shown
        (recv_of shown.middlewares)
        (recv_of r.middlewares)
inject_middlewares-recv_example =
    inject_middlewares-recv (strategy true) (shown ∷ changed ∷ []) [] shown 0 shown-IsFirst refl

inject_middlewares-writes_example :
    (filter
        (λ r. not (is_get r.method))
        (inject_middlewares (strategy true) (shown ∷ changed ∷ []) []).0
      ≡ filter (λ r. not (is_get r.method)) (shown ∷ changed ∷ []))
    × ((inject_middlewares (strategy true) (shown ∷ changed ∷ []) []).1 ≡ content_manager_routes [])
inject_middlewares-writes_example =
    inject_middlewares-writes (strategy true) (shown ∷ changed ∷ []) [] refl
