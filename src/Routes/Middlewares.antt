-- ===== src/Routes/Middlewares.antt =====
-- packages/plugin-rest-cache/server/src/utils/middlewares/injectMiddlewares.ts: the middlewares of a route.
use plugin_rest_cache.Prelude.{Option, none, some, List, [], ◌∷◌, if◌then◌else◌, Text, text_eq}
use plugin_rest_cache.Json.{Json}
use plugin_rest_cache.Response.Decisions.{CacheRouteConfig}

-- The config of an entry: `{ cacheRouteConfig }`, `{ contentType }`, `{}`, or what others have put there.
pub data MiddlewareConfig : Type 0 where
  for_route : CacheRouteConfig → MiddlewareConfig
  for_content_type : Text → MiddlewareConfig
  empty : MiddlewareConfig
  foreign : Json → MiddlewareConfig

pub data RouteMiddleware : Type 0 where
  by_name : Text → RouteMiddleware
  with_config : Text → MiddlewareConfig → RouteMiddleware

unfoldable pub name_of : RouteMiddleware → Text
name_of (by_name name) = name
name_of (with_config name config) = name

-- The first entry of that name is replaced, or one is pushed.
unfoldable pub put_middleware :
    Text → MiddlewareConfig → List RouteMiddleware → List RouteMiddleware
unfolding name_of
put_middleware uid config [] = with_config uid config ∷ []
put_middleware uid config (m ∷ ms) =
    let later = m ∷ put_middleware uid config ms in
    if text_eq (name_of m) uid then with_config uid config ∷ ms else later

unfoldable pub inject_into :
    Text → MiddlewareConfig → Option (List RouteMiddleware) → List RouteMiddleware
unfolding put_middleware
inject_into uid config none = with_config uid config ∷ []
inject_into uid config (some ms) = put_middleware uid config ms
