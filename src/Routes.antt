-- ===== src/Routes.antt =====
-- packages/plugin-rest-cache/server/src/utils/middlewares/flattenRoutes.ts
pub mod Middlewares
pub mod Mounted
pub mod Inject
pub mod Wired
pub mod Placed
pub mod Untouched
pub mod Places
pub mod Matching
use plugin_rest_cache.Prelude.{
  Bool, false, Option, none, some, List, [], ◌∷◌, ◌++◌, map, if◌then◌else◌, Text, lit, text_eq,
}
use plugin_rest_cache.Response.Decisions.{HttpMethod}
use plugin_rest_cache.Keys.Config.{default_to}
use Middlewares.{RouteMiddleware}

-- A registered route; `own_prefix` says if its config is an object with the key `prefix`, `middlewares` is
-- what the config has under that key.
pub record FlattenedRoute : Type 0 where
  pub method : HttpMethod
  pub path : Text
  pub global_path : Option Text
  pub own_prefix : Bool
  pub middlewares : Option (List RouteMiddleware)

-- An array of routes, or an object of containers, none if there are no routes.
mutual
  pub data RouteContainer : Type 0 where
    array : List FlattenedRoute → RouteContainer
    nested : Containers → RouteContainer

  pub data Containers : Type 0 where
    nil : Containers
    cons : RouteContainer → Containers → Containers

-- A router, or what its factory returns with the factory's `routes`, which may not be an array.
pub record PluginRouter : Type 0 where
  pub routes : Option (List FlattenedRoute)
  pub type : Option Text
  pub prefix : Option Text

-- A plugin; it has no routers unless its `routes` is an object that is not an array.
pub record Plugin : Type 0 where
  pub name : Text
  pub routers : List PluginRouter

unfoldable mutual
  pub flatten : RouteContainer → List FlattenedRoute
  flatten (array routes) = routes
  flatten (nested containers) = flatten_all containers

  pub flatten_all : Containers → List FlattenedRoute
  flatten_all nil = []
  flatten_all (cons c cs) = flatten c ++ flatten_all cs

-- `type !== 'content-api'`, where a missing type differs too.
unfoldable pub is_content_api : PluginRouter → Bool
is_content_api router = elim router.type [
  | none ↦ false
  | some type ↦ text_eq type (lit "content-api")
]

unfoldable pub router_prefix : Text → PluginRouter → Text
router_prefix plugin_name router = default_to (b'/' ∷ plugin_name) router.prefix

module _ (api_prefix : Text) where
  unfoldable pub with_api_path : FlattenedRoute → FlattenedRoute
  with_api_path route = record route { global_path = some (api_prefix ++ route.path) }

  unfoldable pub with_plugin_path : Text → FlattenedRoute → FlattenedRoute
  with_plugin_path router_prefix route = record route {
    global_path =
        some (api_prefix ++ ((if route.own_prefix then [] else router_prefix) ++ route.path));
  }

  unfoldable pub router_routes : Text → PluginRouter → List FlattenedRoute
  unfolding with_plugin_path is_content_api router_prefix
  router_routes plugin_name router = elim router.routes [
    | none ↦ []
    | some routes ↦
        if is_content_api router
        then map (with_plugin_path (router_prefix plugin_name router)) routes
        else []
  ]

  unfoldable pub plugin_routes : Text → List PluginRouter → List FlattenedRoute
  unfolding router_routes
  plugin_routes plugin_name [] = []
  plugin_routes plugin_name (router ∷ routers) =
      router_routes plugin_name router ++ plugin_routes plugin_name routers

  unfoldable pub flatten_plugin_content_api_routes : List Plugin → List FlattenedRoute
  unfolding plugin_routes
  flatten_plugin_content_api_routes [] = []
  flatten_plugin_content_api_routes (plugin ∷ plugins) =
      plugin_routes plugin.name plugin.routers ++ flatten_plugin_content_api_routes plugins

  -- `Object.values(strapi.apis)` is given as containers.
  unfoldable pub flatten_routes : Containers → List Plugin → List FlattenedRoute
  unfolding flatten with_api_path flatten_plugin_content_api_routes
  flatten_routes apis plugins =
      map with_api_path (flatten_all apis) ++ flatten_plugin_content_api_routes plugins
