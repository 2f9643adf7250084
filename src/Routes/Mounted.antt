-- ===== src/Routes/Mounted.antt =====
-- packages/plugin-rest-cache/server/src/utils/middlewares/flattenRoutes.ts: which routes come out.
use mathlib.Core.List.{Memᴰ}
use plugin_rest_cache.Prelude.{
  ◌≡◌, true, false, none, some, List, [], ◌∷◌, ◌++◌, if◌then◌else◌, Text, lit,
}
use plugin_rest_cache.Routes.{
  FlattenedRoute, Containers, PluginRouter, Plugin, flatten_all, router_prefix,
}

-- The route with another place, all else being the same.
pub record At (path : Text) (before after : FlattenedRoute) : Type 0 where
  pub method : after.method ≡ before.method
  pub own_path : after.path ≡ before.path
  pub global_path : after.global_path ≡ some path
  pub own_prefix : after.own_prefix ≡ before.own_prefix
  pub middlewares : after.middlewares ≡ before.middlewares

-- What stands between the api prefix and the path of a plugin's route: nothing if the route has a prefix of
-- its own, and else the router's, which is the plugin's name behind a slash if it sets none.
pub data Between (plugin : Plugin) (router : PluginRouter) (route : FlattenedRoute)
    : Text → Type 0 where
  nothing : route.own_prefix ≡ true → Between plugin router route []
  set_prefix :
      (prefix : Text)
      → route.own_prefix ≡ false
      → router.prefix ≡ some prefix
      → Between plugin router route prefix
  plugin_name :
      route.own_prefix ≡ false
      → router.prefix ≡ none
      → Between plugin router route (b'/' ∷ plugin.name)

module _ (api_prefix : Text) (apis : Containers) (plugins : List Plugin) where
  -- A route of an api under the api prefix, or a route of a plugin's content-api router under the
  -- api prefix and, unless it has its own, the router's.
  pub data Mounted (r : FlattenedRoute) : Type 0 where
    of_api :
        (route : FlattenedRoute)
        → Memᴰ route (flatten_all apis)
        → At (api_prefix ++ route.path) route r
        → Mounted r
    of_plugin :
        (plugin : Plugin) (router : PluginRouter) (routes : List FlattenedRoute)
        (route : FlattenedRoute) (between : Text)
        → Memᴰ plugin plugins
        → Memᴰ router plugin.routers
        → router.routes ≡ some routes
        → router.type ≡ some (lit "content-api")
        → Memᴰ route routes
        → Between plugin router route between
        → At (api_prefix ++ (between ++ route.path)) route r
        → Mounted r

-- What the code puts in between.
abbrev inserted : Plugin → PluginRouter → FlattenedRoute → Text
inserted plugin router route = if route.own_prefix then [] else router_prefix plugin.name router
