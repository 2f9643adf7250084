-- ===== src/Routes/Inject.antt =====
-- packages/plugin-rest-cache/server/src/utils/middlewares/injectMiddlewares.ts. Each route of a list is an
-- object of its own, and the content manager's routes are none of the flattened ones.
use plugin_rest_cache.Prelude.{
  Bool, true, false, ◌&&◌, not, Option, none, some, List, [], ◌∷◌, ◌++◌, ◌==◌, if◌then◌else◌, Text,
  lit, text_eq,
}
use plugin_rest_cache.Response.Decisions.{
  HttpMethod, get, post, put, patch, delete, CacheRouteConfig,
}
use plugin_rest_cache.Purging.{CacheContentTypeConfig, CachePluginStrategy}
use plugin_rest_cache.Routes.{FlattenedRoute}
use plugin_rest_cache.Routes.Middlewares.{
  MiddlewareConfig, for_route, for_content_type, empty, inject_into,
}

-- `/\+$/`
unfoldable pub without_plus : Text → Text
without_plus [] = []
without_plus (c ∷ []) = if c == b'+' then [] else c ∷ []
without_plus (c ∷ d ∷ s) = c ∷ without_plus (d ∷ s)

unfoldable pub normalize_route_path : Option Text → Text
unfolding without_plus
normalize_route_path none = []
normalize_route_path (some path) = without_plus path

unfoldable pub same_method : HttpMethod → HttpMethod → Bool
same_method get get = true
same_method post post = true
same_method put put = true
same_method patch patch = true
same_method delete delete = true
same_method _ _ = false

unfoldable pub inject_middleware : Text → MiddlewareConfig → FlattenedRoute → FlattenedRoute
unfolding inject_into
inject_middleware uid config route = record route {
  middlewares = some (inject_into uid config route.middlewares);
}

-- `findIndex`, and the route that is found there.
unfoldable pub on_first :
    (FlattenedRoute → Bool)
    → (FlattenedRoute → FlattenedRoute)
    → List FlattenedRoute
    → List FlattenedRoute
on_first p f [] = []
on_first p f (route ∷ routes) =
    let later = route ∷ on_first p f routes in if p route then f route ∷ routes else later

unfoldable pub matches_route : CacheRouteConfig → FlattenedRoute → Bool
unfolding same_method normalize_route_path
matches_route cache_route route =
    same_method route.method cache_route.method
    && text_eq (normalize_route_path route.global_path)
        (normalize_route_path (some cache_route.path))

abbrev pub recv_middleware_uid : Text
recv_middleware_uid = lit "plugin::rest-cache.recv"

abbrev pub purge_middleware_uid : Text
purge_middleware_uid = lit "plugin::rest-cache.purge"

abbrev pub purge_admin_middleware_uid : Text
purge_admin_middleware_uid = lit "plugin::rest-cache.purgeAdmin"

unfoldable pub inject_purge : Bool → Text → FlattenedRoute → FlattenedRoute
unfolding inject_middleware
inject_purge purge_via_document_service content_type route =
    if purge_via_document_service
    then route
    else inject_middleware purge_middleware_uid (for_content_type content_type) route

-- The `switch` on the method of the route.
unfoldable pub inject_by_method :
    Bool → Text → CacheRouteConfig → HttpMethod → FlattenedRoute → FlattenedRoute
unfolding inject_middleware inject_purge
inject_by_method via content_type cache_route delete route = inject_purge via content_type route
inject_by_method via content_type cache_route put route = inject_purge via content_type route
inject_by_method via content_type cache_route patch route = inject_purge via content_type route
inject_by_method via content_type cache_route post route = inject_purge via content_type route
inject_by_method via content_type cache_route get route =
    inject_middleware recv_middleware_uid (for_route cache_route) route

unfoldable pub inject_found : Bool → Text → CacheRouteConfig → FlattenedRoute → FlattenedRoute
unfolding inject_by_method
inject_found via content_type cache_route route =
    inject_by_method via content_type cache_route route.method route

module _ (purge_via_document_service : Bool) where
  unfoldable pub inject_routes :
      Text → List CacheRouteConfig → List FlattenedRoute → List FlattenedRoute
  unfolding on_first matches_route inject_found
  inject_routes content_type [] routes = routes
  inject_routes content_type (cache_route ∷ cache_routes) routes =
      inject_routes content_type cache_routes (
        on_first (matches_route cache_route)
          (inject_found purge_via_document_service content_type cache_route) routes)

  unfoldable pub inject_content_types :
      List CacheContentTypeConfig → List FlattenedRoute → List FlattenedRoute
  unfolding inject_routes
  inject_content_types [] routes = routes
  inject_content_types (conf ∷ confs) routes =
      inject_content_types confs (inject_routes conf.content_type conf.routes routes)

-- `adminRoutes`
abbrev pub admin_post : List Text
admin_post =
    lit "/single-types/:model/actions/publish"
    ∷ lit "/single-types/:model/actions/unpublish"
    ∷ lit "/single-types/:model/actions/discard"
    ∷ lit "/collection-types/:model"
    ∷ lit "/collection-types/:model/clone/:sourceId"
    ∷ lit "/collection-types/:model/auto-clone/:sourceId"
    ∷ lit "/collection-types/:model/actions/publish"
    ∷ lit "/collection-types/:model/:id/actions/publish"
    ∷ lit "/collection-types/:model/:id/actions/unpublish"
    ∷ lit "/collection-types/:model/:id/actions/discard"
    ∷ lit "/collection-types/:model/actions/bulkDelete"
    ∷ lit "/collection-types/:model/actions/bulkPublish"
    ∷ lit "/collection-types/:model/actions/bulkUnpublish"
    ∷ []

abbrev pub admin_put : List Text
admin_put = lit "/single-types/:model" ∷ lit "/collection-types/:model/:id" ∷ []

abbrev pub admin_delete : List Text
admin_delete = lit "/single-types/:model" ∷ lit "/collection-types/:model/:id" ∷ []

unfoldable pub inject_admin : HttpMethod → List Text → List FlattenedRoute → List FlattenedRoute
unfolding on_first same_method inject_middleware
inject_admin method [] routes = routes
inject_admin method (path ∷ paths) routes = inject_admin method paths (
    on_first (λ route. same_method route.method method && text_eq route.path path)
      (inject_middleware purge_admin_middleware_uid empty) routes)

-- `Object.values(strapi.plugins['content-manager'].routes)`, joined.
unfoldable pub content_manager_routes : List (List FlattenedRoute) → List FlattenedRoute
content_manager_routes [] = []
content_manager_routes (routes ∷ rest) = routes ++ content_manager_routes rest

unfoldable pub inject_admin_routes : List FlattenedRoute → List FlattenedRoute
unfolding inject_admin
inject_admin_routes routes =
    inject_admin delete admin_delete
      (inject_admin put admin_put (inject_admin post admin_post routes))

-- The flattened routes and the content manager's, with the middlewares.
unfoldable pub inject_middlewares :
    CachePluginStrategy
    → List FlattenedRoute
    → List (List FlattenedRoute)
    → List FlattenedRoute × List FlattenedRoute
unfolding inject_content_types inject_admin_routes content_manager_routes
inject_middlewares strategy strapi_routes content_manager =
    let via = strategy.enable_document_service_middleware in
    let admin = content_manager_routes content_manager in
    (
      inject_content_types via strategy.content_types strapi_routes,
      if strategy.enable_admin_ctb_middleware && not via then inject_admin_routes admin else admin,
    )
