-- ===== src/Routes/Wired.antt =====
-- packages/plugin-rest-cache/server/src/utils/middlewares/injectMiddlewares.ts: what the routes end with.
use mathlib.Core.Path.{subst}
use plugin_rest_cache.Prelude.{
  ◌≡◌, refl, sym, ap, ◌∙◌, inl, inr, Bool, true, false, ◌&&◌, Option, none, some, List, [], ◌∷◌,
  ◌++◌, if◌then◌else◌, Bool-cases, if_true, if_false, Text, text_eq, text_eq_refl,
}
use plugin_rest_cache.Response.Decisions.{HttpMethod, get, CacheRouteConfig}
use plugin_rest_cache.Purging.{CacheContentTypeConfig}
use plugin_rest_cache.Routes.{FlattenedRoute}
use plugin_rest_cache.Routes.Middlewares.{
  MiddlewareConfig, for_route, RouteMiddleware, by_name, with_config, name_of, put_middleware,
  inject_into,
}
use plugin_rest_cache.Routes.Inject.{
  normalize_route_path, same_method, inject_middleware, matches_route, recv_middleware_uid,
  inject_purge, inject_by_method, inject_found,
}

-- The two routes have one method and one path.
abbrev pub same_place : FlattenedRoute → FlattenedRoute → Bool
same_place r s =
    same_method r.method s.method
    && text_eq (normalize_route_path r.global_path) (normalize_route_path s.global_path)

abbrev pub config_of : RouteMiddleware → Option MiddlewareConfig
config_of (by_name name) = none
config_of (with_config name config) = some config

-- The config that the first recv of a list was given.
unfoldable pub recv_in : List RouteMiddleware → Option MiddlewareConfig
unfolding name_of
recv_in [] = none
recv_in (m ∷ ms) = if text_eq (name_of m) recv_middleware_uid then config_of m else recv_in ms

unfoldable pub recv_of : Option (List RouteMiddleware) → Option MiddlewareConfig
unfolding recv_in
recv_of none = none
recv_of (some ms) = recv_in ms

-- The last of the configurations that has the route's method and path, else what stood there before.
unfoldable pub last_of :
    List CacheRouteConfig → FlattenedRoute → Option MiddlewareConfig → Option MiddlewareConfig
unfolding matches_route
last_of [] route before = before
last_of (c ∷ cs) route before =
    last_of cs route (if matches_route c route then some (for_route c) else before)

unfoldable pub all_routes : List CacheContentTypeConfig → List CacheRouteConfig
all_routes [] = []
all_routes (conf ∷ confs) = conf.routes ++ all_routes confs

recv_in-put :
    (c : CacheRouteConfig) (ms : List RouteMiddleware)
    → recv_in (put_middleware recv_middleware_uid (for_route c) ms) ≡ some (for_route c)
unfolding recv_in put_middleware name_of
recv_in-put c [] =
    if_true (text_eq recv_middleware_uid recv_middleware_uid) _ _ (text_eq_refl recv_middleware_uid)
recv_in-put c (m ∷ ms) = elim (Bool-cases (text_eq (name_of m) recv_middleware_uid)) [
  | inl here ↦
      ap recv_in (if_true _ _ _ here)
      ∙ if_true (text_eq recv_middleware_uid recv_middleware_uid) _ _
          (text_eq_refl recv_middleware_uid)
  | inr other ↦ ap recv_in (if_false _ _ _ other) ∙ (if_false _ _ _ other ∙ recv_in-put c ms)
]

recv_of-inject :
    (c : CacheRouteConfig) (held : Option (List RouteMiddleware))
    → recv_of (some (inject_into recv_middleware_uid (for_route c) held)) ≡ some (for_route c)
unfolding recv_of inject_into
recv_of-inject c none =
    if_true (text_eq recv_middleware_uid recv_middleware_uid) _ _ (text_eq_refl recv_middleware_uid)
recv_of-inject c (some ms) = recv_in-put c ms

-- What the injection leaves as it is.
abbrev pub Kept : FlattenedRoute → FlattenedRoute → Type 0
Kept r s = (r.method ≡ s.method) × (r.global_path ≡ s.global_path)

pub inject_by_method-Kept :
    (via : Bool) (uid : Text) (c : CacheRouteConfig) (m : HttpMethod) (r : FlattenedRoute)
    → Kept (inject_by_method via uid c m r) r
unfolding inject_by_method inject_purge inject_middleware
inject_by_method-Kept via uid c get r = (refl, refl)
inject_by_method-Kept true uid c _ r = (refl, refl)
inject_by_method-Kept false uid c _ r = (refl, refl)

module _ (via : Bool) (uid : Text) (c : CacheRouteConfig) where
  -- What happens to the first route at a place.
  abbrev pub wired : FlattenedRoute → FlattenedRoute
  wired r = if matches_route c r then inject_found via uid c r else r

  pub wired-Kept : (r : FlattenedRoute) → Kept (wired r) r
  unfolding inject_found
  wired-Kept r = elim (Bool-cases (matches_route c r)) [
    | inl met ↦
        subst (λ s. Kept s r) (sym (if_true _ _ _ met)) (inject_by_method-Kept via uid c r.method r)
    | inr other ↦ subst (λ s. Kept s r) (sym (if_false _ _ _ other)) (refl, refl)
  ]

  found_get :
      (m : HttpMethod) (r : FlattenedRoute)
      → m ≡ get
      → recv_of (inject_by_method via uid c m r).middlewares ≡ some (for_route c)
  unfolding inject_by_method inject_middleware
  found_get m r e =
      subst (λ n. recv_of (inject_by_method via uid c n r).middlewares ≡ some (for_route c)) (sym e)
        (recv_of-inject c r.middlewares)

  pub recv_of-wired :
      (r : FlattenedRoute)
      → r.method ≡ get
      → recv_of (wired r).middlewares
        ≡ (if matches_route c r then some (for_route c) else recv_of r.middlewares)
  unfolding inject_found
  recv_of-wired r e = elim (Bool-cases (matches_route c r)) [
    | inl met ↦
        ap (λ (s : FlattenedRoute). recv_of s.middlewares) (if_true _ _ _ met)
        ∙ (found_get r.method r e ∙ sym (if_true _ _ _ met))
    | inr other ↦
        ap (λ (s : FlattenedRoute). recv_of s.middlewares) (if_false _ _ _ other)
        ∙ sym (if_false _ _ _ other)
  ]
