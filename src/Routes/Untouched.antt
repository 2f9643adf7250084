-- ===== src/Routes/Untouched.antt =====
-- packages/plugin-rest-cache/server/src/utils/middlewares/injectMiddlewares.ts: the routes that stay as they
-- are where writes are purged through the document service.
use plugin_rest_cache.Prelude.{
  ◌≡◌, refl, sym, ap, ◌∙◌, inl, inr, Bool, true, false, ◌&&◌, not, List, [], ◌∷◌, arith,
  if◌then◌else◌, Bool-cases, if_true, if_false, filter, Text,
}
use plugin_rest_cache.Response.Decisions.{HttpMethod, get, CacheRouteConfig, is_get}
use plugin_rest_cache.Purging.{CacheContentTypeConfig, CachePluginStrategy}
use plugin_rest_cache.Routes.{FlattenedRoute}
use plugin_rest_cache.Routes.Inject.{
  on_first, matches_route, inject_purge, inject_by_method, inject_found, inject_routes,
  inject_content_types, content_manager_routes, inject_middlewares,
}
use plugin_rest_cache.Routes.Wired.{inject_by_method-Kept}

abbrev writes : FlattenedRoute → Bool
writes r = not (is_get r.method)

on_first-filter :
    (p : FlattenedRoute → Bool) (f : FlattenedRoute → FlattenedRoute) (q : FlattenedRoute → Bool)
    (xs : List FlattenedRoute)
    → ((x : FlattenedRoute) → q (f x) ≡ q x)
    → ((x : FlattenedRoute) → q x ≡ true → f x ≡ x)
    → filter q (on_first p f xs) ≡ filter q xs
unfolding on_first
on_first-filter p f q [] same left = refl
on_first-filter p f q (x ∷ xs) same left = elim (Bool-cases (p x)) [
  | inl here ↦ ap (filter q) (if_true _ _ _ here) ∙ (elim (Bool-cases (q x)) [
    | inl kept ↦ ap (λ y. filter q (y ∷ xs)) (left x kept)
    | inr dropped ↦ if_false _ _ _ (same x ∙ dropped) ∙ sym (if_false _ _ _ dropped)
  ])
  | inr other ↦
      ap (filter q) (if_false _ _ _ other)
      ∙ ap (λ ys. if q x then x ∷ ys else ys) (on_first-filter p f q xs same left)
]

write_left :
    (uid : Text) (c : CacheRouteConfig) (m : HttpMethod) (r : FlattenedRoute)
    → not (is_get m) ≡ true
    → inject_by_method true uid c m r ≡ r
unfolding inject_by_method inject_purge is_get
write_left uid c get r h = cc
write_left uid c _ r h = refl

inject_routes-filter :
    (uid : Text) (cs : List CacheRouteConfig) (routes : List FlattenedRoute)
    → filter writes (inject_routes true uid cs routes) ≡ filter writes routes
unfolding inject_routes inject_found
inject_routes-filter uid [] routes = refl
inject_routes-filter uid (c ∷ cs) routes =
    inject_routes-filter uid cs _
    ∙ on_first-filter (matches_route c) (inject_found true uid c) writes routes
        (λ x. ap (λ m. not (is_get m)) (inject_by_method-Kept true uid c x.method x).0)
        (λ x. write_left uid c x.method x)

inject_content_types-filter :
    (confs : List CacheContentTypeConfig) (routes : List FlattenedRoute)
    → filter writes (inject_content_types true confs routes) ≡ filter writes routes
unfolding inject_content_types
inject_content_types-filter [] routes = refl
inject_content_types-filter (conf ∷ confs) routes =
    inject_content_types-filter confs _ ∙ inject_routes-filter conf.content_type conf.routes routes

via_cases : (via admin : Bool) → via ≡ true → (admin && not via) ≡ false
via_cases via admin h = ground arith

-- Where writes are purged through the document service, the routes that are not GET routes and the content
-- manager's routes are left as they were, so that no write is purged for a second time.
pub inject_middlewares-writes :
    (strategy : CachePluginStrategy) (routes : List FlattenedRoute)
    (content_manager : List (List FlattenedRoute))
    → strategy.enable_document_service_middleware ≡ true
    → (filter (λ r. not (is_get r.method)) (inject_middlewares strategy routes content_manager).0
        ≡ filter (λ r. not (is_get r.method)) routes)
      × ((inject_middlewares strategy routes content_manager).1
          ≡ content_manager_routes content_manager)
unfolding inject_middlewares
inject_middlewares-writes strategy routes content_manager via = (
  ap (λ b. filter writes (inject_content_types b strategy.content_types routes)) via
      ∙ inject_content_types-filter strategy.content_types routes,
  if_false _ _ _ (via_cases _ _ via),
)
