-- ===== src/Strategy/Warnings.antt =====
-- packages/plugin-rest-cache/server/src/utils/config/resolveUserStrategy.ts: what it warns of.
use plugin_rest_cache.Prelude.{
  ℕ, false, Option, none, some, List, [], ◌∷◌, if◌then◌else◌, length, filter, Text,
}
use plugin_rest_cache.Keys.Config.{default_to}
use plugin_rest_cache.Purging.{CacheContentTypeConfig}
use plugin_rest_cache.Response.Decisions.{CacheRouteConfig, unkeyed_authenticated_routes}
use plugin_rest_cache.Response.CacheControl.{CacheControlConfigInput, shared}

-- The warnings, by content type: its routes that share what a caller gets, and the number of those
-- whose `public` is downgraded.
unfoldable pub unkeyed_warnings : List CacheContentTypeConfig → List (Text × List Text)
unfolding unkeyed_authenticated_routes
unkeyed_warnings [] = []
unkeyed_warnings (conf ∷ confs) = elim (unkeyed_authenticated_routes conf.routes) [
  | [] ↦ unkeyed_warnings confs
  | path ∷ paths ↦ (conf.content_type, path ∷ paths) ∷ unkeyed_warnings confs
]

unfoldable pub keyed_per_caller : CacheContentTypeConfig → List CacheRouteConfig
keyed_per_caller conf = filter (λ (route : CacheRouteConfig). route.keys.use_auth) conf.routes

unfoldable pub downgraded : List CacheContentTypeConfig → List (Text × ℕ)
unfolding keyed_per_caller
downgraded [] = []
downgraded (conf ∷ confs) = elim (keyed_per_caller conf) [
  | [] ↦ downgraded confs
  | route ∷ routes ↦ (conf.content_type, length (route ∷ routes)) ∷ downgraded confs
]

unfoldable pub public_warnings :
    Option CacheControlConfigInput → List CacheContentTypeConfig → List (Text × ℕ)
unfolding downgraded
public_warnings none confs = []
public_warnings (some control) confs = elim control.scope [
  | some shared ↦ if default_to false control.enabled then downgraded confs else []
  | _ ↦ []
]
