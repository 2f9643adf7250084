-- ===== src/Response/Decisions.antt =====
-- packages/plugin-rest-cache/server/src/utils: shouldLookup, etagMatch and unkeyedAuthenticatedRoutes.
use plugin_rest_cache.Prelude.{
  ℕ, Bool, true, false, ◌&&◌, ◌||◌, not, none, some, List, [], ◌∷◌, ◌++◌, map, filter, Text, lit,
  starts_with,
}
use plugin_rest_cache.Outcome.{Outcome, resolved, rejected}
use plugin_rest_cache.Context.{Request, lookup}
use plugin_rest_cache.Keys.Config.{CacheKeysConfig}

pub data HttpMethod : Type 0 where
  get post put patch delete : HttpMethod

-- `CachePluginHitpass | boolean`
pub data Hitpass : Type 0 where
  fixed : Bool → Hitpass
  decided : (Request → Outcome Bool) → Hitpass

pub record CacheRouteConfig : Type 0 where
  pub max_age : ℕ
  pub path : Text
  pub method : HttpMethod
  pub param_names : List Text
  pub keys : CacheKeysConfig
  pub hitpass : Hitpass

unfoldable pub should_lookup : Request → Hitpass → Outcome Bool
should_lookup ctx (fixed b) = resolved (not b)
should_lookup ctx (decided hitpass) = elim (hitpass ctx) [
  | resolved b ↦ resolved (not b)
  | rejected ↦ rejected
]

unfoldable pub is_get : HttpMethod → Bool
is_get get = true
is_get _ = false

-- `hitpass === false`
unfoldable pub never_bypassed : Hitpass → Bool
never_bypassed (fixed b) = not b
never_bypassed (decided _) = false

unfoldable pub is_unkeyed_authenticated_route : CacheRouteConfig → Bool
unfolding is_get never_bypassed
is_unkeyed_authenticated_route route =
    is_get route.method && never_bypassed route.hitpass && not route.keys.use_auth

unfoldable pub unkeyed_authenticated_routes : List CacheRouteConfig → List Text
unfolding is_unkeyed_authenticated_route
unkeyed_authenticated_routes routes =
    map (λ (route : CacheRouteConfig). route.path) (filter is_unkeyed_authenticated_route routes)

-- `text.indexOf(part) !== -1`
unfoldable pub contains : Text → Text → Bool
contains part [] = starts_with [] part
contains part (c ∷ s) = starts_with (c ∷ s) part || contains part s

-- `"${etag}"`
abbrev pub quoted : Text → Text
quoted etag = b'"' ∷ (etag ++ b'"' ∷ [])

unfoldable pub etag_match : Request → Text → Bool
unfolding contains
etag_match ctx etag = elim (lookup (lit "if-none-match") ctx.header) [
  | none ↦ false
  | some [] ↦ false
  | some (c ∷ s) ↦ contains (quoted etag) (c ∷ s)
]
