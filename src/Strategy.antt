-- ===== src/Strategy.antt =====
-- packages/plugin-rest-cache/server/src/utils/config/resolveUserStrategy.ts: what a user writes is
-- made the configuration that the plugin runs on.
pub mod Inputs
pub mod Names
pub mod Warnings
pub mod Configured
pub mod Defaults
pub mod Resolved
pub mod Entries
pub mod Inherited
pub mod Bypass
use plugin_rest_cache.Prelude.{
  ℕ, zero, suc, ◌+◌, ◌-◌, ◌*◌, ◌/◌, ◌%◌, ◌≤◌, ◌<◌, ◌≡◌, refl, sym, ap, ◌∙◌, ◌≢◌, ◌↔◌, ◌⊎◌, inl, inr,
  Bool, true, false, ◌&&◌, ◌||◌, not, Option, none, some, List, [], ◌∷◌, ◌++◌, map, arith, ltb, leb,
  ◌==◌, if◌then◌else◌, ltb→lt, leb→le, ==_iff, ==_refl, Bool-cases, Option-cases, Bool-eq_of_iff,
  or_cases, and_parts, not_iff, if_true, if_false, none≢some, some_injective, length, take, drop,
  any, every, filter, find, length-append, take-append-drop, filter-le, any-append, any-of_Mem,
  Mem-of_any, Mem-filter, Mem-of_filter, All, All-append, All-of_Mem, All-filter, Text, lit,
  text_eq, text_eq_sound, text_eq_refl, text_eq_iff, starts_with, starts_with-append,
  append-drop_of_starts_with, drop-append, Free, Free-append, cut_unique, append_cancel,
}
use plugin_rest_cache.Keys.Config.{
  CacheKeysConfig, CacheKeysConfigInput, cache_keys_config, default_to,
}
use plugin_rest_cache.Purging.{CacheContentTypeConfig}
use plugin_rest_cache.Response.Decisions.{
  HttpMethod, get, post, put, patch, delete, Hitpass, fixed, CacheRouteConfig,
  unkeyed_authenticated_routes,
}
use plugin_rest_cache.Response.CacheControl.{CacheControlConfigInput, shared}
use plugin_rest_cache.Response.Listed.{listed_route_hitpass}
use Inputs.{
  CacheRouteConfigInput, RouteInput, CacheContentTypeConfigInput, ContentTypeInput,
  CachePluginStrategyInput, DraftContentTypeConfig, ContentType, ApiRoute, path_only, configured,
  uid_only,
}
use Names.{api_name_from_uid, listed_params, route_params}

pub data Resolution {ℓ} (A : Type ℓ) : Type ℓ where
  resolved : A → Resolution A
  unknown_content_type : Text → Resolution A
  no_api : Text → Resolution A

-- The first error ends the loop.
unfoldable pub first_error : {A : Type 0} → Resolution A → Resolution (List A) → Resolution (List A)
first_error (resolved a) (resolved as') = resolved (a ∷ as')
first_error (resolved a) error = error
first_error (unknown_content_type uid) rest = unknown_content_type uid
first_error (no_api name) rest = no_api name

-- `new CacheKeysConfig(keys)`, of an input and of a configuration.
unfoldable pub keys_of : Option CacheKeysConfigInput → CacheKeysConfig
unfolding cache_keys_config
keys_of none =
    cache_keys_config (record { use_headers = none; use_query_params = none; use_auth = none })
keys_of (some keys) = cache_keys_config keys

unfoldable pub keys_again : CacheKeysConfig → CacheKeysConfig
unfolding cache_keys_config
keys_again keys = cache_keys_config (record {
  use_headers = some keys.use_headers;
  use_query_params = some keys.use_query_params;
  use_auth = some keys.use_auth;
})

-- `a ?? b`
abbrev pub or_else {ℓ} : {A : Type ℓ} → Option A → Option A → Option A
or_else none b = b
or_else (some a) b = some a

-- The constructor of a route's configuration, with the hour and the `false` that it falls back on.
unfoldable pub cache_route_config :
    Text → HttpMethod → List Text → Option ℕ → Option Hitpass → CacheKeysConfig → CacheRouteConfig
cache_route_config path method param_names max_age hitpass keys = record {
  max_age = default_to 3600000 max_age;
  path = path;
  method = method;
  param_names = param_names;
  keys = keys;
  hitpass = default_to (fixed false) hitpass;
}

module _ (options : CachePluginStrategyInput) where
  -- A listed route, below a content type's own options.
  unfoldable pub listed_route : CacheContentTypeConfigInput → RouteInput → CacheRouteConfig
  unfolding keys_of cache_route_config listed_route_hitpass listed_params
  listed_route entry (path_only path) =
      let keys = keys_of (or_else entry.keys options.keys) in
      cache_route_config path get (listed_params path) (or_else entry.max_age options.max_age)
        (listed_route_hitpass options.hitpass entry.hitpass keys) keys
  listed_route entry (configured route) =
      let keys = keys_of (or_else route.keys (or_else entry.keys options.keys)) in
      cache_route_config route.path (default_to get route.method)
        (default_to (listed_params route.path) route.param_names)
        (or_else route.max_age (or_else entry.max_age options.max_age))
        (or_else route.hitpass (listed_route_hitpass options.hitpass entry.hitpass keys)) keys

  unfoldable pub draft : ContentTypeInput → DraftContentTypeConfig
  unfolding keys_of listed_route
  draft (uid_only uid) = record {
    content_type = uid;
    inject_default_routes = true;
    max_age = options.max_age;
    hitpass = options.hitpass;
    keys = keys_of options.keys;
    routes = [];
  }
  draft (configured entry) = record {
    content_type = entry.content_type;
    inject_default_routes = default_to true entry.inject_default_routes;
    max_age = or_else entry.max_age options.max_age;
    hitpass = or_else entry.hitpass options.hitpass;
    keys = keys_of (or_else entry.keys options.keys);
    routes = map (listed_route entry) entry.routes;
  }

-- The methods of the default routes.
unfoldable pub is_collection_method : HttpMethod → Bool
is_collection_method get = true
is_collection_method post = true
is_collection_method _ = false

unfoldable pub is_document_method : HttpMethod → Bool
is_document_method get = true
is_document_method put = true
is_document_method delete = true
is_document_method _ = false

abbrev pub when {ℓ} : {A : Type ℓ} → Bool → A → List A
when test a = if test then a ∷ [] else []

-- The loop over the routes of the API that owns a content type.
module _ (api_prefix : Text) (conf : DraftContentTypeConfig) (content_type : ContentType) where
  unfoldable pub default_route : ApiRoute → CacheRouteConfig
  unfolding cache_route_config route_params keys_again
  default_route route =
      cache_route_config (api_prefix ++ route.path) route.method (route_params route.path)
        conf.max_age conf.hitpass (keys_again conf.keys)

  unfoldable pub default_routes_of : ApiRoute → List CacheRouteConfig
  unfolding default_route is_document_method is_collection_method
  default_routes_of route =
      let plural = b'/' ∷ content_type.plural_name in
      if content_type.single_type
      then when
          (is_document_method route.method
            && text_eq route.path (b'/' ∷ content_type.singular_name))
          (default_route route)
      else when (is_collection_method route.method && text_eq route.path plural)
          (default_route route)
        ++ when (is_document_method route.method && text_eq route.path (plural ++ lit "/:id"))
            (default_route route)

  unfoldable pub default_routes : List ApiRoute → List CacheRouteConfig
  unfolding default_routes_of
  default_routes [] = []
  default_routes (route ∷ routes) = default_routes_of route ++ default_routes routes

-- `if (cacheConfig.plugin)`
unfoldable pub is_of_plugin : ContentType → Bool
is_of_plugin content_type = elim content_type.plugin [
  | none ↦ false
  | some [] ↦ false
  | some (_ ∷ _) ↦ true
]

-- Strapi's content types, its APIs with their routes, and the search for related content types.
module _ (api_prefix : Text) (content_type_of : Text → Option ContentType)
    (apis : Text → Option (List ApiRoute)) (related : Text → List Text) where
  abbrev pub resolved_config :
      DraftContentTypeConfig → List CacheRouteConfig → CacheContentTypeConfig
  resolved_config conf injected = record {
    content_type = conf.content_type;
    routes = conf.routes ++ injected;
    related_content_type_uid = related conf.content_type;
  }

  -- The API is looked up under the text `undefined` if the uid names none.
  unfoldable pub inject_defaults :
      DraftContentTypeConfig → ContentType → Resolution CacheContentTypeConfig
  unfolding default_routes api_name_from_uid
  inject_defaults conf content_type =
      let name = default_to (lit "undefined") (api_name_from_uid conf.content_type) in
      elim (apis name) [
        | none ↦ no_api name
        | some routes ↦
            resolved (resolved_config conf (default_routes api_prefix conf content_type routes))
      ]

  unfoldable pub resolve_content_type : DraftContentTypeConfig → Resolution CacheContentTypeConfig
  unfolding inject_defaults is_of_plugin
  resolve_content_type conf = elim (content_type_of conf.content_type) [
    | none ↦ unknown_content_type conf.content_type
    | some content_type ↦
        if not conf.inject_default_routes || is_of_plugin content_type
        then resolved (resolved_config conf [])
        else inject_defaults conf content_type
  ]

  unfoldable pub resolve_all :
      List DraftContentTypeConfig → Resolution (List CacheContentTypeConfig)
  unfolding resolve_content_type first_error
  resolve_all [] = resolved []
  resolve_all (conf ∷ confs) = first_error (resolve_content_type conf) (resolve_all confs)

  -- The content types of the resolved strategy.
  unfoldable pub resolve_user_strategy :
      CachePluginStrategyInput → Resolution (List CacheContentTypeConfig)
  unfolding draft resolve_all
  resolve_user_strategy options = resolve_all (map (draft options) options.content_types)
