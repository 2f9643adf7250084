-- ===== src/Strategy/Configured.antt =====
-- packages/plugin-rest-cache/server/src/utils/config/resolveUserStrategy.ts: which routes an entry
-- stands for, and what each of them takes from where.
use mathlib.Core.List.{Memᴰ}
use plugin_rest_cache.Prelude.{
  ℕ, ◌≡◌, Bool, true, false, Option, none, some, List, ◌∷◌, ◌++◌, Text, lit,
}
use plugin_rest_cache.Keys.Config.{CacheKeysConfigInput, default_to}
use plugin_rest_cache.Response.Decisions.{get, Hitpass, fixed, CacheRouteConfig}
use plugin_rest_cache.Response.Listed.{listed_route_hitpass}
use plugin_rest_cache.Strategy.{
  keys_of, or_else, is_collection_method, is_document_method, is_of_plugin,
}
use plugin_rest_cache.Strategy.Inputs.{
  path_only, configured, CacheRouteConfigInput, CacheContentTypeConfigInput, ContentTypeInput,
  uid_only, CachePluginStrategyInput, ContentType, ApiRoute,
}
use plugin_rest_cache.Strategy.Names.{api_name_from_uid, listed_params, route_params}

-- What an entry of the strategy sets.
abbrev pub uid_of : ContentTypeInput → Text
uid_of (uid_only uid) = uid
uid_of (configured entry) = entry.content_type

abbrev pub own_max_age : ContentTypeInput → Option ℕ
own_max_age (uid_only uid) = none
own_max_age (configured entry) = entry.max_age

abbrev pub own_hitpass : ContentTypeInput → Option Hitpass
own_hitpass (uid_only uid) = none
own_hitpass (configured entry) = entry.hitpass

abbrev pub own_keys : ContentTypeInput → Option CacheKeysConfigInput
own_keys (uid_only uid) = none
own_keys (configured entry) = entry.keys

abbrev pub injects : ContentTypeInput → Bool
injects (uid_only uid) = true
injects (configured entry) = default_to true entry.inject_default_routes

-- A core route of a content type in its API.
pub data IsDefault (content_type : ContentType) (route : ApiRoute) : Type 0 where
  of_single :
      content_type.single_type ≡ true
      → is_document_method route.method ≡ true
      → route.path ≡ b'/' ∷ content_type.singular_name
      → IsDefault content_type route
  of_collection :
      content_type.single_type ≡ false
      → is_collection_method route.method ≡ true
      → route.path ≡ b'/' ∷ content_type.plural_name
      → IsDefault content_type route
  of_document :
      content_type.single_type ≡ false
      → is_document_method route.method ≡ true
      → route.path ≡ (b'/' ∷ content_type.plural_name) ++ lit "/:id"
      → IsDefault content_type route

module _ (api_prefix : Text) (content_type_of : Text → Option ContentType)
    (apis : Text → Option (List ApiRoute)) (options : CachePluginStrategyInput) where
  -- The routes of an entry: those that it lists, and the core routes of its API if they are injected.
  pub data Configured : ContentTypeInput → CacheRouteConfig → Type 0 where
    of_path :
        (entry : CacheContentTypeConfigInput) (path : Text)
        → Memᴰ (path_only path) entry.routes
        → Configured (configured entry) (record {
          max_age = default_to 3600000 (or_else entry.max_age options.max_age);
          path = path;
          method = get;
          param_names = listed_params path;
          keys = keys_of (or_else entry.keys options.keys);
          hitpass = default_to (fixed false) (
              listed_route_hitpass options.hitpass entry.hitpass
                (keys_of (or_else entry.keys options.keys)));
        })
    of_route :
        (entry : CacheContentTypeConfigInput) (route : CacheRouteConfigInput)
        → Memᴰ (configured route) entry.routes
        → Configured (configured entry) (record {
          max_age =
              default_to 3600000 (or_else route.max_age (or_else entry.max_age options.max_age));
          path = route.path;
          method = default_to get route.method;
          param_names = default_to (listed_params route.path) route.param_names;
          keys = keys_of (or_else route.keys (or_else entry.keys options.keys));
          hitpass = default_to (fixed false) (
              or_else route.hitpass (
                listed_route_hitpass options.hitpass entry.hitpass
                  (keys_of (or_else route.keys (or_else entry.keys options.keys)))));
        })
    of_api :
        (entry : ContentTypeInput) (content_type : ContentType) (routes : List ApiRoute)
        (route : ApiRoute)
        → content_type_of (uid_of entry) ≡ some content_type
        → injects entry ≡ true
        → is_of_plugin content_type ≡ false
        → apis (default_to (lit "undefined") (api_name_from_uid (uid_of entry))) ≡ some routes
        → Memᴰ route routes
        → IsDefault content_type route
        → Configured entry (record {
          max_age = default_to 3600000 (or_else (own_max_age entry) options.max_age);
          path = api_prefix ++ route.path;
          method = route.method;
          param_names = route_params route.path;
          keys = keys_of (or_else (own_keys entry) options.keys);
          hitpass = default_to (fixed false) (or_else (own_hitpass entry) options.hitpass);
        })
