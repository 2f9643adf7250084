-- ===== src/Tests/StrategyTests.antt =====
-- packages/plugin-rest-cache/server/src/utils/config/resolveUserStrategy.ts: runs of resolution.
use mathlib.Core.List.{Memᴰ}
use plugin_rest_cache.Prelude.{
  ℕ, ◌≡◌, refl, ◌↔◌, true, false, Option, none, some, List, [], ◌∷◌, map, if◌then◌else◌, Text, lit,
  text_eq,
}
use plugin_rest_cache.Keys.Config.{all_params}
use plugin_rest_cache.Purging.{CacheContentTypeConfig}
use plugin_rest_cache.Response.Decisions.{get, put, fixed, CacheRouteConfig}
use plugin_rest_cache.Strategy.{
  resolved, unknown_content_type, no_api, draft, default_routes, resolved_config,
  resolve_user_strategy,
}
use plugin_rest_cache.Strategy.Inputs.{
  path_only, configured, CacheContentTypeConfigInput, ContentTypeInput, CachePluginStrategyInput,
  ContentType, ApiRoute,
}
use plugin_rest_cache.Strategy.Warnings.{unkeyed_warnings}
use plugin_rest_cache.Strategy.Names.{api_name_from_uid, listed_params, route_params}
use plugin_rest_cache.Strategy.Configured.{uid_of, Configured}
use plugin_rest_cache.Strategy.Inherited.{resolve_user_strategy_iff}

editor_api : api_name_from_uid (lit "api::writer.editor") ≡ some (lit "writer")
unfolding api_name_from_uid
editor_api = refl

slug_params : listed_params (lit "/api/:lang/slug/:slug+") ≡ lit "lang" ∷ lit "slug+" ∷ []
unfolding listed_params
slug_params = refl

id_params : route_params (lit "/articles/:id") ≡ lit "id" ∷ []
unfolding route_params
id_params = refl

abbrev article : ContentType
article = record {
  single_type = false;
  plugin = none;
  singular_name = lit "article";
  plural_name = lit "articles";
}

abbrev content_type_of : Text → Option ContentType
content_type_of uid = if text_eq uid (lit "api::blog.article") then some article else none

abbrev blog_routes : List ApiRoute
blog_routes =
    record { method = get; path = lit "/articles" }
    ∷ record { method = put; path = lit "/articles/:id" }
    ∷ record { method = get; path = lit "/articles/feed" }
    ∷ []

abbrev apis : Text → Option (List ApiRoute)
apis name = if text_eq name (lit "blog") then some blog_routes else none

-- Ten minutes for the content type, and a listed route with a minute of its own.
abbrev entry : CacheContentTypeConfigInput
entry = record {
  content_type = lit "api::blog.article";
  inject_default_routes = none;
  max_age = some 600000;
  hitpass = none;
  keys = none;
  routes =
      path_only (lit "/api/feed/:lang")
      ∷ configured (record {
        path = lit "/api/news";
        method = none;
        param_names = none;
        max_age = some 60000;
        hitpass = some (fixed false);
        keys = none;
      })
      ∷ [];
}

abbrev options : CachePluginStrategyInput
options = record {
  max_age = some 1000;
  hitpass = some (fixed true);
  keys = none;
  content_types = configured entry ∷ [];
}

abbrev confs : List CacheContentTypeConfig
confs =
    resolved_config (lit "/api") content_type_of apis (λ uid. []) (draft options (configured entry))
      (default_routes (lit "/api") (draft options (configured entry)) article blog_routes)
    ∷ []

resolves :
    resolve_user_strategy (lit "/api") content_type_of apis (λ uid. []) options ≡ resolved confs
unfolding resolve_user_strategy text_eq
resolves = refl

abbrev ages : List CacheContentTypeConfig → List (List (Text × ℕ))
ages cs =
    map
      (λ (c : CacheContentTypeConfig). map (λ (r : CacheRouteConfig). (r.path, r.max_age)) c.routes)
      cs

resolved_ages :
    ages confs
    ≡ ((lit "/api/feed/:lang", 600000)
        ∷ (lit "/api/news", 60000)
        ∷ (lit "/api/articles", 600000)
        ∷ (lit "/api/articles/:id", 600000)
        ∷ [])
      ∷ []
unfolding draft default_routes text_eq
resolved_ages = refl

-- Only the route that turns the bypass off itself shares what a caller gets.
warned : unkeyed_warnings confs ≡ (lit "api::blog.article", lit "/api/news" ∷ []) ∷ []
unfolding draft default_routes text_eq unkeyed_warnings
warned = refl

unknown :
    resolve_user_strategy (lit "/api") (λ uid. none) apis (λ uid. []) options
    ≡ unknown_content_type (lit "api::blog.article")
unfolding resolve_user_strategy
unknown = refl

ownerless :
    resolve_user_strategy (lit "/api") content_type_of (λ name. none) (λ uid. []) options
    ≡ no_api (lit "blog")
unfolding resolve_user_strategy text_eq
ownerless = refl

abbrev feed : CacheRouteConfig
feed = record {
  max_age = 600000;
  path = lit "/api/feed/:lang";
  method = get;
  param_names = lit "lang" ∷ [];
  keys = record { use_headers = []; use_query_params = all_params; use_auth = false };
  hitpass = fixed true;
}

resolve_user_strategy_iff_example :
    ((conf : CacheContentTypeConfig) × Memᴰ conf confs
      × (conf.content_type ≡ lit "api::blog.article")
      × Memᴰ feed conf.routes)
    ↔ ((e : ContentTypeInput) × Memᴰ e options.content_types
        × (uid_of e ≡ lit "api::blog.article")
        × Configured (lit "/api") content_type_of apis options e feed)
resolve_user_strategy_iff_example =
    resolve_user_strategy_iff (lit "/api") content_type_of apis (λ uid. []) options confs
      (lit "api::blog.article") feed resolves

-- The listed route comes out.
feed_resolved : Memᴰ feed (draft options (configured entry)).routes
unfolding draft
feed_resolved = Memᴰ.head refl
