-- ===== src/Strategy/Inputs.antt =====
-- packages/plugin-rest-cache/server/src/types/inputs.ts, and what resolution reads of Strapi.
use plugin_rest_cache.Prelude.{ℕ, Bool, Option, List, Text}
use plugin_rest_cache.Keys.Config.{CacheKeysConfig, CacheKeysConfigInput}
use plugin_rest_cache.Response.Decisions.{HttpMethod, Hitpass, CacheRouteConfig}

-- The inputs: `none` is undefined. A route has a path, and a content type its uid.
pub record CacheRouteConfigInput : Type 0 where
  pub path : Text
  pub method : Option HttpMethod
  pub param_names : Option (List Text)
  pub max_age : Option ℕ
  pub hitpass : Option Hitpass
  pub keys : Option CacheKeysConfigInput

pub data RouteInput : Type 0 where
  path_only : Text → RouteInput
  configured : CacheRouteConfigInput → RouteInput

pub record CacheContentTypeConfigInput : Type 0 where
  pub content_type : Text
  pub inject_default_routes : Option Bool
  pub max_age : Option ℕ
  pub hitpass : Option Hitpass
  pub keys : Option CacheKeysConfigInput
  pub routes : List RouteInput

-- An entry that is a string stands for an object with the uid alone.
pub data ContentTypeInput : Type 0 where
  uid_only : Text → ContentTypeInput
  configured : CacheContentTypeConfigInput → ContentTypeInput

-- What resolution reads of the strategy.
pub record CachePluginStrategyInput : Type 0 where
  pub max_age : Option ℕ
  pub hitpass : Option Hitpass
  pub keys : Option CacheKeysConfigInput
  pub content_types : List ContentTypeInput

pub record DraftContentTypeConfig : Type 0 where
  pub content_type : Text
  pub inject_default_routes : Bool
  pub max_age : Option ℕ
  pub hitpass : Option Hitpass
  pub keys : CacheKeysConfig
  pub routes : List CacheRouteConfig

-- What Strapi knows of a content type, and a route of an API.
pub record ContentType : Type 0 where
  pub single_type : Bool
  pub plugin : Option Text
  pub singular_name : Text
  pub plural_name : Text

pub record ApiRoute : Type 0 where
  pub method : HttpMethod
  pub path : Text
