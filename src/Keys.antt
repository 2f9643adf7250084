-- ===== src/Keys.antt =====
-- packages/plugin-rest-cache/server/src/utils/keys/generateCacheKey.ts
pub mod Sorted
pub mod Config
pub mod Escape
pub mod Query
pub mod Headers
pub mod Auth
pub mod Path
pub mod Parts
pub mod QueryView
pub mod HeaderView
pub mod Paths
pub mod Identity
pub mod Distinct
use plugin_rest_cache.Prelude.{[], ◌∷◌, ◌++◌, List, Bool, if◌then◌else◌, Text}
use plugin_rest_cache.Context.{Request}
use Config.{CacheKeysConfig, UseQueryParams, no_params}
use Query.{generate_query_params_key}
use Headers.{generate_headers_key}
use Auth.{generate_auth_key}
use Path.{request_path}

-- `keys.useQueryParams !== false`
unfoldable pub query_suffix : Request → UseQueryParams → Text
query_suffix ctx no_params = []
query_suffix ctx params = generate_query_params_key ctx params

-- `keys.useHeaders.length > 0`
unfoldable pub headers_suffix : Request → List Text → Text
headers_suffix ctx [] = []
headers_suffix ctx (name ∷ names) = generate_headers_key ctx (name ∷ names)

unfoldable pub auth_suffix : Request → Bool → Text
auth_suffix ctx use_auth = if use_auth then generate_auth_key ctx else []

unfoldable pub generate_cache_key : Request → CacheKeysConfig → Text
unfolding query_suffix headers_suffix auth_suffix generate_query_params_key generate_headers_key
    generate_auth_key request_path
generate_cache_key ctx keys =
    let tail = headers_suffix ctx keys.use_headers ++ b'&' ∷ auth_suffix ctx keys.use_auth in
    request_path ctx.path ++ b'?' ∷ (query_suffix ctx keys.use_query_params ++ b'&' ∷ tail)
