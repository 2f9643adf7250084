-- ===== src/Response.antt =====
-- packages/plugin-rest-cache/server/src: the response side of Koa's context, and what the plugin
-- decides from it (utils/middlewares, utils/etags, utils/config/unkeyedAuthenticatedRoutes.ts).
pub mod Spaces
pub mod CacheControl
pub mod Advertised
pub mod Cacheable
pub mod Directives
pub mod Refusals
pub mod Decisions
pub mod Sharing
pub mod Listed
pub mod Replay
pub mod Served
pub mod Words
pub mod Passive
pub mod Etags
use plugin_rest_cache.Prelude.{
  ℕ, Bool, true, false, not, none, some, List, [], ◌∷◌, Text, lit, text_eq,
}
use plugin_rest_cache.Json.{Json, null, bool, num, str, arr, obj}
use plugin_rest_cache.Context.{lookup, to_lower_case}

-- `ctx.body`: a value that JSON can hold, `null` for none, or one that it cannot.
pub data Body : Type 0 where
  value : Json → Body
  stream buffer : Body

-- The response of a context; header names are in lower case.
pub record Response : Type 0 where
  pub respond : Bool
  pub status : ℕ
  pub body : Body
  pub headers : List (Text × Text)

-- `ctx.response.get(name)`: the empty text if the header is not set.
unfoldable pub get_header : Text → Response → Text
unfolding lookup to_lower_case
get_header name r = elim (lookup (to_lower_case name) r.headers) [ none ↦ [] | some v ↦ v ]

-- `Boolean(v)`; zero prints as 0.
unfoldable pub truthy : Json → Bool
truthy null = false
truthy (bool b) = b
truthy (num t) = not (text_eq t (lit "0"))
truthy (str []) = false
truthy (str (c ∷ s)) = true
truthy (arr vs) = true
truthy (obj fs) = true

unfoldable pub body_truthy : Body → Bool
unfolding truthy
body_truthy (value v) = truthy v
body_truthy stream = true
body_truthy buffer = true
