-- ===== src/Keys/Distinct.antt =====
-- Requests share a cache key only if they ask for the same thing.
use plugin_rest_cache.Prelude.{
  ◌≡◌, refl, sym, ◌∙◌, [], ◌∷◌, Bool, true, false, List, Text, Free, cut_unique,
}
use plugin_rest_cache.Context.{Request}
use plugin_rest_cache.Keys.{query_suffix, headers_suffix, auth_suffix, generate_cache_key}
use plugin_rest_cache.Keys.Config.{CacheKeysConfig, UseQueryParams, no_params, sort}
use plugin_rest_cache.Keys.Query.{generate_query_params_key}
use plugin_rest_cache.Keys.Headers.{generate_headers_key}
use plugin_rest_cache.Keys.Auth.{auth_key, generate_auth_key}
use plugin_rest_cache.Keys.Path.{request_path}
use plugin_rest_cache.Keys.Paths.{request_path-Free}
use plugin_rest_cache.Keys.QueryView.{AreParameters, query_view, query_key-view, query_key-Free}
use plugin_rest_cache.Keys.HeaderView.{AreHeaders, headers_view, headers_key-view, headers_key-Free}
use plugin_rest_cache.Keys.Identity.{Principal, From, HasNumericId, auth_key-From_injective}

-- A request as it reaches the middleware: a percent-encoded path, and well-formed strings.
pub record IsKeyable (keys : CacheKeysConfig) (r : Request) : Type 0 where
  pub path : Free b'?' r.path
  pub query : AreParameters r.query
  pub headers : AreHeaders r keys.use_headers

query_suffix-Free :
    (params : UseQueryParams) (r : Request)
    → AreParameters r.query
    → Free b'&' (query_suffix r params)
unfolding query_suffix
query_suffix-Free no_params r h = tt
query_suffix-Free params r h = query_key-Free params r h

headers_suffix-Free :
    (names : List Text) (r : Request) → AreHeaders r names → Free b'&' (headers_suffix r names)
unfolding headers_suffix
headers_suffix-Free [] r h = tt
headers_suffix-Free (n ∷ names) r h = headers_key-Free (n ∷ names) r h

no_params_key : (r : Request) → generate_query_params_key r no_params ≡ []
unfolding generate_query_params_key sort
no_params_key r = refl

query_suffix-view :
    (params : UseQueryParams) (r r' : Request)
    → AreParameters r.query
    → AreParameters r'.query
    → query_suffix r params ≡ query_suffix r' params
    → query_view params r.query ≡ query_view params r'.query
unfolding query_suffix
query_suffix-view no_params r r' h k e =
    query_key-view no_params r r' h k (no_params_key r ∙ sym (no_params_key r'))
query_suffix-view params r r' h k e = query_key-view params r r' h k e

headers_suffix-view :
    (names : List Text) (r r' : Request)
    → AreHeaders r names
    → AreHeaders r' names
    → headers_suffix r names ≡ headers_suffix r' names
    → headers_view r names ≡ headers_view r' names
unfolding headers_suffix
headers_suffix-view [] r r' h k e =
    headers_key-view [] r r' h k (unfold generate_headers_key in refl)
headers_suffix-view (n ∷ names) r r' h k e = headers_key-view (n ∷ names) r r' h k e

-- The parts of a key, read back.
key_parts :
    (keys : CacheKeysConfig) (r r' : Request)
    → IsKeyable keys r
    → IsKeyable keys r'
    → generate_cache_key r keys ≡ generate_cache_key r' keys
    → (request_path r.path ≡ request_path r'.path)
      × (query_suffix r keys.use_query_params ≡ query_suffix r' keys.use_query_params)
      × (headers_suffix r keys.use_headers ≡ headers_suffix r' keys.use_headers)
      × (auth_suffix r keys.use_auth ≡ auth_suffix r' keys.use_auth)
unfolding generate_cache_key
key_parts keys r r' h k e =
    let (paths, rest) =
      cut_unique b'?' _ _ _ _ (request_path-Free r.path h.path) (request_path-Free r'.path k.path)
        e in
    let (queries, tail) =
      cut_unique b'&' _ _ _ _ (query_suffix-Free keys.use_query_params r h.query)
        (query_suffix-Free keys.use_query_params r' k.query) rest in
    let (headers, auths) =
      cut_unique b'&' _ _ _ _ (headers_suffix-Free keys.use_headers r h.headers)
        (headers_suffix-Free keys.use_headers r' k.headers) tail in
    (paths, queries, headers, auths)

-- Two requests with one cache key have the same normalised path, the same selected query parameters
-- with the same values, and the same configured headers with the same values, if their paths have no
-- question mark and their texts are well-formed.
pub generate_cache_key-injective :
    (keys : CacheKeysConfig) (r r' : Request)
    → IsKeyable keys r
    → IsKeyable keys r'
    → generate_cache_key r keys ≡ generate_cache_key r' keys
    → (request_path r.path ≡ request_path r'.path)
      × (query_view keys.use_query_params r.query ≡ query_view keys.use_query_params r'.query)
      × (headers_view r keys.use_headers ≡ headers_view r' keys.use_headers)
generate_cache_key-injective keys r r' h k e =
    let (paths, queries, headers, auths) = key_parts keys r r' h k e in
    (
      paths,
      query_suffix-view keys.use_query_params r r' h.query k.query queries,
      headers_suffix-view keys.use_headers r r' h.headers k.headers headers,
    )

auth_suffix-on :
    (r r' : Request) (use_auth : Bool)
    → use_auth ≡ true
    → auth_suffix r use_auth ≡ auth_suffix r' use_auth
    → auth_key r.auth ≡ auth_key r'.auth
unfolding auth_suffix generate_auth_key
auth_suffix-on r r' true on e = e
auth_suffix-on r r' false on e = cc

-- Where the keys use the caller, two requests with one cache key have callers that the plugin does
-- not tell apart: both are unauthenticated, both are visitors, or both are users with one id, API
-- tokens with one id and type, admins or admin tokens with one id, or callers of one custom
-- strategy, whoever they are. Their paths have no question mark, their texts are well-formed, and
-- users and tokens have numeric ids.
pub generate_cache_key-From :
    (keys : CacheKeysConfig) (r r' : Request) (p q : Principal)
    → keys.use_auth ≡ true
    → IsKeyable keys r
    → IsKeyable keys r'
    → From r.auth p
    → From r'.auth q
    → HasNumericId p
    → HasNumericId q
    → generate_cache_key r keys ≡ generate_cache_key r' keys
    → p ≡ q
generate_cache_key-From keys r r' p q on h k from from' id id' e =
    let (paths, queries, headers, auths) = key_parts keys r r' h k e in
    auth_key-From_injective r.auth r'.auth p q from from' id id'
      (auth_suffix-on r r' keys.use_auth on auths)
