-- ===== src/Response/Sharing.antt =====
-- packages/plugin-rest-cache/server/src/utils: what the decisions about a route and a request mean.
use mathlib.Core.Path.{subst}
use plugin_rest_cache.Prelude.{
  ◌≡◌, refl, sym, ap, ◌↔◌, inl, inr, Bool, true, false, ◌&&◌, ◌||◌, not, Option, none, some, List,
  [], ◌∷◌, ◌++◌, arith, or_cases, not_iff, Text, lit, starts_with, starts_with-append,
  append-drop_of_starts_with,
}
use plugin_rest_cache.Outcome.{resolved}
use plugin_rest_cache.Context.{Request, AuthState, lookup}
use plugin_rest_cache.Keys.{generate_cache_key, query_suffix, headers_suffix}
use plugin_rest_cache.Keys.Config.{CacheKeysConfig, UseQueryParams, all_params, no_params, only}
use plugin_rest_cache.Keys.Query.{generate_query_params_key, join}
use plugin_rest_cache.Keys.Headers.{header_part, header_parts, generate_headers_key}
use plugin_rest_cache.Response.Decisions.{
  Hitpass, fixed, decided, CacheRouteConfig, should_lookup, is_get, never_bypassed,
  is_unkeyed_authenticated_route, contains, quoted, etag_match,
}

-- The same request from another caller.
abbrev pub as_caller : Option AuthState → Request → Request
as_caller auth r = record r { auth = auth }

query_suffix-caller :
    (r : Request) (auth : Option AuthState) (params : UseQueryParams)
    → query_suffix r params ≡ query_suffix (as_caller auth r) params
unfolding query_suffix generate_query_params_key
query_suffix-caller r auth no_params = refl
query_suffix-caller r auth all_params = refl
query_suffix-caller r auth (only names) = refl

header_parts-caller :
    (r : Request) (auth : Option AuthState) (names : List Text)
    → header_parts r names ≡ header_parts (as_caller auth r) names
unfolding header_parts header_part
header_parts-caller r auth [] = refl
header_parts-caller r auth (n ∷ names) =
    ap (λ t. header_part r n ++ t) (header_parts-caller r auth names)

headers_suffix-caller :
    (r : Request) (auth : Option AuthState) (names : List Text)
    → headers_suffix r names ≡ headers_suffix (as_caller auth r) names
unfolding headers_suffix generate_headers_key
headers_suffix-caller r auth [] = refl
headers_suffix-caller r auth (n ∷ names) = ap join (header_parts-caller r auth (n ∷ names))

pub generate_cache_key-caller :
    (r : Request) (auth : Option AuthState) (keys : CacheKeysConfig)
    → keys.use_auth ≡ false
    → generate_cache_key r keys ≡ generate_cache_key (as_caller auth r) keys
unfolding generate_cache_key
generate_cache_key-caller r auth keys off =
    rw
      (
        off,
        query_suffix-caller r auth keys.use_query_params,
        headers_suffix-caller r auth keys.use_headers,
      )
      refl

and3_parts : (a b c : Bool) → (a && b && c) ≡ true → (a ≡ true) × (b ≡ true) × (c ≡ true)
and3_parts a b c h = ground arith

looked_up :
    (r : Request) (h : Hitpass) → never_bypassed h ≡ true → should_lookup r h ≡ resolved true
unfolding never_bypassed should_lookup
looked_up r (fixed true) e = cc
looked_up r (fixed false) e = refl
looked_up r (decided f) e = cc

-- On a route that isUnkeyedAuthenticatedRoute reports, a request has the same cache key, and is
-- looked up, whichever caller it is authenticated as, all else about it, its headers included,
-- being the same.
pub unkeyed-shares :
    (route : CacheRouteConfig) (r : Request) (auth : Option AuthState)
    → is_unkeyed_authenticated_route route ≡ true
    → (generate_cache_key r route.keys ≡ generate_cache_key (as_caller auth r) route.keys)
      × (should_lookup r route.hitpass ≡ resolved true)
      × (should_lookup (as_caller auth r) route.hitpass ≡ resolved true)
unfolding is_unkeyed_authenticated_route
unkeyed-shares route r auth h =
    let (method, always, unkeyed) =
      and3_parts (is_get route.method) (never_bypassed route.hitpass) (not route.keys.use_auth) h in
    (
      generate_cache_key-caller r auth route.keys ((not_iff route.keys.use_auth).0 unkeyed),
      looked_up r route.hitpass always,
      looked_up (as_caller auth r) route.hitpass always,
    )

contains_sound :
    (part s : Text) → contains part s ≡ true → (front back : Text) × (s ≡ front ++ (part ++ back))
unfolding contains
contains_sound part [] h = ([], _, sym (append-drop_of_starts_with part [] h))
contains_sound part (c ∷ s) h = elim (or_cases (starts_with (c ∷ s) part) (contains part s) h) [
  | inl e ↦ ([], _, sym (append-drop_of_starts_with part (c ∷ s) e))
  | inr e ↦
      let (front, back, parts) = contains_sound part s e in (c ∷ front, back, ap (◌∷◌ c) parts)
]

or_right : (b c : Bool) → c ≡ true → (b || c) ≡ true
or_right b c h = ground arith

contains_here : (part s : Text) → starts_with s part ≡ true → contains part s ≡ true
unfolding contains
contains_here part [] h = h
contains_here part (c ∷ s) h = rw h refl

contains-append : (part front back : Text) → contains part (front ++ (part ++ back)) ≡ true
unfolding contains
contains-append part [] back = contains_here part (part ++ back) (starts_with-append part back)
contains-append part (c ∷ front) back =
    or_right (starts_with (c ∷ (front ++ (part ++ back))) part) _ (contains-append part front back)

-- The header names the tag, in quotes.
abbrev Names : Option Text → Text → Type 0
Names header etag =
    (h : Text) × (header ≡ some h)
    × (front : Text) × (back : Text) × (h ≡ front ++ (quoted etag ++ back))

etag_match-Names :
    (ctx : Request) (etag : Text) (header : Option Text)
    → lookup (lit "if-none-match") ctx.header ≡ header
    → etag_match ctx etag ≡ true
    → Names header etag
unfolding etag_match
etag_match-Names ctx etag none e h = cc (rw (e, etag_match) at h)
etag_match-Names ctx etag (some []) e h = cc (rw (e, etag_match) at h)
etag_match-Names ctx etag (some (c ∷ s)) e h =
    let (front, back, parts) = contains_sound (quoted etag) (c ∷ s) (rw (e, etag_match) at h) in
    (c ∷ s, refl, front, back, parts)

Names-etag_match :
    (ctx : Request) (etag h front back : Text)
    → lookup (lit "if-none-match") ctx.header ≡ some h
    → h ≡ front ++ (quoted etag ++ back)
    → etag_match ctx etag ≡ true
unfolding etag_match
Names-etag_match ctx etag [] [] back e parts = cc
Names-etag_match ctx etag [] (d ∷ front) back e parts = cc
Names-etag_match ctx etag (c ∷ s) front back e parts =
    let found : contains (quoted etag) (c ∷ s) ≡ true =
      subst (λ x. contains (quoted etag) x ≡ true) (sym parts)
        (contains-append (quoted etag) front back) in
    rw (e, etag_match) found

-- etagMatch holds exactly if the request has an If-None-Match header in which the tag stands in
-- quotes.
etag_match_iff :
    (ctx : Request) (etag : Text)
    → (etag_match ctx etag ≡ true) ↔ Names (lookup (lit "if-none-match") ctx.header) etag
etag_match_iff ctx etag = (
  etag_match-Names ctx etag (lookup (lit "if-none-match") ctx.header) refl,
  λ (h, e, front, back, parts). Names-etag_match ctx etag h front back e parts,
)
