-- ===== src/Purging/Matched.antt =====
-- packages/plugin-rest-cache/server/src/services/cacheConfig.ts: the keys that a purge is meant for.
use mathlib.Core.Path.{ap₂}
use plugin_rest_cache.Prelude.{
  ◌≡◌, refl, sym, ap, ◌∙◌, inl, inr, Bool, true, false, ◌&&◌, ◌||◌, Option, none, some, List, [],
  ◌∷◌, ◌++◌, arith, if◌then◌else◌, Bool-cases, Option-cases, any, filter, any-append, Text,
}
use plugin_rest_cache.Patterns.{Params, get_route_reg_exp}
use plugin_rest_cache.Response.Decisions.{CacheRouteConfig, is_get}
use plugin_rest_cache.Purging.{
  CacheContentTypeConfig, CachePluginStrategy, get, is_cached, route_sources, get_routes,
  compile_all, get_cache_keys_regexp, related_regexps, uid_regexps,
}
use plugin_rest_cache.Store.{should_del}
use plugin_rest_cache.Store.Log.{RegExp}

-- Two results, and what is made of both.
pub combined {ℓ κ μ} :
    {A : Type ℓ} {B : Type κ} {C : Type μ} (f : A → B → C) (a : Option A) (b : Option B) (c : C)
    → (elim a [ none ↦ none | some x ↦ elim b [ none ↦ none | some y ↦ some (f x y) ] ]) ≡ some c
    → (x : A) × (y : B) × (a ≡ some x) × (b ≡ some y) × (f x y ≡ c)
combined f none b c e = cc
combined f (some x) none c e = cc
combined f (some x) (some y) c e = (x, y, refl, refl, cc)

module _ (compile : Text → Option RegExp) where
  -- A pattern's source accepts a key.
  abbrev pub accepts : Text → Text → Bool
  accepts key source = elim (compile source) [ none ↦ false | some r ↦ r key ]

  -- A GET route of the list has a pattern that accepts the key.
  abbrev pub routes_accept : List CacheRouteConfig → Option Params → Bool → Text → Bool
  routes_accept routes params wildcard key =
      any
        (λ route.
          is_get route.method && any (accepts key) (get_route_reg_exp route params wildcard))
        routes

  -- The key belongs to a cached content type.
  abbrev pub belongs : CachePluginStrategy → Text → Option Params → Bool → Text → Bool
  belongs strategy uid params wildcard key = elim (get strategy uid) [
    | none ↦ false
    | some conf ↦ routes_accept conf.routes params wildcard key
  ]

  -- The key belongs to the content type, or to one related to it, if those are cleared too.
  abbrev pub meant :
      CachePluginStrategy → CacheContentTypeConfig → Option Params → Bool → Text → Bool
  meant strategy conf params wildcard key =
      routes_accept conf.routes params wildcard key
      || (strategy.clear_related_cache
          && any (λ uid. belongs strategy uid (some []) true key) conf.related_content_type_uid)

  one_more :
      (s : Text) (sources : List Text) (r : RegExp) (later rs : List RegExp) (key : Text)
      → compile s ≡ some r
      → r ∷ later ≡ rs
      → should_del later key ≡ any (accepts key) sources
      → should_del rs key ≡ any (accepts key) (s ∷ sources)
  one_more s sources r later rs key here same ih =
      rw (sym same, here, accepts) (ap (◌||◌ (r key)) ih)

  compile_all_lem :
      (sources : List Text) (rs : List RegExp) (key : Text)
      → compile_all compile sources ≡ some rs
      → should_del rs key ≡ any (accepts key) sources
  unfolding compile_all
  compile_all_lem [] rs key e = let same : rs ≡ [] = cc in rw same refl
  compile_all_lem (s ∷ sources) rs key e =
      let (r, later, here, there, same) =
        combined ◌∷◌ (compile s) (compile_all compile sources) rs e in
      one_more s sources r later rs key here same (compile_all_lem sources later key there)

  any-route_sources :
      (routes : List CacheRouteConfig) (params : Option Params) (wildcard : Bool) (key : Text)
      → any
          (accepts key)
          (route_sources (filter (λ route. is_get route.method) routes) params wildcard)
        ≡ routes_accept routes params wildcard key
  unfolding route_sources
  any-route_sources [] params wildcard key = refl
  any-route_sources (route ∷ routes) params wildcard key = elim (Bool-cases (is_get route.method)) [
    | inl reads ↦
        rw
          (
            reads,
            any-append (accepts key) (get_route_reg_exp route params wildcard)
                (route_sources (filter (λ r. is_get r.method) routes) params wildcard),
            any-route_sources routes params wildcard key,
          )
          refl
    | inr writes ↦ rw writes (any-route_sources routes params wildcard key)
  ]

  pub get_cache_keys_regexp_lem :
      (strategy : CachePluginStrategy) (uid : Text) (params : Option Params) (wildcard : Bool)
      (rs : List RegExp) (key : Text)
      → get_cache_keys_regexp compile strategy uid params wildcard ≡ some rs
      → should_del rs key ≡ belongs strategy uid params wildcard key
  unfolding get_cache_keys_regexp
  get_cache_keys_regexp_lem strategy uid params wildcard rs key e =
      elim (Option-cases (get strategy uid)) [
        | inl absent ↦
            let none_left : rs ≡ [] = cc (rw (absent, get_cache_keys_regexp) at e) in
            rw (none_left, absent, belongs) refl
        | inr (conf, found) ↦
            rw (found, belongs)
              (compile_all_lem (route_sources (get_routes conf) params wildcard) rs key
                  (rw (found, get_cache_keys_regexp) at e)
                ∙ any-route_sources conf.routes params wildcard key)
      ]

  -- An uncached content type has no key.
  own_regexps :
      (strategy : CachePluginStrategy) (uid : Text) (rs : List RegExp) (key : Text)
      → (if is_cached strategy uid
          then get_cache_keys_regexp compile strategy uid (some []) true
          else some [])
        ≡ some rs
      → should_del rs key ≡ belongs strategy uid (some []) true key
  unfolding is_cached
  own_regexps strategy uid rs key e = elim (Option-cases (get strategy uid)) [
    | inl absent ↦
        let none_left : rs ≡ [] = cc (rw (absent, is_cached) at e) in
        rw (none_left, absent, belongs) refl
    | inr (conf, found) ↦
        get_cache_keys_regexp_lem strategy uid (some []) true rs key (rw (found, is_cached) at e)
  ]

  related_more :
      (strategy : CachePluginStrategy) (uid : Text) (uids : List Text) (here later rs : List RegExp)
      (key : Text)
      → (if is_cached strategy uid
          then get_cache_keys_regexp compile strategy uid (some []) true
          else some [])
        ≡ some here
      → here ++ later ≡ rs
      → should_del later key ≡ any (λ u. belongs strategy u (some []) true key) uids
      → should_del rs key ≡ any (λ u. belongs strategy u (some []) true key) (uid ∷ uids)
  related_more strategy uid uids here later rs key own same ih =
      rw (sym same)
        (any-append (λ r. r key) here later ∙ ap₂ ◌||◌ (own_regexps strategy uid here key own) ih)

  related_regexps_lem :
      (strategy : CachePluginStrategy) (uids : List Text) (rs : List RegExp) (key : Text)
      → related_regexps compile strategy uids ≡ some rs
      → should_del rs key ≡ any (λ uid. belongs strategy uid (some []) true key) uids
  unfolding related_regexps
  related_regexps_lem strategy [] rs key e = let same : rs ≡ [] = cc in rw same refl
  related_regexps_lem strategy (uid ∷ uids) rs key e =
      let (here, later, own, others, same) =
        combined ◌++◌
          (if is_cached strategy uid
            then get_cache_keys_regexp compile strategy uid (some []) true
            else some [])
          (related_regexps compile strategy uids) rs e in
      related_more strategy uid uids here later rs key own same
        (related_regexps_lem strategy uids later key others)

  flagged :
      (strategy : CachePluginStrategy) (conf : CacheContentTypeConfig) (on : Bool)
      (own rs : List RegExp) (key : Text)
      → (if on
          then (elim (related_regexps compile strategy conf.related_content_type_uid) [
            | none ↦ none
            | some related ↦ some (own ++ related)
          ])
          else some own)
        ≡ some rs
      → should_del rs key ≡ (
          should_del own key
          || (on
              && any
                  (λ uid. belongs strategy uid (some []) true key)
                  conf.related_content_type_uid))
  flagged strategy conf false own rs key e =
      let same : own ≡ rs = cc in rw (sym same) (ground arith)
  flagged strategy conf true own rs key e =
      let (x, related, at_own, found, same) =
        combined ◌++◌ (some own) (related_regexps compile strategy conf.related_content_type_uid) rs
          e in
      let kept : x ≡ own = cc in
      rw (sym same, kept)
        (any-append (λ r. r key) own related
          ∙ ap (◌||◌ (should_del own key))
              (related_regexps_lem strategy conf.related_content_type_uid related key found))

  -- The patterns of a purge accept exactly the keys that it is meant for.
  pub uid_regexps-meant :
      (strategy : CachePluginStrategy) (conf : CacheContentTypeConfig) (uid : Text)
      (params : Option Params) (wildcard : Bool) (rs : List RegExp) (key : Text)
      → get strategy uid ≡ some conf
      → uid_regexps compile strategy conf uid params wildcard ≡ some rs
      → should_del rs key ≡ meant strategy conf params wildcard key
  unfolding uid_regexps
  uid_regexps-meant strategy conf uid params wildcard rs key found e =
      elim (Option-cases (get_cache_keys_regexp compile strategy uid params wildcard)) [
        | inl failed ↦ cc (rw (failed, uid_regexps) at e)
        | inr (own, compiled) ↦
            flagged strategy conf strategy.clear_related_cache own rs key
              (rw (compiled, uid_regexps) at e)
            ∙ ap
                (λ b.
                  b
                  || (strategy.clear_related_cache
                      && any (λ u. belongs strategy u (some []) true key)
                          conf.related_content_type_uid))
                (get_cache_keys_regexp_lem strategy uid params wildcard own key compiled
                  ∙ rw (found, belongs) refl)
      ]
