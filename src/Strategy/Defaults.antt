-- ===== src/Strategy/Defaults.antt =====
-- packages/plugin-rest-cache/server/src/utils/config/resolveUserStrategy.ts: the core routes that are
-- injected.
use mathlib.Core.List.{Memᴰ}
use mathlib.Core.Path.{subst}
use plugin_rest_cache.Prelude.{
  ◌≡◌, refl, sym, ap, ◌⊎◌, inl, inr, Bool, true, false, ◌&&◌, Option, none, some, List, [], ◌∷◌,
  if◌then◌else◌, and_parts, if_true, if_false, nowhere, Mem-left, Mem-right, Mem-append_cases, Text,
  text_eq, text_eq_sound, text_eq_refl,
}
use plugin_rest_cache.Keys.Config.{CacheKeysConfigInput, cache_keys_config, default_to}
use plugin_rest_cache.Keys.Sorted.{sort-sort}
use plugin_rest_cache.Response.Decisions.{CacheRouteConfig}
use plugin_rest_cache.Strategy.{
  keys_of, keys_again, is_collection_method, is_document_method, when, default_route,
  default_routes_of, default_routes,
}
use plugin_rest_cache.Strategy.Inputs.{DraftContentTypeConfig, ContentType, ApiRoute}
use plugin_rest_cache.Strategy.Configured.{IsDefault, of_single, of_collection, of_document}

pub keys_again-keys_of :
    (keys : Option CacheKeysConfigInput) → keys_again (keys_of keys) ≡ keys_of keys
unfolding keys_again keys_of cache_keys_config
keys_again-keys_of none = ap (λ h. record (keys_of none) { use_headers = h }) (sort-sort [])
keys_again-keys_of (some k) =
    ap (λ h. record (keys_of (some k)) { use_headers = h })
      (sort-sort (default_to [] k.use_headers))

Mem-when : {A : Type 0} (test : Bool) (a b : A) → Memᴰ b (when test a) → (test ≡ true) × (b ≡ a)
Mem-when true a b (Memᴰ.head e) = (refl, e)
Mem-when true a b (Memᴰ.tail m) = absurd (nowhere m)
Mem-when false a b m = absurd (nowhere m)

when-Mem : {A : Type 0} (test : Bool) (a : A) → test ≡ true → Memᴰ a (when test a)
when-Mem true a h = Memᴰ.head refl
when-Mem false a h = cc

Mem-if :
    {A : Type 0} (test : Bool) (xs ys : List A) (a : A)
    → Memᴰ a (if test then xs else ys)
    → ((test ≡ true) × Memᴰ a xs) ⊎ ((test ≡ false) × Memᴰ a ys)
Mem-if true xs ys a m = inl (refl, m)
Mem-if false xs ys a m = inr (refl, m)

-- A test of the method and one of the path.
tests : (b : Bool) (s t : Text) → b ≡ true → s ≡ t → (b && text_eq s t) ≡ true
tests true s t h e = rw e (text_eq_refl t)
tests false s t h e = cc

module _ (api_prefix : Text) (conf : DraftContentTypeConfig) (content_type : ContentType) where
  default_routes_of-found :
      (r : ApiRoute) (route : CacheRouteConfig)
      → Memᴰ route (default_routes_of api_prefix conf content_type r)
      → IsDefault content_type r × (route ≡ default_route api_prefix conf content_type r)
  unfolding default_routes_of
  default_routes_of-found r route m = elim (Mem-if content_type.single_type _ _ route m) [
    | inl (single, found) ↦
        let (test, e) = Mem-when _ _ route found in
        let (method, path) = and_parts (is_document_method r.method) _ test in
        (of_single single method (text_eq_sound r.path _ path), e)
    | inr (many, found) ↦
        elim (Mem-append_cases route
          (when (is_collection_method r.method && text_eq r.path (b'/' ∷ content_type.plural_name))
            (default_route api_prefix conf content_type r))
          _ found) [
            | inl here ↦
                let (test, e) = Mem-when _ _ route here in
                let (method, path) = and_parts (is_collection_method r.method) _ test in
                (of_collection many method (text_eq_sound r.path _ path), e)
            | inr there ↦
                let (test, e) = Mem-when _ _ route there in
                let (method, path) = and_parts (is_document_method r.method) _ test in
                (of_document many method (text_eq_sound r.path _ path), e)
          ]
  ]

  default_routes_of-has :
      (r : ApiRoute)
      → IsDefault content_type r
      → Memᴰ
          (default_route api_prefix conf content_type r)
          (default_routes_of api_prefix conf content_type r)
  unfolding default_routes_of
  default_routes_of-has r (of_single s m p) =
      subst (Memᴰ (default_route api_prefix conf content_type r))
        (sym (if_true content_type.single_type _ _ s))
        (when-Mem _ _ (tests (is_document_method r.method) r.path _ m p))
  default_routes_of-has r (of_collection s m p) =
      subst (Memᴰ (default_route api_prefix conf content_type r))
        (sym (if_false content_type.single_type _ _ s))
        (Mem-left _ _ _ (when-Mem _ _ (tests (is_collection_method r.method) r.path _ m p)))
  default_routes_of-has r (of_document s m p) =
      subst (Memᴰ (default_route api_prefix conf content_type r))
        (sym (if_false content_type.single_type _ _ s))
        (Mem-right _ _ _ (when-Mem _ _ (tests (is_document_method r.method) r.path _ m p)))

  pub default_routes-found :
      (rs : List ApiRoute) (route : CacheRouteConfig)
      → Memᴰ route (default_routes api_prefix conf content_type rs)
      → (r : ApiRoute) × Memᴰ r rs
        × IsDefault content_type r
        × (route ≡ default_route api_prefix conf content_type r)
  unfolding default_routes
  default_routes-found [] route m = absurd (nowhere m)
  default_routes-found (r ∷ rs) route m =
      elim (Mem-append_cases route (default_routes_of api_prefix conf content_type r) _ m) [
        | inl here ↦
            let (is_default, e) = default_routes_of-found r route here in
            (r, Memᴰ.head refl, is_default, e)
        | inr later ↦
            let (r', m', is_default, e) = default_routes-found rs route later in
            (r', Memᴰ.tail m', is_default, e)
      ]

  pub default_routes-has :
      (rs : List ApiRoute) (r : ApiRoute)
      → Memᴰ r rs
      → IsDefault content_type r
      → Memᴰ
          (default_route api_prefix conf content_type r)
          (default_routes api_prefix conf content_type rs)
  unfolding default_routes
  default_routes-has [] r m d = absurd (nowhere m)
  default_routes-has (x ∷ rs) r (Memᴰ.head e) d =
      Mem-left _ (default_routes_of api_prefix conf content_type x) _ (
        subst
          (λ y.
            Memᴰ (default_route api_prefix conf content_type r)
              (default_routes_of api_prefix conf content_type y))
          e (default_routes_of-has r d))
  default_routes-has (x ∷ rs) r (Memᴰ.tail m) d =
      Mem-right _ (default_routes_of api_prefix conf content_type x) _ (default_routes-has rs r m d)
