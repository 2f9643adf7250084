-- ===== src/Strategy/Entries.antt =====
-- packages/plugin-rest-cache/server/src/utils/config/resolveUserStrategy.ts: the routes of one
-- entry.
use mathlib.Core.List.{Memᴰ}
use mathlib.Core.Path.{subst}
use plugin_rest_cache.Prelude.{
  ◌≡◌, refl, sym, ap, ◌∙◌, inl, inr, Bool, true, false, ◌||◌, not, Option, some, List, [], ◌++◌,
  some_injective, Mem-map, Mem-of_map, nowhere, Mem-left, Mem-right, Mem-append_cases, Text, lit,
}
use plugin_rest_cache.Keys.Config.{default_to}
use plugin_rest_cache.Purging.{CacheContentTypeConfig}
use plugin_rest_cache.Response.Decisions.{fixed, CacheRouteConfig}
use plugin_rest_cache.Strategy.{
  keys_of, or_else, cache_route_config, listed_route, draft, default_route, default_routes,
  is_of_plugin,
}
use plugin_rest_cache.Strategy.Inputs.{
  RouteInput, path_only, configured, CacheContentTypeConfigInput, ContentTypeInput, uid_only,
  CachePluginStrategyInput, DraftContentTypeConfig, ContentType, ApiRoute,
}
use plugin_rest_cache.Strategy.Names.{api_name_from_uid, route_params}
use plugin_rest_cache.Strategy.Configured.{
  uid_of, own_max_age, own_hitpass, own_keys, injects, IsDefault, Configured, of_path, of_route,
  of_api,
}
use plugin_rest_cache.Strategy.Defaults.{
  keys_again-keys_of, default_routes-found, default_routes-has,
}
use plugin_rest_cache.Strategy.Resolved.{IsResolved, alone, injected}

neither : (a b : Bool) → (not a || b) ≡ false → (a ≡ true) × (b ≡ false)
neither true b h = (refl, h)
neither false b h = cc

injecting : (a b : Bool) → a ≡ true → b ≡ false → (not a || b) ≡ false
injecting a b h k = rw (h, k) refl

skipped : {b : Bool} → b ≡ true → b ≡ false → ⊥
skipped h k = cc

module _ (api_prefix : Text) (content_type_of : Text → Option ContentType)
    (apis : Text → Option (List ApiRoute)) (related : Text → List Text)
    (options : CachePluginStrategyInput) where
  -- Resolution of a draft gives a configuration.
  abbrev pub Becomes : DraftContentTypeConfig → CacheContentTypeConfig → Type 0
  Becomes = IsResolved api_prefix content_type_of apis related

  -- The default route of an entry's draft, written out.
  default_route-draft :
      (entry : ContentTypeInput) (content_type : ContentType) (r : ApiRoute)
      → default_route api_prefix (draft options entry) content_type r ≡ record {
        max_age = default_to 3600000 (or_else (own_max_age entry) options.max_age);
        path = api_prefix ++ r.path;
        method = r.method;
        param_names = route_params r.path;
        keys = keys_of (or_else (own_keys entry) options.keys);
        hitpass = default_to (fixed false) (or_else (own_hitpass entry) options.hitpass);
      }
  unfolding default_route draft cache_route_config
  default_route-draft (uid_only uid) content_type r = rw (keys_again-keys_of options.keys) refl
  default_route-draft (configured entry) content_type r =
      rw (keys_again-keys_of (or_else entry.keys options.keys)) refl

  listed_route-Configured :
      (entry : CacheContentTypeConfigInput) (value : RouteInput)
      → Memᴰ value entry.routes
      → Configured api_prefix content_type_of apis options
          (configured entry)
          (listed_route options entry value)
  unfolding listed_route cache_route_config
  listed_route-Configured entry (path_only path) m = of_path entry path m
  listed_route-Configured entry (configured r) m = of_route entry r m

  listed-found :
      (entry : ContentTypeInput) (route : CacheRouteConfig)
      → Memᴰ route (draft options entry).routes
      → Configured api_prefix content_type_of apis options entry route
  unfolding draft
  listed-found (uid_only uid) route m = absurd (nowhere m)
  listed-found (configured entry) route m =
      let (value, m', e) = Mem-of_map (listed_route options entry) route entry.routes m in
      subst (Configured api_prefix content_type_of apis options (configured entry)) (sym e)
        (listed_route-Configured entry value m')

  pub draft-uid_of : (entry : ContentTypeInput) → (draft options entry).content_type ≡ uid_of entry
  unfolding draft
  draft-uid_of (uid_only uid) = refl
  draft-uid_of (configured entry) = refl

  draft-injects :
      (entry : ContentTypeInput) → (draft options entry).inject_default_routes ≡ injects entry
  unfolding draft
  draft-injects (uid_only uid) = refl
  draft-injects (configured entry) = refl

  -- One entry: its resolved routes are those that it is configured for.
  pub routes-found :
      (entry : ContentTypeInput) (conf : CacheContentTypeConfig) (route : CacheRouteConfig)
      → Becomes (draft options entry) conf
      → Memᴰ route conf.routes
      → Configured api_prefix content_type_of apis options entry route
  routes-found entry _ route (alone ct e skip) m =
      elim (Mem-append_cases route (draft options entry).routes [] m) [
        | inl listed ↦ listed-found entry route listed
        | inr none' ↦ absurd (nowhere none')
      ]
  routes-found entry _ route (injected ct rs e inject found) m =
      elim (Mem-append_cases route (draft options entry).routes _ m) [
        | inl listed ↦ listed-found entry route listed
        | inr default' ↦
            let (r, m', is_default, same) =
              default_routes-found api_prefix (draft options entry) ct rs route default' in
            let (injects', not_plugin) =
              neither (draft options entry).inject_default_routes (is_of_plugin ct) inject in
            subst (Configured api_prefix content_type_of apis options entry)
              (sym (same ∙ default_route-draft entry ct r))
              (of_api entry ct rs r (ap content_type_of (sym (draft-uid_of entry)) ∙ e)
                (sym (draft-injects entry) ∙ injects') not_plugin
                (ap (λ uid. apis (default_to (lit "undefined") (api_name_from_uid uid)))
                    (sym (draft-uid_of entry))
                  ∙ found)
                m' is_default)
      ]

  listed-has :
      (entry : CacheContentTypeConfigInput) (conf : CacheContentTypeConfig) (value : RouteInput)
      → Becomes (draft options (configured entry)) conf
      → Memᴰ value entry.routes
      → Memᴰ (listed_route options entry value) conf.routes
  unfolding draft
  listed-has entry _ value (alone ct e skip) m =
      Mem-left _ _ [] (Mem-map (listed_route options entry) value entry.routes m)
  listed-has entry _ value (injected ct rs e inject found) m =
      Mem-left _ _ _ (Mem-map (listed_route options entry) value entry.routes m)

  default-has :
      (entry : ContentTypeInput) (conf : CacheContentTypeConfig) (ct : ContentType)
      (rs : List ApiRoute) (r : ApiRoute)
      → Becomes (draft options entry) conf
      → content_type_of (draft options entry).content_type ≡ some ct
      → (not (draft options entry).inject_default_routes || is_of_plugin ct) ≡ false
      → apis (default_to (lit "undefined") (api_name_from_uid (draft options entry).content_type))
        ≡ some rs
      → Memᴰ r rs
      → IsDefault ct r
      → Memᴰ (default_route api_prefix (draft options entry) ct r) conf.routes
  default-has entry _ ct rs r (alone ct' e' skip) e inject found m d = absurd (
      skipped
        (ap (λ c. not (draft options entry).inject_default_routes || is_of_plugin c)
            (some_injective (sym e ∙ e'))
          ∙ skip)
        inject)
  default-has entry _ ct rs r (injected ct' rs' e' inject' found') e inject found m d =
      let own = (draft options entry).routes in
      let route = default_route api_prefix (draft options entry) ct r in
      subst (λ c. Memᴰ route (own ++ default_routes api_prefix (draft options entry) c rs'))
        (some_injective (sym e ∙ e'))
        (subst (λ rs''. Memᴰ route (own ++ default_routes api_prefix (draft options entry) ct rs''))
          (some_injective (sym found ∙ found'))
          (Mem-right route own _ (default_routes-has api_prefix (draft options entry) ct rs r m d)))

  pub routes-has :
      (entry : ContentTypeInput) (conf : CacheContentTypeConfig) (route : CacheRouteConfig)
      → Becomes (draft options entry) conf
      → Configured api_prefix content_type_of apis options entry route
      → Memᴰ route conf.routes
  unfolding listed_route cache_route_config
  routes-has _ conf _ h (of_path entry path m) = listed-has entry conf (path_only path) h m
  routes-has _ conf _ h (of_route entry route m) = listed-has entry conf (configured route) h m
  routes-has _ conf _ h (of_api entry ct rs r e inject not_plugin found m d) =
      subst (λ route. Memᴰ route conf.routes) (default_route-draft entry ct r)
        (default-has entry conf ct rs r h (ap content_type_of (draft-uid_of entry) ∙ e)
          (injecting _ _ (draft-injects entry ∙ inject) not_plugin)
          (ap (λ uid. apis (default_to (lit "undefined") (api_name_from_uid uid)))
              (draft-uid_of entry)
            ∙ found)
          m d)
