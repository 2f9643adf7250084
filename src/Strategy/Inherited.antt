-- ===== src/Strategy/Inherited.antt =====
-- packages/plugin-rest-cache/server/src/utils/config/resolveUserStrategy.ts: the routes of a resolved
-- strategy, and what they inherit.
use mathlib.Core.List.{Memᴰ}
use mathlib.Core.Path.{subst}
use plugin_rest_cache.Prelude.{
  ◌≡◌, refl, sym, ap, ◌∙◌, ◌↔◌, Option, List, [], ◌∷◌, map, Mem-map, Mem-of_map, nowhere, Text,
}
use plugin_rest_cache.Keys.Config.{}
use plugin_rest_cache.Purging.{CacheContentTypeConfig}
use plugin_rest_cache.Response.Decisions.{CacheRouteConfig}
use plugin_rest_cache.Strategy.{
  Resolution, resolved, unknown_content_type, no_api, draft, resolve_content_type, resolve_all,
  first_error, resolve_user_strategy,
}
use plugin_rest_cache.Strategy.Inputs.{
  ContentTypeInput, CachePluginStrategyInput, DraftContentTypeConfig, ContentType, ApiRoute,
}
use plugin_rest_cache.Strategy.Configured.{uid_of, Configured}
use plugin_rest_cache.Strategy.Defaults.{}
use plugin_rest_cache.Strategy.Resolved.{
  IsResolved, alone, injected, resolve_content_type-IsResolved, resolved_injective,
}
use plugin_rest_cache.Strategy.Entries.{routes-found, routes-has, draft-uid_of}

first_error_parts :
    {A : Type 0} (x : Resolution A) (xs : Resolution (List A)) (all : List A)
    → first_error x xs ≡ resolved all
    → (a : A) × (rest : List A) × (x ≡ resolved a) × (xs ≡ resolved rest) × (all ≡ a ∷ rest)
unfolding first_error
first_error_parts (resolved a) (resolved rest) all h =
    (a, rest, refl, refl, sym (resolved_injective h))
first_error_parts (resolved a) (unknown_content_type uid) all h = cc
first_error_parts (resolved a) (no_api name) all h = cc
first_error_parts (unknown_content_type uid) xs all h = cc
first_error_parts (no_api name) xs all h = cc

module _ (api_prefix : Text) (content_type_of : Text → Option ContentType)
    (apis : Text → Option (List ApiRoute)) (related : Text → List Text)
    (options : CachePluginStrategyInput) where
  resolve_all-found :
      (ds : List DraftContentTypeConfig) (confs : List CacheContentTypeConfig)
      (conf : CacheContentTypeConfig)
      → resolve_all api_prefix content_type_of apis related ds ≡ resolved confs
      → Memᴰ conf confs
      → (d : DraftContentTypeConfig) × Memᴰ d ds
        × IsResolved api_prefix content_type_of apis related d conf
  unfolding resolve_all
  resolve_all-found [] confs conf h m =
      absurd (nowhere (subst (Memᴰ conf) (sym (resolved_injective h)) m))
  resolve_all-found (d ∷ ds) confs conf h m =
      let (c, cs, hd, hs, e) = first_error_parts _ _ confs h in
      elim (subst (Memᴰ conf) e m) [
        | Memᴰ.head same ↦ (
          d,
          Memᴰ.head refl,
          resolve_content_type-IsResolved api_prefix content_type_of apis related d conf
              (hd ∙ ap resolved (sym same)),
        )
        | Memᴰ.tail later ↦
            let (d', m', r) = resolve_all-found ds cs conf hs later in (d', Memᴰ.tail m', r)
      ]

  resolve_all-has :
      (ds : List DraftContentTypeConfig) (confs : List CacheContentTypeConfig)
      (d : DraftContentTypeConfig)
      → resolve_all api_prefix content_type_of apis related ds ≡ resolved confs
      → Memᴰ d ds
      → (conf : CacheContentTypeConfig) × Memᴰ conf confs
        × IsResolved api_prefix content_type_of apis related d conf
  unfolding resolve_all
  resolve_all-has [] confs d h m = absurd (nowhere m)
  resolve_all-has (x ∷ ds) confs d h (Memᴰ.head e) =
      let (c, cs, hd, hs, same) = first_error_parts _ _ confs h in
      (
        c,
        subst (Memᴰ c) (sym same) (Memᴰ.head refl),
        resolve_content_type-IsResolved api_prefix content_type_of apis related d c
            (ap (resolve_content_type api_prefix content_type_of apis related) e ∙ hd),
      )
  resolve_all-has (x ∷ ds) confs d h (Memᴰ.tail m) =
      let (c, cs, hd, hs, same) = first_error_parts _ _ confs h in
      let (conf, m', r) = resolve_all-has ds cs d hs m in
      (conf, subst (Memᴰ conf) (sym same) (Memᴰ.tail m'), r)

  IsResolved-content_type :
      (entry : ContentTypeInput) (conf : CacheContentTypeConfig)
      → IsResolved api_prefix content_type_of apis related (draft options entry) conf
      → conf.content_type ≡ uid_of entry
  IsResolved-content_type entry _ (alone ct e skip) =
      draft-uid_of api_prefix content_type_of apis related options entry
  IsResolved-content_type entry _ (injected ct rs e inject found) =
      draft-uid_of api_prefix content_type_of apis related options entry

  -- The routes that a resolved strategy has under a uid are exactly those that its entries with this
  -- uid are configured for: a listed route with its own options, else its content type's, else the
  -- strategy's, else an hour and no bypass, with the hitpass of listed routes in between; and, unless
  -- the entry turns them off or the content type is a plugin's, the core routes of the API that owns
  -- the content type, with what the entry sets, else what the strategy sets.
  pub resolve_user_strategy_iff :
      (confs : List CacheContentTypeConfig) (uid : Text) (route : CacheRouteConfig)
      → resolve_user_strategy api_prefix content_type_of apis related options ≡ resolved confs
      → ((conf : CacheContentTypeConfig) × Memᴰ conf confs
          × (conf.content_type ≡ uid)
          × Memᴰ route conf.routes)
        ↔ ((entry : ContentTypeInput) × Memᴰ entry options.content_types
            × (uid_of entry ≡ uid)
            × Configured api_prefix content_type_of apis options entry route)
  unfolding resolve_user_strategy
  resolve_user_strategy_iff confs uid route h = (
    λ (conf, m, named, in_conf).
        let (d, m', r) =
          resolve_all-found (map (draft options) options.content_types) confs conf h m in
        let (entry, m'', e) = Mem-of_map (draft options) d options.content_types m' in
        let r' = subst (λ x. IsResolved api_prefix content_type_of apis related x conf) e r in
        (
          entry,
          m'',
          sym (IsResolved-content_type entry conf r') ∙ named,
          routes-found api_prefix content_type_of apis related options entry conf route r' in_conf,
        ),
    λ (entry, m, named, c).
        let (conf, m', r) =
          resolve_all-has (map (draft options) options.content_types) confs (draft options entry) h
            (Mem-map (draft options) entry options.content_types m) in
        (
          conf,
          m',
          IsResolved-content_type entry conf r ∙ named,
          routes-has api_prefix content_type_of apis related options entry conf route r c,
        ),
  )
