-- ===== src/Routes/Placed.antt =====
-- packages/plugin-rest-cache/server/src/utils/middlewares/injectMiddlewares.ts: the configuration that a GET
-- route is cached with, and the routes that stay as they are.
use mathlib.Core.Path.{subst}
use plugin_rest_cache.Prelude.{
  ℕ, ◌≡◌, refl, sym, ap, ◌∙◌, inl, inr, Bool, false, List, [], ◌∷◌, ◌++◌, Bool-cases, if_true,
  if_false, length, any, All, Text,
}
use plugin_rest_cache.Response.Decisions.{get, CacheRouteConfig}
use plugin_rest_cache.Purging.{CacheContentTypeConfig, CachePluginStrategy}
use plugin_rest_cache.Routes.{FlattenedRoute}
use plugin_rest_cache.Routes.Inject.{
  on_first, matches_route, inject_found, inject_routes, inject_content_types, inject_middlewares,
}
use plugin_rest_cache.Routes.Wired.{
  same_place, recv_of, last_of, all_routes, Kept, inject_by_method-Kept, wired, wired-Kept,
  recv_of-wired,
}
use plugin_rest_cache.Routes.Matching.{SamePlace, Last, none_before_iff, last_of-Last}
use plugin_rest_cache.Routes.Places.{
  same_place-Kept, none_before, any-ext, last_of-Kept, last_of-append, Kept-trans, on_first-here,
  on_first-elsewhere,
}

-- The route stands in the list behind `n` others, none of which has its method and path.
abbrev Stands : FlattenedRoute → List FlattenedRoute → ℕ → Type 0
Stands r routes n =
    (before : List FlattenedRoute) × (after : List FlattenedRoute) × (routes ≡ before ++ r ∷ after)
    × (length before ≡ n)
    × (any (same_place r) before ≡ false)

module _ (via : Bool) where
  one-Stands :
      (uid : Text) (c : CacheRouteConfig) (r : FlattenedRoute) (routes : List FlattenedRoute)
      (n : ℕ)
      → Stands r routes n
      → Stands (wired via uid c r) (on_first (matches_route c) (inject_found via uid c) routes) n
  unfolding inject_found
  one-Stands uid c r routes n (before, after, e, l, apart) =
      let place : (x : FlattenedRoute) → same_place (wired via uid c r) x ≡ same_place r x =
        λ x. same_place-Kept (wired via uid c r) r x x (wired-Kept via uid c r) (refl, refl) in
      elim (Bool-cases (matches_route c r)) [
        | inl met ↦ (
          before,
          after,
          ap (on_first (matches_route c) (inject_found via uid c)) e
              ∙ (on_first-here (matches_route c) (inject_found via uid c) before r after
                    (none_before c r before met apart) met
                  ∙ ap (λ x. before ++ x ∷ after) (sym (if_true _ _ _ met))),
          l,
          any-ext _ _ before place ∙ apart,
        )
        | inr other ↦
            let (before', after', e', l', kept) =
              on_first-elsewhere (matches_route c) (inject_found via uid c) before r after other in
            (
              before',
              after',
              ap (on_first (matches_route c) (inject_found via uid c)) e
                  ∙ (e' ∙ ap (λ x. before' ++ x ∷ after') (sym (if_false _ _ _ other))),
              l' ∙ l,
              any-ext _ _ before' place
                  ∙ (kept (same_place r) (λ x.
                        same_place-Kept r r (inject_found via uid c x) x (refl, refl)
                          (inject_by_method-Kept via uid c x.method x))
                      ∙ apart),
            )
      ]

  -- The route as it stands after the injection of some configurations.
  abbrev Became : List CacheRouteConfig → FlattenedRoute → List FlattenedRoute → ℕ → Type 0
  Became cs r routes n =
      (r' : FlattenedRoute) × Stands r' routes n
      × Kept r' r
      × (recv_of r'.middlewares ≡ last_of cs r (recv_of r.middlewares))

  inject_routes-Became :
      (uid : Text) (cs : List CacheRouteConfig) (r : FlattenedRoute) (routes : List FlattenedRoute)
      (n : ℕ)
      → Stands r routes n
      → r.method ≡ get
      → Became cs r (inject_routes via uid cs routes) n
  unfolding inject_routes last_of
  inject_routes-Became uid [] r routes n h g = (r, h, (refl, refl), refl)
  inject_routes-Became uid (c ∷ cs) r routes n h g =
      let kept = wired-Kept via uid c r in
      let (r', h', kept', e) =
        inject_routes-Became uid cs (wired via uid c r) _ n (one-Stands uid c r routes n h)
          (kept.0 ∙ g) in
      (
        r',
        h',
        Kept-trans r' (wired via uid c r) r kept' kept,
        e
            ∙ (last_of-Kept cs (wired via uid c r) r _ kept
                ∙ ap (last_of cs r) (recv_of-wired via uid c r g)),
      )

  inject_content_types-Became :
      (confs : List CacheContentTypeConfig) (r : FlattenedRoute) (routes : List FlattenedRoute)
      (n : ℕ)
      → Stands r routes n
      → r.method ≡ get
      → Became (all_routes confs) r (inject_content_types via confs routes) n
  unfolding inject_content_types all_routes last_of
  inject_content_types-Became [] r routes n h g = (r, h, (refl, refl), refl)
  inject_content_types-Became (conf ∷ confs) r routes n h g =
      let (s, h', kept, e) = inject_routes-Became conf.content_type conf.routes r routes n h g in
      let (r', h'', kept', e') = inject_content_types-Became confs s _ n h' (kept.0 ∙ g) in
      (
        r',
        h'',
        Kept-trans r' s r kept' kept,
        e'
            ∙ (last_of-Kept (all_routes confs) s r _ kept
                ∙ (ap (last_of (all_routes confs) r) e
                    ∙ sym (last_of-append conf.routes (all_routes confs) r _))),
      )

-- The route stands in the list behind `n` others, none of which has its method and path.
abbrev pub IsFirst : FlattenedRoute → List FlattenedRoute → ℕ → Type 0
IsFirst r routes n =
    (before : List FlattenedRoute) × (after : List FlattenedRoute) × (routes ≡ before ++ r ∷ after)
    × (length before ≡ n)
    × All (λ s. ¬ SamePlace r s) before

-- A GET route that is the first with its path stands at its place afterwards, and its recv has the
-- last configuration in the strategy with this method and path; with none, what it had. Paths are
-- compared without a `+` at the end of either.
pub inject_middlewares-recv :
    (strategy : CachePluginStrategy) (routes : List FlattenedRoute)
    (content_manager : List (List FlattenedRoute)) (r : FlattenedRoute) (n : ℕ)
    → IsFirst r routes n
    → r.method ≡ get
    → (r' : FlattenedRoute) × IsFirst r' (inject_middlewares strategy routes content_manager).0 n
      × Kept r' r
      × Last (all_routes strategy.content_types) r (recv_of r.middlewares) (recv_of r'.middlewares)
unfolding inject_middlewares
inject_middlewares-recv strategy routes content_manager r n (before, after, e, l, apart) g =
    let (r', (before', after', e', l', apart'), kept, found) =
      inject_content_types-Became strategy.enable_document_service_middleware strategy.content_types
        r routes n (before, after, e, l, (none_before_iff r before).1 apart) g in
    (
      r',
      (before', after', e', l', (none_before_iff r' before').0 apart'),
      kept,
      subst (Last (all_routes strategy.content_types) r (recv_of r.middlewares)) (sym found)
          (last_of-Last (all_routes strategy.content_types) r (recv_of r.middlewares)),
    )
