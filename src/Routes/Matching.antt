-- ===== src/Routes/Matching.antt =====
-- packages/plugin-rest-cache/server/src/utils/middlewares/injectMiddlewares.ts: which configuration is a
-- route's.
use mathlib.Core.Path.{ap₂, subst}
use plugin_rest_cache.Prelude.{
  ℕ, ◌≡◌, refl, sym, ap, ◌∙◌, ◌≢◌, ◌↔◌, ◌⊎◌, inl, inr, Bool, true, false, ◌&&◌, ◌||◌, Option, none,
  some, List, [], ◌∷◌, ◌++◌, arith, ◌==◌, if◌then◌else◌, ==_iff, Bool-cases, and_parts, if_true,
  if_false, any, All, Text, lit, text_eq, text_eq_sound, text_eq_iff,
}
use plugin_rest_cache.Keys.Config.{default_to}
use plugin_rest_cache.Response.Decisions.{HttpMethod, CacheRouteConfig}
use plugin_rest_cache.Routes.{FlattenedRoute}
use plugin_rest_cache.Routes.Middlewares.{MiddlewareConfig, for_route}
use plugin_rest_cache.Routes.Inject.{without_plus, normalize_route_path, same_method, matches_route}
use plugin_rest_cache.Routes.Wired.{same_place, last_of}
use plugin_rest_cache.Routes.Places.{either_false, same_method_sound, same_method_refl}

-- The path without a `+` at its end, if it has one there.
pub data Bare (path bare : Text) : Type 0 where
  marked : path ≡ bare ++ lit "+" → Bare path bare
  plain : ((s : Text) → path ≢ s ++ lit "+") → path ≡ bare → Bare path bare

-- The paths are one, up to a `+` at the end of either.
abbrev pub SamePath : Text → Text → Type 0
SamePath p q = (bare : Text) × Bare p bare × Bare q bare

-- The configuration is for the route's method and path.
abbrev pub Fits : CacheRouteConfig → FlattenedRoute → Type 0
Fits c r = (r.method ≡ c.method) × SamePath (default_to [] r.global_path) c.path

-- The routes have one method and one path.
abbrev pub SamePlace : FlattenedRoute → FlattenedRoute → Type 0
SamePlace r s =
    (r.method ≡ s.method) × SamePath (default_to [] r.global_path) (default_to [] s.global_path)

-- The last configuration of the list that fits the route; with none, what there was before.
pub data Last (cs : List CacheRouteConfig) (r : FlattenedRoute)
    (before after : Option MiddlewareConfig) : Type 0 where
  fitting :
      (front : List CacheRouteConfig) (c : CacheRouteConfig) (back : List CacheRouteConfig)
      → cs ≡ front ++ c ∷ back
      → Fits c r
      → All (λ d. ¬ Fits d r) back
      → after ≡ some (for_route c)
      → Last cs r before after
  unfit : All (λ d. ¬ Fits d r) cs → after ≡ before → Last cs r before after

both_true : (a b : Bool) → a ≡ true → b ≡ true → (a && b) ≡ true
both_true a b h k = ground arith

neither : (a b : Bool) → ¬ (a ≡ true) → b ≡ false → (a || b) ≡ false
neither true b h k = absurd (h refl)
neither false b h k = k

without_plus-append : (s : Text) → without_plus (s ++ lit "+") ≡ s
unfolding without_plus
without_plus-append [] = refl
without_plus-append (c ∷ []) = refl
without_plus-append (c ∷ d ∷ s) = ap (◌∷◌ c) (without_plus-append (d ∷ s))

without_plus-plain : (path : Text) → ((s : Text) → path ≢ s ++ lit "+") → without_plus path ≡ path
unfolding without_plus
without_plus-plain [] h = refl
without_plus-plain (c ∷ []) h = elim (Bool-cases (c == b'+')) [
  | inl plus ↦ absurd (h [] (ap (λ x. x ∷ []) ((==_iff c b'+').0 plus)))
  | inr other ↦ rw other refl
]
without_plus-plain (c ∷ d ∷ s) h =
    ap (◌∷◌ c) (without_plus-plain (d ∷ s) (λ t e. h (c ∷ t) (ap (◌∷◌ c) e)))

without_plus-Bare : (path bare : Text) → Bare path bare → without_plus path ≡ bare
without_plus-Bare path bare (marked e) = ap without_plus e ∙ without_plus-append bare
without_plus-Bare path bare (plain h e) = without_plus-plain path h ∙ e

empty_plus : (s : Text) → [] ≢ s ++ lit "+"
empty_plus [] e = cc
empty_plus (c ∷ s) e = cc

one_plus : (c : ℕ) → (c == b'+') ≡ false → (s : Text) → c ∷ [] ≢ s ++ lit "+"
one_plus c h [] e = let same : c ≡ b'+' = cc in cc (h, (==_iff c b'+').1 same)
one_plus c h (x ∷ s) e = let rest : [] ≡ s ++ lit "+" = cc in empty_plus s rest

more_plus :
    (c : ℕ) (path : Text)
    → path ≢ []
    → ((s : Text) → path ≢ s ++ lit "+")
    → (s : Text) → c ∷ path ≢ s ++ lit "+"
more_plus c path h k [] e = let none_left : path ≡ [] = cc in h none_left
more_plus c path h k (x ∷ s) e = let rest : path ≡ s ++ lit "+" = cc in k s rest

plus_cases :
    (path : Text) → (path ≡ without_plus path ++ lit "+") ⊎ ((s : Text) → path ≢ s ++ lit "+")
unfolding without_plus
plus_cases [] = inr empty_plus
plus_cases (c ∷ []) = elim (Bool-cases (c == b'+')) [
  | inl plus ↦ inl (rw plus (ap (λ x. x ∷ []) ((==_iff c b'+').0 plus)))
  | inr other ↦ inr (one_plus c other)
]
plus_cases (c ∷ d ∷ s) = elim (plus_cases (d ∷ s)) [
  | inl e ↦ inl (ap (◌∷◌ c) e)
  | inr h ↦ inr (more_plus c (d ∷ s) (λ e. cc) h)
]

Bare-without_plus : (path : Text) → Bare path (without_plus path)
Bare-without_plus path = elim (plus_cases path) [
  | inl e ↦ marked e
  | inr h ↦ plain h (sym (without_plus-plain path h))
]

without_plus_iff : (p q : Text) → (text_eq (without_plus p) (without_plus q) ≡ true) ↔ SamePath p q
without_plus_iff p q = (
  λ h. (
    without_plus q,
    subst (Bare p) (text_eq_sound _ _ h) (Bare-without_plus p),
    Bare-without_plus q,
  ),
  λ (bare, at_p, at_q).
      (text_eq_iff _ _).1 (without_plus-Bare p bare at_p ∙ sym (without_plus-Bare q bare at_q)),
)

normalize_route_path-default :
    (o : Option Text) → normalize_route_path o ≡ without_plus (default_to [] o)
unfolding normalize_route_path without_plus
normalize_route_path-default none = refl
normalize_route_path-default (some path) = refl

-- The test of a method and a path.
place_iff :
    (m n : HttpMethod) (p q : Option Text)
    → ((same_method m n && text_eq (normalize_route_path p) (normalize_route_path q)) ≡ true)
      ↔ ((m ≡ n) × SamePath (default_to [] p) (default_to [] q))
place_iff m n p q =
    let same : text_eq (normalize_route_path p) (normalize_route_path q)
        ≡ text_eq (without_plus (default_to [] p)) (without_plus (default_to [] q)) =
      ap₂ text_eq (normalize_route_path-default p) (normalize_route_path-default q) in
    let (apart, together) = without_plus_iff (default_to [] p) (default_to [] q) in
    (
      λ h.
          let (method, path) = and_parts (same_method m n) _ h in
          (same_method_sound m n method, apart (sym same ∙ path)),
      λ (method, path).
          both_true (same_method m n) _ (ap (same_method m) (sym method) ∙ same_method_refl m)
            (same ∙ together path),
    )

pub matches_route_iff :
    (c : CacheRouteConfig) (r : FlattenedRoute) → (matches_route c r ≡ true) ↔ Fits c r
unfolding matches_route
matches_route_iff c r = place_iff r.method c.method r.global_path (some c.path)

pub same_place_iff : (r s : FlattenedRoute) → (same_place r s ≡ true) ↔ SamePlace r s
same_place_iff r s = place_iff r.method s.method r.global_path s.global_path

pub none_before_iff :
    (r : FlattenedRoute) (before : List FlattenedRoute)
    → (any (same_place r) before ≡ false) ↔ All (λ s. ¬ SamePlace r s) before
none_before_iff r [] = (λ h. tt, λ h. refl)
none_before_iff r (s ∷ before) =
    let (apart, together) = none_before_iff r before in
    let (is_same, is_there) = same_place_iff r s in
    (
      λ h.
          let (other, later) = either_false (same_place r s) (any (same_place r) before) h in
          (λ same. cc (other, is_there same), apart later),
      λ (other, later). neither (same_place r s) _ (λ h. other (is_same h)) (together later),
    )

pub last_of-Last :
    (cs : List CacheRouteConfig) (r : FlattenedRoute) (before : Option MiddlewareConfig)
    → Last cs r before (last_of cs r before)
unfolding last_of
last_of-Last [] r before = unfit tt refl
last_of-Last (c ∷ cs) r before =
    elim (last_of-Last cs r (if matches_route c r then some (for_route c) else before)) [
      | fitting front d back e fits others found ↦
          fitting (c ∷ front) d back (ap (◌∷◌ c) e) fits others found
      | unfit others same ↦ elim (Bool-cases (matches_route c r)) [
        | inl met ↦
            fitting [] c cs refl ((matches_route_iff c r).0 met) others (same ∙ if_true _ _ _ met)
        | inr other ↦
            unfit (λ fits. cc (other, (matches_route_iff c r).1 fits), others)
              (same ∙ if_false _ _ _ other)
      ]
    ]
