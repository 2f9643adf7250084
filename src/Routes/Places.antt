-- ===== src/Routes/Places.antt =====
-- packages/plugin-rest-cache/server/src/utils/middlewares/injectMiddlewares.ts: which route is found.
use mathlib.Core.Path.{ap₂}
use plugin_rest_cache.Prelude.{
  suc, ◌≡◌, refl, sym, ap, ◌∙◌, inl, inr, Bool, true, false, ◌&&◌, ◌||◌, Option, some, List, [],
  ◌∷◌, ◌++◌, arith, if◌then◌else◌, Bool-cases, and_parts, if_true, if_false, length, any, Text,
  text_eq, text_eq_sound, text_eq_iff,
}
use plugin_rest_cache.Response.Decisions.{
  HttpMethod, get, post, put, patch, delete, CacheRouteConfig,
}
use plugin_rest_cache.Routes.{FlattenedRoute}
use plugin_rest_cache.Routes.Middlewares.{MiddlewareConfig, for_route}
use plugin_rest_cache.Routes.Inject.{normalize_route_path, same_method, on_first, matches_route}
use plugin_rest_cache.Routes.Wired.{same_place, last_of, Kept}

pub either_false : (a b : Bool) → (a || b) ≡ false → (a ≡ false) × (b ≡ false)
either_false a b h = ground arith

module _ (p : FlattenedRoute → Bool) (f : FlattenedRoute → FlattenedRoute) where
  pub on_first-here :
      (before : List FlattenedRoute) (r : FlattenedRoute) (after : List FlattenedRoute)
      → any p before ≡ false
      → p r ≡ true
      → on_first p f (before ++ r ∷ after) ≡ before ++ f r ∷ after
  unfolding on_first
  on_first-here [] r after h k = if_true _ _ _ k
  on_first-here (x ∷ before) r after h k =
      let (other, later) = either_false (p x) (any p before) h in
      if_false _ _ _ other ∙ ap (◌∷◌ x) (on_first-here before r after later k)

  pub on_first-elsewhere :
      (before : List FlattenedRoute) (r : FlattenedRoute) (after : List FlattenedRoute)
      → p r ≡ false
      → (before' : List FlattenedRoute) × (after' : List FlattenedRoute) × (on_first p f
            (before ++ r ∷ after)
          ≡ before' ++ r ∷ after')
        × (length before' ≡ length before)
        × ((q : FlattenedRoute → Bool)
            → ((x : FlattenedRoute) → q (f x) ≡ q x)
            → any q before' ≡ any q before)
  unfolding on_first
  on_first-elsewhere [] r after k = ([], on_first p f after, if_false _ _ _ k, refl, λ q h. refl)
  on_first-elsewhere (x ∷ before) r after k = elim (Bool-cases (p x)) [
    | inl here ↦
        (f x ∷ before, after, if_true _ _ _ here, refl, λ q h. ap (λ b. b || any q before) (h x))
    | inr other ↦
        let (before', after', e, l, kept) = on_first-elsewhere before r after k in
        (
          x ∷ before',
          after',
          if_false _ _ _ other ∙ ap (◌∷◌ x) e,
          ap suc l,
          λ q h. ap (λ b. q x || b) (kept q h),
        )
  ]

pub same_place-Kept :
    (r r' s s' : FlattenedRoute) → Kept r r' → Kept s s' → same_place r s ≡ same_place r' s'
same_place-Kept r r' s s' (m, g) (m', g') =
    ap₂ ◌&&◌ (ap₂ same_method m m')
      (ap₂ text_eq (ap normalize_route_path g) (ap normalize_route_path g'))

pub same_method_sound : (m n : HttpMethod) → same_method m n ≡ true → m ≡ n
unfolding same_method
same_method_sound get get h = refl
same_method_sound post post h = refl
same_method_sound put put h = refl
same_method_sound patch patch h = refl
same_method_sound delete delete h = refl
same_method_sound _ _ h = cc

pub same_method_refl : (m : HttpMethod) → same_method m m ≡ true
unfolding same_method
same_method_refl get = refl
same_method_refl post = refl
same_method_refl put = refl
same_method_refl patch = refl
same_method_refl delete = refl

pub method_agree :
    (m n o : HttpMethod) → same_method m o ≡ true → same_method n o ≡ true → same_method m n ≡ true
method_agree m n o h k =
    ap₂ same_method (same_method_sound m o h) (same_method_sound n o k) ∙ same_method_refl o

pub text_agree : (s t u : Text) → text_eq s u ≡ true → text_eq t u ≡ true → text_eq s t ≡ true
text_agree s t u h k = (text_eq_iff s t).1 (text_eq_sound s u h ∙ sym (text_eq_sound t u k))

pub apart_there :
    (c : CacheRouteConfig) (r x : FlattenedRoute)
    → matches_route c r ≡ true
    → same_place r x ≡ false
    → matches_route c x ≡ false
unfolding matches_route
apart_there c r x h apart = elim (Bool-cases (matches_route c x)) [
  | inr other ↦ other
  | inl met ↦
      let (m, t) = and_parts (same_method r.method c.method) _ h in
      let (m', t') = and_parts (same_method x.method c.method) _ met in
      let same = ap₂ ◌&&◌ (method_agree r.method x.method c.method m m') (text_agree _ _ _ t t') in
      absurd (ground (arith, same, apart))
]

-- Where a configuration's route is, no route before has its place.
pub none_before :
    (c : CacheRouteConfig) (r : FlattenedRoute) (before : List FlattenedRoute)
    → matches_route c r ≡ true
    → any (same_place r) before ≡ false
    → any (matches_route c) before ≡ false
unfolding matches_route
none_before c r [] h k = refl
none_before c r (x ∷ before) h k =
    let (apart, later) = either_false (same_place r x) (any (same_place r) before) k in
    ap₂ ◌||◌ (apart_there c r x h apart) (none_before c r before h later)

pub any-ext :
    (p q : FlattenedRoute → Bool) (xs : List FlattenedRoute)
    → ((x : FlattenedRoute) → p x ≡ q x)
    → any p xs ≡ any q xs
any-ext p q [] h = refl
any-ext p q (x ∷ xs) h = ap₂ ◌||◌ (h x) (any-ext p q xs h)

pub matches_route-Kept :
    (c : CacheRouteConfig) (r s : FlattenedRoute) → Kept r s → matches_route c r ≡ matches_route c s
unfolding matches_route
matches_route-Kept c r s (m, g) =
    ap₂ ◌&&◌ (ap (λ x. same_method x c.method) m)
      (ap (λ x. text_eq (normalize_route_path x) (normalize_route_path (some c.path))) g)

pub last_of-Kept :
    (cs : List CacheRouteConfig) (r s : FlattenedRoute) (before : Option MiddlewareConfig)
    → Kept r s
    → last_of cs r before ≡ last_of cs s before
unfolding last_of
last_of-Kept [] r s before k = refl
last_of-Kept (c ∷ cs) r s before k =
    ap (λ b. last_of cs r (if b then some (for_route c) else before)) (matches_route-Kept c r s k)
    ∙ last_of-Kept cs r s _ k

pub last_of-append :
    (cs ds : List CacheRouteConfig) (r : FlattenedRoute) (before : Option MiddlewareConfig)
    → last_of (cs ++ ds) r before ≡ last_of ds r (last_of cs r before)
unfolding last_of
last_of-append [] ds r before = refl
last_of-append (c ∷ cs) ds r before = last_of-append cs ds r _

pub Kept-trans : (r s t : FlattenedRoute) → Kept r s → Kept s t → Kept r t
Kept-trans r s t (m, g) (m', g') = (m ∙ m', g ∙ g')
