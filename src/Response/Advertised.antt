-- ===== src/Response/Advertised.antt =====
-- packages/plugin-rest-cache/server/src/utils/middlewares/buildCacheControl.ts: what is advertised.
use plugin_rest_cache.Prelude.{
  none≢some, some_injective, ℕ, zero, suc, ◌+◌, ◌-◌, ◌*◌, ◌/◌, ◌%◌, ◌<◌, ◌≡◌, refl, sym, ap, ◌∙◌,
  inl, inr, Bool, true, false, ◌||◌, Option, none, some, [], ◌∷◌, ◌++◌, arith, ltb, ◌==◌, ==_iff,
  Bool-cases, Text, lit, Free, Free-append,
}
use plugin_rest_cache.Context.{lower_unit}
use plugin_rest_cache.Response.Spaces.{is_space}
use plugin_rest_cache.Response.Cacheable.{directive_behind, forbids}
use plugin_rest_cache.Response.CacheControl.{
  Scope, shared, personal, CacheControlConfig, to_seconds, digits, decimal, scope_text,
  effective_scope, stated_age, seconds_directive, directives, join_directives, build_cache_control,
}

-- The number that decimal digits denote.
unfoldable pub number_of : ℕ → Text → ℕ
number_of acc [] = acc
number_of acc (c ∷ s) = number_of (acc * 10 + (c - 48)) s

number_of-snoc :
    (acc : ℕ) (s : Text) (c : ℕ) → number_of acc (s ++ c ∷ []) ≡ number_of acc s * 10 + (c - 48)
unfolding number_of
number_of-snoc acc [] c = refl
number_of-snoc acc (d ∷ s) c = number_of-snoc (acc * 10 + (d - 48)) s c

number_of-digits : (f n : ℕ) → n < f → number_of 0 (digits f n) ≡ n
unfolding digits number_of
number_of-digits zero n h = absurd (omega arith)
number_of-digits (suc f) n h = elim (Bool-cases (ltb n 10)) [
  | inl small ↦ rw small (omega arith)
  | inr large ↦ rw large (
      number_of-snoc 0 (digits f (n / 10)) (48 + n % 10)
      ∙ (ground (arith, number_of-digits f (n / 10) (ground arith))))
]

-- The digits that are printed for a number denote it: the rounds are enough.
number_of-decimal : (n : ℕ) → number_of 0 (decimal n) ≡ n
unfolding decimal
number_of-decimal n = number_of-digits (suc n) n (omega arith)

digits-Free : (f n : ℕ) → Free b',' (digits f n)
unfolding digits
digits-Free zero n = tt
digits-Free (suc f) n = elim (Bool-cases (ltb n 10)) [
  | inl small ↦ rw small (λ e. omega (arith, e), tt)
  | inr large ↦
      rw large (
        Free-append b',' (digits f (n / 10)) _ (digits-Free f (n / 10)) (λ e. omega (arith, e), tt))
]

directive_behind-Free : (s t : Text) → Free b',' s → directive_behind (s ++ t) ≡ directive_behind t
unfolding directive_behind
directive_behind-Free [] t h = refl
directive_behind-Free (c ∷ s) t (n, h) = elim (Bool-cases (c == b',')) [
  | inl comma ↦ absurd (n ((==_iff c b',').0 comma))
  | inr other ↦ rw other (directive_behind-Free s t h)
]

decimal-Free : (n : ℕ) → Free b',' (decimal n)
unfolding decimal
decimal-Free n = digits-Free (suc n) n

directive_behind_none : (s : Text) → Free b',' s → directive_behind s ≡ false
unfolding directive_behind
directive_behind_none [] h = refl
directive_behind_none (c ∷ s) (n, h) = elim (Bool-cases (c == b',')) [
  | inl comma ↦ absurd (n ((==_iff c b',').0 comma))
  | inr other ↦ rw other (directive_behind_none s h)
]

abbrev pub is_personal : Scope → Bool
is_personal shared = false
is_personal personal = true

abbrev line : Scope → Option ℕ → Option ℕ → Text
line scope age stale = join_directives (
    scope_text scope
    ∷ (seconds_directive (lit "max-age") age
        ++ seconds_directive (lit "stale-while-revalidate") stale))

effective_scope_lem :
    (scope : Scope) (use_auth : Bool)
    → is_personal (effective_scope scope use_auth) ≡ (use_auth || is_personal scope)
unfolding effective_scope
effective_scope_lem shared true = refl
effective_scope_lem shared false = refl
effective_scope_lem personal true = refl
effective_scope_lem personal false = refl

forbids-line :
    (scope : Scope) (age stale : Option ℕ) → forbids (line scope age stale) ≡ is_personal scope
unfolding forbids directive_behind is_space lower_unit seconds_directive join_directives
forbids-line personal none none = refl
forbids-line personal (some a) none = refl
forbids-line personal none (some b) = refl
forbids-line personal (some a) (some b) = refl
forbids-line shared none none = refl
forbids-line shared (some a) none =
    directive_behind_none (decimal (to_seconds a)) (decimal-Free (to_seconds a))
forbids-line shared none (some b) =
    directive_behind_none (decimal (to_seconds b)) (decimal-Free (to_seconds b))
forbids-line shared (some a) (some b) =
    directive_behind-Free (decimal (to_seconds a)) _ (decimal-Free (to_seconds a))
    ∙ directive_behind_none (decimal (to_seconds b)) (decimal-Free (to_seconds b))

-- The header that buildCacheControl makes is one that isCacheable would refuse exactly if the keys'
-- useAuth is truthy or the configured scope is private.
pub build_cache_control-forbids :
    (config : CacheControlConfig) (route_max_age : ℕ) (use_auth : Bool) (header : Text)
    → build_cache_control (some config) route_max_age use_auth ≡ some header
    → forbids header ≡ (use_auth || is_personal config.scope)
unfolding build_cache_control directives
build_cache_control-forbids config route_max_age use_auth header h =
    elim (Bool-cases config.enabled) [
      | inr off ↦ absurd (none≢some (rw off at h))
      | inl on ↦
          let scope = effective_scope config.scope use_auth in
          let age = stated_age config.max_age route_max_age in
          ap forbids (sym (some_injective (rw on at h)))
          ∙ forbids-line scope age config.stale_while_revalidate
          ∙ effective_scope_lem config.scope use_auth
    ]
