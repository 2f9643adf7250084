-- ===== src/Response/CacheControl.antt =====
-- packages/plugin-rest-cache/server/src/utils/middlewares/buildCacheControl.ts and
-- types/CacheControlConfig.ts
use plugin_rest_cache.Prelude.{
  ℕ, zero, suc, ◌+◌, ◌/◌, ◌%◌, Bool, false, Option, none, some, List, [], ◌∷◌, ◌++◌, ltb,
  if◌then◌else◌, Text, lit,
}
use plugin_rest_cache.Keys.Config.{default_to}

pub data MaxAge : Type 0 where
  unstated configured : MaxAge
  fixed : ℕ → MaxAge

pub data Scope : Type 0 where
  shared personal : Scope

pub record CacheControlConfigInput : Type 0 where
  pub enabled : Option Bool
  pub max_age : Option MaxAge
  pub scope : Option Scope
  pub stale_while_revalidate : Option ℕ

pub record CacheControlConfig : Type 0 where
  pub enabled : Bool
  pub max_age : MaxAge
  pub scope : Scope
  pub stale_while_revalidate : Option ℕ

-- The constructor; `ms` is the identity.
unfoldable pub cache_control_config : CacheControlConfigInput → CacheControlConfig
cache_control_config options = record {
  enabled = default_to false options.enabled;
  max_age = default_to configured options.max_age;
  scope = default_to personal options.scope;
  stale_while_revalidate = options.stale_while_revalidate;
}

-- Milliseconds to whole seconds, rounded down.
unfoldable pub to_seconds : ℕ → ℕ
to_seconds ms = ms / 1000

-- The decimal digits of a number; `n + 1` rounds are enough.
unfoldable pub digits : ℕ → ℕ → Text
digits zero n = []
digits (suc f) n =
    let front = digits f (n / 10) in
    if ltb n 10 then (b'0' + n) ∷ [] else front ++ (b'0' + n % 10) ∷ []

unfoldable pub decimal : ℕ → Text
unfolding digits
decimal n = digits (suc n) n

abbrev pub scope_text : Scope → Text
scope_text shared = lit "public"
scope_text personal = lit "private"

-- `public` becomes `private` where the keys identify the caller.
unfoldable pub effective_scope : Scope → Bool → Scope
effective_scope shared use_auth = if use_auth then personal else shared
effective_scope personal use_auth = personal

-- The age to state, in milliseconds.
unfoldable pub stated_age : MaxAge → ℕ → Option ℕ
stated_age unstated route_max_age = none
stated_age configured route_max_age = some route_max_age
stated_age (fixed ms) route_max_age = some ms

unfoldable pub seconds_directive : Text → Option ℕ → List Text
unfolding to_seconds decimal
seconds_directive name none = []
seconds_directive name (some ms) = (name ++ b'=' ∷ decimal (to_seconds ms)) ∷ []

unfoldable pub directives : CacheControlConfig → ℕ → Bool → List Text
unfolding effective_scope stated_age seconds_directive
directives config route_max_age use_auth =
    scope_text (effective_scope config.scope use_auth)
    ∷ (seconds_directive (lit "max-age") (stated_age config.max_age route_max_age)
        ++ seconds_directive (lit "stale-while-revalidate") config.stale_while_revalidate)

-- `directives.join(', ')`
unfoldable pub join_directives : List Text → Text
join_directives [] = []
join_directives (d ∷ []) = d
join_directives (d ∷ e ∷ ds) = d ++ (lit ", " ++ join_directives (e ∷ ds))

-- `config` is undefined in a strategy without one.
unfoldable pub build_cache_control : Option CacheControlConfig → ℕ → Bool → Option Text
unfolding directives join_directives
build_cache_control none route_max_age use_auth = none
build_cache_control (some config) route_max_age use_auth =
    if config.enabled
    then some (join_directives (directives config route_max_age use_auth))
    else none
