-- ===== src/Response/Listed.antt =====
-- packages/plugin-rest-cache/server/src/utils/config/resolveUserStrategy.ts: the hitpass of a listed route.
use plugin_rest_cache.Prelude.{
  ◌≡◌, refl, ◌↔◌, Bool, true, false, not, Option, none, some, if◌then◌else◌,
}
use plugin_rest_cache.Outcome.{Outcome, resolved, rejected}
use plugin_rest_cache.Context.{Request}
use plugin_rest_cache.Keys.Config.{CacheKeysConfig}
use plugin_rest_cache.Response.Decisions.{Hitpass, decided, should_lookup}

-- shouldLookup on a hitpass that may be undefined, which is neither a boolean nor a function.
unfoldable pub should_lookup_value : Request → Option Hitpass → Outcome Bool
should_lookup_value ctx none = resolved false
should_lookup_value ctx (some hitpass) = should_lookup ctx hitpass

-- `!(await first) || !(await second)`
unfoldable either_fails : Outcome Bool → Outcome Bool → Outcome Bool
either_fails rejected second = rejected
either_fails (resolved false) second = resolved true
either_fails (resolved true) rejected = rejected
either_fails (resolved true) (resolved b) = resolved (not b)

unfoldable pub bypasses_either : Option Hitpass → Hitpass → Request → Outcome Bool
unfolding should_lookup_value either_fails
bypasses_either strategy content_type ctx =
    either_fails (should_lookup_value ctx strategy) (should_lookup ctx content_type)

-- `useAuth === true`, of keys whose useAuth is a boolean, as its type has it.
unfoldable pub listed_route_hitpass :
    Option Hitpass → Option Hitpass → CacheKeysConfig → Option Hitpass
unfolding bypasses_either
listed_route_hitpass strategy none keys = strategy
listed_route_hitpass strategy (some content_type) keys =
    if keys.use_auth
    then some content_type
    else some (decided (bypasses_either strategy content_type))

-- The answer is that the cache is asked.
abbrev pub Asked : Outcome Bool → Type 0
Asked answer = answer ≡ resolved true

-- What shouldLookup makes of the answer of a function.
abbrev negated : Outcome Bool → Outcome Bool
negated answer = elim answer [ resolved b ↦ resolved (not b) | rejected ↦ rejected ]

either_fails-Asked : (a b : Outcome Bool) → Asked (negated (either_fails a b)) ↔ (Asked a × Asked b)
unfolding either_fails
either_fails-Asked rejected b = (λ e. cc, λ (e, _). cc)
either_fails-Asked (resolved false) b = (λ e. cc, λ (e, _). cc)
either_fails-Asked (resolved true) rejected = (λ e. cc, λ (_, e). cc)
either_fails-Asked (resolved true) (resolved false) = (λ e. cc, λ (_, e). cc)
either_fails-Asked (resolved true) (resolved true) = (λ _. (refl, refl), λ _. refl)

-- The function that bypasses what either hitpass bypasses.
pub unkeyed_iff :
    (strategy : Option Hitpass) (c : Hitpass) (ctx : Request)
    → Asked (should_lookup_value ctx (some (decided (bypasses_either strategy c))))
      ↔ (Asked (should_lookup_value ctx strategy) × Asked (should_lookup ctx c))
unfolding should_lookup_value should_lookup bypasses_either
unkeyed_iff strategy c ctx =
    either_fails-Asked (should_lookup_value ctx strategy) (should_lookup ctx c)
