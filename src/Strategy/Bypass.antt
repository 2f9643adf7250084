-- ===== src/Strategy/Bypass.antt =====
-- packages/plugin-rest-cache/server/src/utils/config/resolveUserStrategy.ts: what a listed route bypasses.
use plugin_rest_cache.Prelude.{◌≡◌, refl, ◌↔◌, Bool, true, false, Option, none, some, Text}
use plugin_rest_cache.Outcome.{resolved}
use plugin_rest_cache.Keys.Config.{CacheKeysConfig, default_to}
use plugin_rest_cache.Context.{Request}
use plugin_rest_cache.Response.Decisions.{Hitpass, fixed, should_lookup}
use plugin_rest_cache.Response.Listed.{
  should_lookup_value, listed_route_hitpass, Asked, unkeyed_iff,
}
use plugin_rest_cache.Strategy.{keys_of, or_else, cache_route_config, listed_route}
use plugin_rest_cache.Strategy.Inputs.{
  CachePluginStrategyInput, CacheContentTypeConfigInput, path_only,
}

-- The request is looked up, by whether the keys use the caller, for the hitpass of the strategy and of the
-- content type, where they are set.
pub data LookedUp (ctx : Request) : Bool → Option Hitpass → Option Hitpass → Type 0 where
  neither : (use_auth : Bool) → LookedUp ctx use_auth none none
  inherited :
      (use_auth : Bool) (h : Hitpass)
      → should_lookup ctx h ≡ resolved true
      → LookedUp ctx use_auth (some h) none
  both :
      (h c : Hitpass)
      → should_lookup ctx h ≡ resolved true
      → should_lookup ctx c ≡ resolved true
      → LookedUp ctx false (some h) (some c)
  own :
      (strategy : Option Hitpass) (c : Hitpass)
      → should_lookup ctx c ≡ resolved true
      → LookedUp ctx true strategy (some c)

LookedUp-inherited :
    (ctx : Request) (use_auth : Bool) (h : Hitpass)
    → LookedUp ctx use_auth (some h) none
    → should_lookup ctx h ≡ resolved true
LookedUp-inherited ctx use_auth h (inherited _ _ e) = e

LookedUp-own :
    (ctx : Request) (strategy : Option Hitpass) (c : Hitpass)
    → LookedUp ctx true strategy (some c)
    → should_lookup ctx c ≡ resolved true
LookedUp-own ctx strategy c (own _ _ e) = e

of_both :
    (ctx : Request) (strategy : Option Hitpass) (c : Hitpass)
    → Asked (should_lookup_value ctx strategy) × Asked (should_lookup ctx c)
    → LookedUp ctx false strategy (some c)
unfolding should_lookup_value
of_both ctx none c (e, _) = cc
of_both ctx (some h) c (e, of_type) = both h c e of_type

to_both :
    (ctx : Request) (strategy : Option Hitpass) (c : Hitpass)
    → LookedUp ctx false strategy (some c)
    → Asked (should_lookup_value ctx strategy) × Asked (should_lookup ctx c)
unfolding should_lookup_value
to_both ctx _ c (both h _ e of_type) = (e, of_type)

resolved_iff :
    (ctx : Request) (strategy content_type : Option Hitpass) (keys : CacheKeysConfig)
    (use_auth : Bool)
    → keys.use_auth ≡ use_auth
    → Asked (
        should_lookup ctx
          (default_to (fixed false) (listed_route_hitpass strategy content_type keys)))
      ↔ LookedUp ctx use_auth strategy content_type
unfolding listed_route_hitpass should_lookup_value should_lookup
resolved_iff ctx none none keys use_auth e = (λ _. neither use_auth, λ _. refl)
resolved_iff ctx (some h) none keys use_auth e =
    (inherited use_auth h, LookedUp-inherited ctx use_auth h)
resolved_iff ctx strategy (some c) keys true on =
    rw on (own strategy c, LookedUp-own ctx strategy c)
resolved_iff ctx strategy (some c) keys false off =
    let (apart, together) = unkeyed_iff strategy c ctx in
    rw off (λ e. of_both ctx strategy c (apart e), λ l. together (to_both ctx strategy c l))

-- A request is looked up on a route that is listed by its path exactly if neither the strategy nor
-- the content type sets a hitpass; or the strategy's alone is set and looks it up; or the content
-- type's is set and looks it up and, unless the keys use the caller, the strategy's is set and
-- looks it up too.
pub listed_route_iff :
    (options : CachePluginStrategyInput) (entry : CacheContentTypeConfigInput) (path : Text)
    (ctx : Request)
    → (should_lookup ctx (listed_route options entry (path_only path)).hitpass ≡ resolved true)
      ↔ LookedUp ctx
          (keys_of (or_else entry.keys options.keys)).use_auth
          options.hitpass
          entry.hitpass
unfolding listed_route cache_route_config
listed_route_iff options entry path ctx =
    resolved_iff ctx options.hitpass entry.hitpass (keys_of (or_else entry.keys options.keys)) _
      refl
