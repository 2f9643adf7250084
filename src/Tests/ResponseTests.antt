-- ===== src/Tests/ResponseTests.antt =====
-- packages/plugin-rest-cache/server/src: runs of the decisions about a response.
use plugin_rest_cache.Prelude.{
  ◌≡◌, refl, ◌↔◌, Bool, true, false, ◌||◌, Option, none, some, [], ◌∷◌, Text, lit, text_eq,
  starts_with,
}
use plugin_rest_cache.Json.{Json, null, bool, num, str, arr, obj}
use plugin_rest_cache.Json.Cost.{IsPrintable}
use plugin_rest_cache.Context.{Request, AuthState, numeric, lookup}
use plugin_rest_cache.Keys.{generate_cache_key}
use plugin_rest_cache.Keys.Config.{all_params}
use plugin_rest_cache.Outcome.{Outcome, resolved}
use plugin_rest_cache.Response.{value, Response, truthy}
use plugin_rest_cache.Response.Cacheable.{forbids, is_cacheable, cacheable, IsShareable}
use plugin_rest_cache.Response.CacheControl.{CacheControlConfig, build_cache_control, fixed, shared}
use plugin_rest_cache.Response.Advertised.{build_cache_control-forbids, is_personal}
use plugin_rest_cache.Response.Directives.{Forbidding}
use plugin_rest_cache.Response.Refusals.{forbids_iff, is_cacheable_iff}
use plugin_rest_cache.Response.Decisions.{
  CacheRouteConfig, get, should_lookup, is_unkeyed_authenticated_route, etag_match,
}
use plugin_rest_cache.Response.Decisions as Decisions
use plugin_rest_cache.Response.Sharing.{as_caller, unkeyed-shares}
use plugin_rest_cache.Response.Listed.{listed_route_hitpass, should_lookup_value}
use plugin_rest_cache.Response.Replay.{type_to_keep, replayed_type}
use plugin_rest_cache.Response.Served.{stored-served}
use plugin_rest_cache.Response.Passive.{replayed_type-IsPassive, IsPassive}
use plugin_rest_cache.Strategy.{listed_route, keys_of}
use plugin_rest_cache.Strategy.Bypass.{LookedUp, listed_route_iff}
use plugin_rest_cache.Strategy.Inputs.{
  CachePluginStrategyInput, CacheContentTypeConfigInput, path_only,
}
use plugin_rest_cache.Store.{CacheStore, read_entry, set}
use plugin_rest_cache.Store.Entry.{CacheEntry, kept_type}
use plugin_rest_cache.Store.Log.{no_purges}
use plugin_rest_cache.Store.Table.{Table, table_api, table_lawful}

abbrev csv : Response
csv = record {
  respond = true;
  status = 200;
  body = value (str (lit "a,b"));
  headers = (lit "content-type", lit "text/csv; charset=utf-8") ∷ [];
}

csv_cacheable : is_cacheable csv ≡ cacheable
unfolding is_cacheable text_eq
csv_cacheable = refl

csv_kept : type_to_keep csv ≡ some (lit "text/csv; charset=utf-8")
unfolding type_to_keep text_eq starts_with
csv_kept = refl

csv_IsPrintable : (v : Json) → csv.body ≡ value v → IsPrintable v
csv_IsPrintable (str s) e = tt
csv_IsPrintable null e = cc
csv_IsPrintable (bool b) e = cc
csv_IsPrintable (num t) e = cc
csv_IsPrintable (arr vs) e = cc
csv_IsPrintable (obj fs) e = cc

abbrev empty_store : CacheStore Table
empty_store = record { provider = some []; purges = no_purges }

stored-served_example :
    (v : Json) × (entry : CacheEntry) × (csv.body ≡ value v)
    × ((read_entry table_api []
          (lit "/api/export")
          (set table_api []
            (lit "/api/export")
            v
            1000
            (record { type = type_to_keep csv })
            empty_store).1).0
        ≡ some entry)
    × (entry.data' ≡ some v)
    × (truthy v ≡ true)
    × (replayed_type v entry.type ≡ type_to_keep csv)
stored-served_example =
    stored-served table_api table_lawful [] csv (lit "/api/export") 1000 [] no_purges refl
      csv_cacheable csv_IsPrintable

csv_replayed : replayed_type (str (lit "a,b")) (some (lit "text/csv")) ≡ some (lit "text/csv")
unfolding replayed_type text_eq starts_with
csv_replayed = refl

replayed_type-IsPassive_example :
    (kept_type (some (lit "text/csv")) ≡ some (lit "text/csv"))
    × (body : Text) × (◌≡◌ {A = Json} (str (lit "a,b")) (str body))
    × IsPassive (lit "text/csv") body
replayed_type-IsPassive_example =
    replayed_type-IsPassive (str (lit "a,b")) (some (lit "text/csv")) (lit "text/csv") csv_replayed

forbids_iff_example :
    (forbids (lit "max-age=0, Private") ≡ true) ↔ Forbidding (lit "max-age=0, Private")
forbids_iff_example = forbids_iff (lit "max-age=0, Private")

private_forbidden : forbids (lit "max-age=0, Private") ≡ true
unfolding forbids
private_forbidden = refl

is_cacheable_iff_example : (is_cacheable csv ≡ cacheable) ↔ ((v : Json) × IsShareable csv v)
is_cacheable_iff_example = is_cacheable_iff csv

abbrev control : CacheControlConfig
control = record {
  enabled = true;
  max_age = fixed 90500;
  scope = shared;
  stale_while_revalidate = none;
}

control_header : build_cache_control (some control) 1000 true ≡ some (lit "private, max-age=90")
unfolding build_cache_control
control_header = refl

build_cache_control-forbids_example :
    forbids (lit "private, max-age=90") ≡ (true || is_personal control.scope)
build_cache_control-forbids_example =
    build_cache_control-forbids control 1000 true (lit "private, max-age=90") control_header

abbrev route : CacheRouteConfig
route = record {
  max_age = 1000;
  path = lit "/api/articles";
  method = get;
  param_names = [];
  keys = record { use_headers = []; use_query_params = all_params; use_auth = false };
  hitpass = Decisions.fixed false;
}

abbrev request : Request
request = record {
  path = lit "/api/articles";
  query = (lit "sort", str (lit "title")) ∷ [];
  header = (lit "if-none-match", lit "\"abc\"") ∷ [];
  auth = none;
}

abbrev user : Option AuthState
user = some (record {
  strategy_name = some (lit "users-permissions");
  credentials = some (record { id = some (numeric (lit "5")); type = none });
})

route_reported : is_unkeyed_authenticated_route route ≡ true
unfolding is_unkeyed_authenticated_route
route_reported = refl

unkeyed-shares_example :
    (generate_cache_key request route.keys ≡ generate_cache_key (as_caller user request) route.keys)
    × (should_lookup request route.hitpass ≡ resolved true)
    × (should_lookup (as_caller user request) route.hitpass ≡ resolved true)
unkeyed-shares_example = unkeyed-shares route request user route_reported

-- A strategy that bypasses what has a caller, over a content type that bypasses nothing.
abbrev with_caller : Request → Outcome Bool
with_caller r = resolved (elim r.auth [ none ↦ false | some _ ↦ true ])

abbrev strategy_hitpass : Option Decisions.Hitpass
strategy_hitpass = some (Decisions.decided with_caller)

abbrev options : CachePluginStrategyInput
options = record { max_age = none; hitpass = strategy_hitpass; keys = none; content_types = [] }

abbrev never : CacheContentTypeConfigInput
never = record {
  content_type = lit "api::article";
  inject_default_routes = none;
  max_age = none;
  hitpass = some (Decisions.fixed false);
  keys = none;
  routes = [];
}

listed_route_iff_example :
    (should_lookup
        (as_caller user request)
        (listed_route options never (path_only (lit "/api/articles"))).hitpass
      ≡ resolved true)
    ↔ LookedUp (as_caller user request) false strategy_hitpass (some (Decisions.fixed false))
unfolding keys_of
listed_route_iff_example =
    listed_route_iff options never (lit "/api/articles") (as_caller user request)

caller_bypassed :
    should_lookup_value
      (as_caller user request)
      (listed_route_hitpass strategy_hitpass (some (Decisions.fixed false)) route.keys)
    ≡ resolved false
unfolding should_lookup_value listed_route_hitpass should_lookup
caller_bypassed = refl

abc_matches : etag_match request (lit "abc") ≡ true
unfolding etag_match starts_with lookup text_eq
abc_matches = refl
