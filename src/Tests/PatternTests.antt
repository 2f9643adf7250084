-- ===== src/Tests/PatternTests.antt =====
-- packages/plugin-rest-cache/server/src/utils/config/getRouteRegExp.ts: sources of patterns.
use mathlib.Core.Option
use plugin_rest_cache.Prelude.{
  ◌≡◌, refl, ◌↔◌, true, false, Option, none, some, List, [], ◌∷◌, map, arith, any, All, Text, lit,
  text_eq, Free-of_every,
}
use plugin_rest_cache.Context.{Request, to_lower_case}
use plugin_rest_cache.Keys.{generate_cache_key}
use plugin_rest_cache.Keys.Path.{request_path}
use plugin_rest_cache.Patterns.{get_route_reg_exp, Params}
use plugin_rest_cache.Patterns.Exact.{given_iff}
use plugin_rest_cache.Patterns.Given.{AreValues, filled}
use plugin_rest_cache.Patterns.Matcher.{reg_exp}
use plugin_rest_cache.Patterns.Pieces.{pieces, raw}
use plugin_rest_cache.Patterns.Values.{is_special, is_path_literal, is_sent_either_way, array_from}
use plugin_rest_cache.Patterns.Serving.{Serves, wildcard-Serves, whole_route_iff}
use plugin_rest_cache.Patterns.Sources.{has_empty_segment, IsPlain}
use plugin_rest_cache.Purging.Matched.{accepts}
use plugin_rest_cache.Store.Log.{RegExp}
use plugin_rest_cache.Response.Decisions.{CacheRouteConfig, get}
use plugin_rest_cache.Response.Decisions as Decisions
use plugin_rest_cache.Keys.Config.{all_params}

abbrev at_path : Text → List Text → CacheRouteConfig
at_path path names = record {
  max_age = 1000;
  path = path;
  method = get;
  param_names = names;
  keys = record { use_headers = []; use_query_params = all_params; use_auth = false };
  hitpass = Decisions.fixed false;
}

abbrev by_slug : CacheRouteConfig
by_slug = at_path (lit "/api/bySlug/:slug") (lit "slug" ∷ [])

whole_route : get_route_reg_exp (at_path (lit "/api/News") []) none false ≡ lit "^/api/news\\?" ∷ []
unfolding get_route_reg_exp
whole_route = refl

every_slug : get_route_reg_exp by_slug none true ≡ lit "^/api/byslug/([^\\/#\\?]+)\\?" ∷ []
unfolding get_route_reg_exp
every_slug = refl

one_slug :
    get_route_reg_exp by_slug (some ((lit "slug", lit "c++ [a") ∷ [])) false
    ≡ lit "^/api/byslug/c\\+\\+%20(?:\\[|%5b)a\\?" ∷ []
unfolding get_route_reg_exp text_eq
one_slug = refl

other_param : get_route_reg_exp by_slug (some ((lit "id", lit "1") ∷ [])) false ≡ []
unfolding get_route_reg_exp text_eq
other_param = refl

constrained :
    get_route_reg_exp (at_path (lit "/a/:id(\\d+)/b/:t*") (lit "id" ∷ lit "t" ∷ [])) none true
    ≡ lit "^/a/((?:\\d+))/b(?:\\/([^\\/#\\?]+(?:\\/[^\\/#\\?]+)*))?\\?" ∷ []
unfolding get_route_reg_exp
constrained = refl

abbrev refused : Text → Option RegExp
refused source = none

abbrev asking : Text → Request
asking path = record { path = path; query = []; header = []; auth = none }

slug_cleared :
    any
      (accepts
        (reg_exp refused)
        (generate_cache_key (asking (lit "/api//bySlug/Abc/")) by_slug.keys))
      (get_route_reg_exp by_slug none true)
    ≡ true
unfolding reg_exp get_route_reg_exp generate_cache_key to_lower_case text_eq
slug_cleared = refl

deeper_kept :
    any
      (accepts
        (reg_exp refused)
        (generate_cache_key (asking (lit "/api/bySlug/abc/d")) by_slug.keys))
      (get_route_reg_exp by_slug none true)
    ≡ false
unfolding reg_exp get_route_reg_exp generate_cache_key to_lower_case text_eq
deeper_kept = refl

abbrev abc : Request
abc = asking (lit "/api/bySlug/abc")

by_slug-IsPlain : All IsPlain (pieces by_slug.path)
unfolding is_special pieces
by_slug-IsPlain = (
  refl,
  (
    refl,
    (refl, (refl, (refl, (refl, (refl, (refl, (refl, (refl, (refl, ((refl, refl), tt)))))))))),
  ),
)

by_slug-has_empty_segment : has_empty_segment (pieces by_slug.path) ≡ false
unfolding has_empty_segment pieces
by_slug-has_empty_segment = refl

wildcard-Serves_example :
    (any
        (accepts (reg_exp refused) (generate_cache_key abc by_slug.keys))
        (get_route_reg_exp by_slug none true)
      ≡ true)
    ↔ Serves (pieces by_slug.path) (request_path abc.path)
wildcard-Serves_example =
    wildcard-Serves refused by_slug none abc by_slug.keys (omega arith) by_slug-IsPlain
      by_slug-has_empty_segment (Free-of_every b'?' abc.path refl)

abbrev news : CacheRouteConfig
news = at_path (lit "/api/News") []

news-IsPlain : All IsPlain (map raw news.path)
unfolding is_special
news-IsPlain = (refl, (refl, (refl, (refl, (refl, (refl, (refl, (refl, (refl, tt)))))))))

whole_route_iff_example :
    (any
        (accepts (reg_exp refused) (generate_cache_key abc news.keys))
        (get_route_reg_exp news none false)
      ≡ true)
    ↔ (request_path abc.path ≡ to_lower_case news.path)
whole_route_iff_example =
    whole_route_iff refused news none false abc news.keys refl news-IsPlain
      (Free-of_every b'?' abc.path refl)

abbrev slug_given : Params
slug_given = (lit "slug", b'C' ∷ b'+' ∷ b' ' ∷ 233 ∷ []) ∷ []

slug_given-AreValues : AreValues slug_given
unfolding array_from is_path_literal is_sent_either_way
slug_given-AreValues = (
  (
    omega arith,
    (
      (omega arith, refl, λ e. absurd (omega arith)),
      (
        (omega arith, refl, λ e. absurd (omega arith)),
        (
          (omega arith, refl, λ e. absurd (omega arith)),
          ((omega arith, refl, λ e. absurd (omega arith)), tt),
        ),
      ),
    ),
  ),
  tt,
)

slug_filled : filled slug_given (pieces by_slug.path) ≡ some (lit "/api/bySlug/C+%20%c3%a9")
unfolding filled pieces text_eq array_from is_path_literal
slug_filled = refl

given_iff_example :
    (any
        (accepts (reg_exp refused) (generate_cache_key abc by_slug.keys))
        (get_route_reg_exp by_slug (some slug_given) false)
      ≡ true)
    ↔ (Option.map to_lower_case (filled slug_given (pieces by_slug.path))
        ≡ some (request_path abc.path))
given_iff_example =
    given_iff refused by_slug slug_given abc by_slug.keys (omega arith) by_slug-IsPlain
      by_slug-has_empty_segment slug_given-AreValues (Free-of_every b'?' abc.path refl)
