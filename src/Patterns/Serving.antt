-- ===== src/Patterns/Serving.antt =====
-- The requests that the wildcard pattern of packages/plugin-rest-cache/server/src/utils/config/
-- getRouteRegExp.ts clears.
use mathlib.Core.Path.{ap₂, subst}
use plugin_rest_cache.Prelude.{
  ℕ, ◌<◌, ◌≡◌, refl, sym, ap, ◌∙◌, ◌↔◌, Bool, true, false, ◌||◌, Option, none, some, List, [], ◌∷◌,
  ◌++◌, map, arith, ◌==◌, ==_iff, and_parts, length, any, All, Text, Free,
}
use plugin_rest_cache.Context.{Request, lower_unit, to_lower_case}
use plugin_rest_cache.Keys.{generate_cache_key}
use plugin_rest_cache.Keys.Config.{CacheKeysConfig}
use plugin_rest_cache.Keys.Path.{request_path}
use plugin_rest_cache.Keys.Paths.{request_path-Free}
use plugin_rest_cache.Patterns.{get_route_reg_exp, Params, slash_text}
use plugin_rest_cache.Patterns.Matcher.{Item, match_segment, match_unit, matches, reg_exp, print}
use plugin_rest_cache.Patterns.Parsed.{IsItem, reg_exp-print}
use plugin_rest_cache.Patterns.Pieces.{Piece, raw, token, pieces}
use plugin_rest_cache.Patterns.Sources.{
  IsPlain, has_empty_segment, items_of, items_of-IsItem, get_route_reg_exp-wildcard,
  get_route_reg_exp-whole,
}
use plugin_rest_cache.Patterns.Values.{is_special}
use plugin_rest_cache.Purging.Matched.{accepts}
use plugin_rest_cache.Response.Decisions.{CacheRouteConfig}
use plugin_rest_cache.Store.Log.{RegExp}
use plugin_rest_cache.Patterns.Segments.{InSegment, segment_splits, not_both, met, group_matches}

-- The path is the route's in lower case, with one unit or more of a segment for each parameter.
abbrev pub Serves : List Piece → Text → Type 0
Serves [] path = path ≡ []
Serves (raw c ∷ ps) path = (rest : Text) × (path ≡ lower_unit c ∷ rest) × Serves ps rest
Serves (token slash name more optional ∷ ps) path =
    (c : ℕ) × (value : Text) × (rest : Text) × (path ≡ slash_text slash ++ ((c ∷ value) ++ rest))
    × InSegment (c ∷ value)
    × Serves ps rest

Free-rest : (c : ℕ) (s t : Text) → Free c (s ++ t) → Free c t
Free-rest c [] t h = h
Free-rest c (a ∷ s) t (h, hs) = Free-rest c s t hs

plain_no_mark : (c : ℕ) → is_special c ≡ false → (lower_unit c == b'?') ≡ false
unfolding is_special lower_unit
plain_no_mark c h = ground arith

-- The group of a segment before a mark, read both ways.
group-Serves :
    (ps : List Piece) (s tail : Text)
    → Free b'?' s
    → ((r : Text) → Free b'?' r → matches (items_of ps) (r ++ b'?' ∷ tail) ≡ true → Serves ps r)
    → match_segment (matches (items_of ps)) (s ++ b'?' ∷ tail) ≡ true
    → (c : ℕ) × (value : Text) × (rest : Text) × (s ≡ (c ∷ value) ++ rest)
      × InSegment (c ∷ value)
      × Serves ps rest
group-Serves ps s tail free ih h =
    let (c, value, rest, e, within, held) = segment_splits (matches (items_of ps)) s tail h in
    (
      c,
      value,
      rest,
      e,
      within,
      ih rest (Free-rest b'?' (c ∷ value) rest (subst (Free b'?') e free)) held,
    )

matches-Serves :
    (ps : List Piece) (s tail : Text)
    → All IsPlain ps
    → Free b'?' s
    → matches (items_of ps) (s ++ b'?' ∷ tail) ≡ true
    → Serves ps s
unfolding matches items_of match_unit slash_text
matches-Serves [] [] tail plain free h = refl
matches-Serves [] (c ∷ s) tail plain (other, free) h = absurd (other (ground arith))
matches-Serves (raw c ∷ ps) [] tail (p, plain) free h = absurd (not_both _ _ (plain_no_mark c p) h)
matches-Serves (raw c ∷ ps) (d ∷ s) tail (p, plain) (other, free) h =
    let (same, later) = and_parts (lower_unit c == d) _ h in
    (
      s,
      ap (λ x. x ∷ s) (sym ((==_iff (lower_unit c) d).0 same)),
      matches-Serves ps s tail plain free later,
    )
matches-Serves (token true name more optional ∷ ps) [] tail (p, plain) free h =
    absurd (ground arith)
matches-Serves (token true name more optional ∷ ps) (d ∷ s) tail (p, plain) (other, free) h =
    let (same, later) = and_parts (b'/' == d) _ h in
    let (c, value, rest, e, within, served) =
      group-Serves ps s tail free (λ r f. matches-Serves ps r tail plain f) later in
    (c, value, rest, ap₂ ◌∷◌ (sym ((==_iff b'/' d).0 same)) e, within, served)
matches-Serves (token false name more optional ∷ ps) s tail (p, plain) free h =
    group-Serves ps s tail free (λ r f. matches-Serves ps r tail plain f) h

Serves-matches :
    (ps : List Piece) (s tail : Text)
    → Serves ps s
    → matches (items_of ps) (s ++ b'?' ∷ tail) ≡ true
unfolding matches items_of match_unit slash_text
Serves-matches [] s tail h = rw h refl
Serves-matches (raw c ∷ ps) s tail (rest, e, later) =
    subst (λ x. matches (items_of (raw c ∷ ps)) (x ++ b'?' ∷ tail) ≡ true) (sym e)
      (met (lower_unit c) (matches (items_of ps)) (rest ++ b'?' ∷ tail)
        (Serves-matches ps rest tail later))
Serves-matches (token true name more optional ∷ ps) s tail (c, value, rest, e, within, later) =
    subst (λ x. matches (items_of (token true name more optional ∷ ps)) (x ++ b'?' ∷ tail) ≡ true)
      (sym e)
      (met b'/' (match_segment (matches (items_of ps))) (((c ∷ value) ++ rest) ++ b'?' ∷ tail) (
        group_matches (matches (items_of ps)) c value rest (b'?' ∷ tail) within
          (Serves-matches ps rest tail later)))
Serves-matches (token false name more optional ∷ ps) s tail (c, value, rest, e, within, later) =
    subst (λ x. match_segment (matches (items_of ps)) (x ++ b'?' ∷ tail) ≡ true) (sym e)
      (group_matches (matches (items_of ps)) c value rest (b'?' ∷ tail) within
        (Serves-matches ps rest tail later))

or_nothing : (b : Bool) → (b || false) ≡ b
or_nothing b = ground arith

-- What a purge accepts whose one pattern is printed from items.
pub accepts-printed :
    (other : Text → Option RegExp) (items : List Item) (sources : List Text) (key : Text)
    → All IsItem items
    → sources ≡ (b'^' ∷ print items) ∷ []
    → any (accepts (reg_exp other) key) sources ≡ matches items key
accepts-printed other items sources key are_items same =
    ap (any (accepts (reg_exp other) key)) same
    ∙ (or_nothing (accepts (reg_exp other) key (b'^' ∷ print items))
        ∙ ap (λ compiled. elim compiled [ none ↦ false | some r ↦ r key ])
            (reg_exp-print other items are_items))

-- A purge whose one pattern is printed from pieces clears what they serve.
one_pattern-Serves :
    (other : Text → Option RegExp) (ps : List Piece) (sources : List Text) (path tail : Text)
    → All IsPlain ps
    → sources ≡ (b'^' ∷ print (items_of ps)) ∷ []
    → Free b'?' path
    → (any (accepts (reg_exp other) (path ++ b'?' ∷ tail)) sources ≡ true) ↔ Serves ps path
one_pattern-Serves other ps sources path tail plain same free =
    let e =
      accepts-printed other (items_of ps) sources (path ++ b'?' ∷ tail) (items_of-IsItem ps plain)
        same in
    (
      λ h. matches-Serves ps path tail plain free (sym e ∙ h),
      λ h. e ∙ Serves-matches ps path tail h,
    )

-- A wildcard purge, and a key that is a path with any text behind its `?`.
pub wildcard_at :
    (other : Text → Option RegExp) (route : CacheRouteConfig) (params : Option Params)
    (path tail : Text)
    → 0 < length route.param_names
    → All IsPlain (pieces route.path)
    → has_empty_segment (pieces route.path) ≡ false
    → Free b'?' path
    → (any (accepts (reg_exp other) (path ++ b'?' ∷ tail)) (get_route_reg_exp route params true)
        ≡ true)
      ↔ Serves (pieces route.path) path
wildcard_at other route params path tail named plain apart free =
    one_pattern-Serves other (pieces route.path) (get_route_reg_exp route params true) path tail
      plain (get_route_reg_exp-wildcard route params named plain apart) free

-- For a route with parameters whose path has no pattern syntax, constraint, modifier or empty segment, the
-- wildcard purge accepts the key of a request exactly if the request's path is the route's in lower case with
-- a text of one unit or more, of no `/`, `#` or `?`, for each parameter, whatever else the key is made of.
pub wildcard-Serves :
    (other : Text → Option RegExp) (route : CacheRouteConfig) (params : Option Params)
    (ctx : Request) (keys : CacheKeysConfig)
    → 0 < length route.param_names
    → All IsPlain (pieces route.path)
    → has_empty_segment (pieces route.path) ≡ false
    → Free b'?' ctx.path
    → (any
          (accepts (reg_exp other) (generate_cache_key ctx keys))
          (get_route_reg_exp route params true)
        ≡ true)
      ↔ Serves (pieces route.path) (request_path ctx.path)
unfolding generate_cache_key
wildcard-Serves other route params ctx keys named plain apart free =
    wildcard_at other route params (request_path ctx.path) _ named plain apart
      (request_path-Free ctx.path free)

Serves-raw : (path t : Text) → Serves (map raw path) t ↔ (t ≡ to_lower_case path)
unfolding to_lower_case
Serves-raw [] t = (λ h. h, λ h. h)
Serves-raw (c ∷ path) t = (
  λ (rest, e, h). e ∙ ap (◌∷◌ (lower_unit c)) ((Serves-raw path rest).0 h),
  λ h. (to_lower_case path, h, (Serves-raw path (to_lower_case path)).1 refl),
)

-- Any purge of a route without parameters, and such a key.
pub whole_route_at :
    (other : Text → Option RegExp) (route : CacheRouteConfig) (params : Option Params)
    (wildcard : Bool) (path tail : Text)
    → route.param_names ≡ []
    → All IsPlain (map raw route.path)
    → Free b'?' path
    → (any (accepts (reg_exp other) (path ++ b'?' ∷ tail)) (get_route_reg_exp route params wildcard)
        ≡ true)
      ↔ (path ≡ to_lower_case route.path)
whole_route_at other route params wildcard path tail none_named plain free =
    let (clears, cleared) =
      one_pattern-Serves other (map raw route.path) (get_route_reg_exp route params wildcard) path
        tail plain (get_route_reg_exp-whole route params wildcard none_named plain) free in
    let (to, from) = Serves-raw route.path path in (λ h. to (clears h), λ h. cleared (from h))

-- Any purge of a route without parameters whose path has no pattern syntax accepts the key of a request
-- exactly if the request's path is the route's in lower case, whatever else the key is made of.
pub whole_route_iff :
    (other : Text → Option RegExp) (route : CacheRouteConfig) (params : Option Params)
    (wildcard : Bool) (ctx : Request) (keys : CacheKeysConfig)
    → route.param_names ≡ []
    → All IsPlain (map raw route.path)
    → Free b'?' ctx.path
    → (any
          (accepts (reg_exp other) (generate_cache_key ctx keys))
          (get_route_reg_exp route params wildcard)
        ≡ true)
      ↔ (request_path ctx.path ≡ to_lower_case route.path)
unfolding generate_cache_key
whole_route_iff other route params wildcard ctx keys none_named plain free =
    whole_route_at other route params wildcard (request_path ctx.path) _ none_named plain
      (request_path-Free ctx.path free)
