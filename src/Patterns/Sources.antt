-- ===== src/Patterns/Sources.antt =====
-- packages/plugin-rest-cache/server/src/utils/config/getRouteRegExp.ts: the source of a route's wildcard
-- pattern, written in items.
use plugin_rest_cache.Prelude.{
  ℕ, zero, suc, ◌<◌, ◌≡◌, refl, sym, ap, ◌∙◌, Bool, true, false, ◌&&◌, ◌||◌, Option, List, [], ◌∷◌,
  ◌++◌, map, arith, leb, ◌==◌, if_true, if_false, length, All, Text, lit,
}
use plugin_rest_cache.Context.{lower_unit}
use plugin_rest_cache.Patterns.{
  lower_case_pattern, slash_text, collapse_once, collapse_slashes, wildcard_piece, wildcard_path,
  anchored, get_route_reg_exp, Params,
}
use plugin_rest_cache.Patterns.Pieces.{Piece, raw, token, pieces}
use plugin_rest_cache.Patterns.Values.{is_special}
use plugin_rest_cache.Patterns.Matcher.{Item, unit, escaped, segment, print, is_escapable}
use plugin_rest_cache.Patterns.Parsed.{IsItem}
use plugin_rest_cache.Response.Decisions.{CacheRouteConfig}
use plugin_rest_cache.Patterns.Lowered.{
  lower_plain, lower_case_pattern-cons, group, lower_case_pattern-group, wildcard_token,
  lower_nothing, lower_slash,
}

-- A unit that is no syntax of patterns, or a parameter with no constraint and no modifier.
abbrev pub IsPlain : Piece → Type 0
IsPlain (raw c) = is_special c ≡ false
IsPlain (token slash name rest optional) = (rest ≡ []) × (optional ≡ false)

abbrev pub is_slash : Piece → Bool
is_slash (raw c) = c == b'/'
is_slash (token slash name rest optional) = false

abbrev pub opens_slash : Piece → Bool
opens_slash (raw c) = c == b'/'
opens_slash (token slash name rest optional) = slash

-- Two slashes in a row.
unfoldable pub has_empty_segment : List Piece → Bool
has_empty_segment [] = false
has_empty_segment (p ∷ []) = false
has_empty_segment (p ∷ q ∷ ps) = (is_slash p && opens_slash q) || has_empty_segment (q ∷ ps)

abbrev slash_items : Bool → List Item → List Item
slash_items true items = unit b'/' ∷ items
slash_items false items = items

unfoldable pub items_of : List Piece → List Item
items_of [] = escaped b'?' ∷ []
items_of (raw c ∷ ps) = unit (lower_unit c) ∷ items_of ps
items_of (token slash name rest optional ∷ ps) = slash_items slash (segment ∷ items_of ps)

pub items_of-IsItem : (ps : List Piece) → All IsPlain ps → All IsItem (items_of ps)
unfolding items_of is_escapable
items_of-IsItem [] h = (refl, tt)
items_of-IsItem (raw c ∷ ps) (h, hs) = (lower_plain c h, items_of-IsItem ps hs)
items_of-IsItem (token true name rest optional ∷ ps) (h, hs) = (refl, (tt, items_of-IsItem ps hs))
items_of-IsItem (token false name rest optional ∷ ps) (h, hs) = (tt, items_of-IsItem ps hs)

collapse_once-group : (s : Text) → collapse_once (group ++ s) ≡ group ++ collapse_once s
unfolding collapse_once
collapse_once-group [] = refl
collapse_once-group (c ∷ s) = refl

no_open : (c : ℕ) → (c == b'/' && b'(' == b'/') ≡ false
no_open c = ground arith

lower_wildcard :
    (ps : List Piece)
    → All IsPlain ps
    → lower_case_pattern (wildcard_path ps) ++ lit "\\?" ≡ print (items_of ps)
unfolding wildcard_path items_of print wildcard_piece slash_text
lower_wildcard [] h = rw lower_nothing refl
lower_wildcard (raw c ∷ ps) (h, hs) =
    rw (lower_case_pattern-cons c (wildcard_path ps) h)
      (ap (◌∷◌ (lower_unit c)) (lower_wildcard ps hs))
lower_wildcard (token true name rest optional ∷ ps) ((h, k), hs) =
    ap (λ t. lower_case_pattern (t ++ wildcard_path ps) ++ lit "\\?")
      (wildcard_token true name rest optional h k)
    ∙ (ap (λ t. t ++ lit "\\?")
          (lower_slash (group ++ wildcard_path ps)
            ∙ ap (◌∷◌ b'/') (lower_case_pattern-group (wildcard_path ps)))
        ∙ ap (λ t. b'/' ∷ (group ++ t)) (lower_wildcard ps hs))
lower_wildcard (token false name rest optional ∷ ps) ((h, k), hs) =
    ap (λ t. lower_case_pattern (t ++ wildcard_path ps) ++ lit "\\?")
      (wildcard_token false name rest optional h k)
    ∙ (ap (λ t. t ++ lit "\\?") (lower_case_pattern-group (wildcard_path ps))
        ∙ ap (λ t. group ++ t) (lower_wildcard ps hs))

pub collapse_once-cons :
    (c d : ℕ) (s : Text)
    → (c == b'/' && d == b'/') ≡ false
    → collapse_once (c ∷ d ∷ s) ≡ c ∷ collapse_once (d ∷ s)
unfolding collapse_once
collapse_once-cons c d s h = if_false _ _ _ h

pub one_unit : (c : ℕ) → collapse_once (c ∷ []) ≡ c ∷ []
unfolding collapse_once
one_unit c = refl

pub nothing_left : collapse_once [] ≡ []
unfolding collapse_once
nothing_left = refl

before_group :
    (c : ℕ) (s : Text) → collapse_once (c ∷ (group ++ s)) ≡ c ∷ (group ++ collapse_once s)
before_group c s = collapse_once-cons c b'(' _ (no_open c) ∙ ap (◌∷◌ c) (collapse_once-group s)

pub either_part : (a b : Bool) → (a || b) ≡ false → (a ≡ false) × (b ≡ false)
either_part a b h = ground arith

pub no_empty_later :
    (p : Piece) (ps : List Piece)
    → has_empty_segment (p ∷ ps) ≡ false
    → has_empty_segment ps ≡ false
unfolding has_empty_segment
no_empty_later p [] k = refl
no_empty_later p (q ∷ ps) k =
    let (apart, later) = either_part (is_slash p && opens_slash q) (has_empty_segment (q ∷ ps)) k in
    later

collapse_once-wildcard :
    (ps : List Piece)
    → All IsPlain ps
    → has_empty_segment ps ≡ false
    → collapse_once (wildcard_path ps) ≡ wildcard_path ps
unfolding wildcard_path has_empty_segment wildcard_piece slash_text
collapse_once-wildcard [] h k = nothing_left
collapse_once-wildcard (raw c ∷ []) h k = one_unit c
collapse_once-wildcard (raw c ∷ raw d ∷ ps) (h, hs) k =
    let (apart, later) = either_part (c == b'/' && d == b'/') (has_empty_segment (raw d ∷ ps)) k in
    collapse_once-cons c d (wildcard_path ps) apart
    ∙ ap (◌∷◌ c) (collapse_once-wildcard (raw d ∷ ps) hs later)
collapse_once-wildcard (raw c ∷ token true name rest optional ∷ ps) (h, ((hr, ho), hs)) k =
    let (apart, later) =
      either_part (c == b'/' && true) (has_empty_segment (token true name rest optional ∷ ps)) k in
    let e = wildcard_token true name rest optional hr ho in
    let ih = collapse_once-wildcard (token true name rest optional ∷ ps) ((hr, ho), hs) later in
    ap (λ t. collapse_once (c ∷ (t ++ wildcard_path ps))) e
    ∙ (collapse_once-cons c b'/' (group ++ wildcard_path ps) apart
        ∙ ap (◌∷◌ c) (ap (λ t. collapse_once (t ++ wildcard_path ps)) (sym e) ∙ ih))
collapse_once-wildcard (raw c ∷ token false name rest optional ∷ ps) (h, ((hr, ho), hs)) k =
    let e = wildcard_token false name rest optional hr ho in
    let later =
      no_empty_later (token false name rest optional) ps
        (no_empty_later (raw c) (token false name rest optional ∷ ps) k) in
    ap (λ t. collapse_once (c ∷ (t ++ wildcard_path ps))) e
    ∙ (before_group c (wildcard_path ps)
        ∙ (ap (λ t. c ∷ (group ++ t)) (collapse_once-wildcard ps hs later)
            ∙ ap (λ t. c ∷ (t ++ wildcard_path ps)) (sym e)))
collapse_once-wildcard (token true name rest optional ∷ ps) ((hr, ho), hs) k =
    let e = wildcard_token true name rest optional hr ho in
    let later = no_empty_later (token true name rest optional) ps k in
    ap (λ t. collapse_once (t ++ wildcard_path ps)) e
    ∙ (before_group b'/' (wildcard_path ps)
        ∙ (ap (λ t. b'/' ∷ (group ++ t)) (collapse_once-wildcard ps hs later)
            ∙ ap (λ t. t ++ wildcard_path ps) (sym e)))
collapse_once-wildcard (token false name rest optional ∷ ps) ((hr, ho), hs) k =
    let e = wildcard_token false name rest optional hr ho in
    let later = no_empty_later (token false name rest optional) ps k in
    ap (λ t. collapse_once (t ++ wildcard_path ps)) e
    ∙ (collapse_once-group (wildcard_path ps)
        ∙ (ap (λ t. group ++ t) (collapse_once-wildcard ps hs later)
            ∙ ap (λ t. t ++ wildcard_path ps) (sym e)))

collapse_slashes-wildcard :
    (ps : List Piece) (times : ℕ)
    → All IsPlain ps
    → has_empty_segment ps ≡ false
    → collapse_slashes (wildcard_path ps) times ≡ wildcard_path ps
unfolding collapse_slashes
collapse_slashes-wildcard ps zero hs k = refl
collapse_slashes-wildcard ps (suc times) hs k =
    ap (λ t. collapse_slashes t times) (collapse_once-wildcard ps hs k)
    ∙ collapse_slashes-wildcard ps times hs k

pub get_route_reg_exp-wildcard :
    (route : CacheRouteConfig) (params : Option Params)
    → 0 < length route.param_names
    → All IsPlain (pieces route.path)
    → has_empty_segment (pieces route.path) ≡ false
    → get_route_reg_exp route params true ≡ (b'^' ∷ print (items_of (pieces route.path))) ∷ []
unfolding get_route_reg_exp anchored
get_route_reg_exp-wildcard route params named hs k =
    if_false (leb (length route.param_names) 0) _ _ (ground arith)
    ∙ (ap (λ t. anchored (lower_case_pattern t) ∷ [])
          (collapse_slashes-wildcard (pieces route.path) (length route.param_names) hs k)
        ∙ ap (λ t. (b'^' ∷ t) ∷ []) (lower_wildcard (pieces route.path) hs))

wildcard_path-raw : (path : Text) → wildcard_path (map raw path) ≡ path
unfolding wildcard_path wildcard_piece
wildcard_path-raw [] = refl
wildcard_path-raw (c ∷ path) = ap (◌∷◌ c) (wildcard_path-raw path)

pub get_route_reg_exp-whole :
    (route : CacheRouteConfig) (params : Option Params) (wildcard : Bool)
    → route.param_names ≡ []
    → All IsPlain (map raw route.path)
    → get_route_reg_exp route params wildcard ≡ (b'^' ∷ print (items_of (map raw route.path))) ∷ []
unfolding get_route_reg_exp anchored
get_route_reg_exp-whole route params wildcard none_named plain =
    if_true (leb (length route.param_names) 0) _ _ (ap (λ names. leb (length names) 0) none_named)
    ∙ (ap (λ t. anchored (lower_case_pattern t) ∷ []) (sym (wildcard_path-raw route.path))
        ∙ ap (λ t. (b'^' ∷ t) ∷ []) (lower_wildcard (map raw route.path) plain))
