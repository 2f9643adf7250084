-- ===== src/Patterns.antt =====
-- packages/plugin-rest-cache/server/src/utils/config/getRouteRegExp.ts: the source text of the
-- patterns of a purge. A route's path is read into pieces by Patterns/Pieces, a value is made a
-- pattern by Patterns/Values.
pub mod Pieces
pub mod Values
pub mod Matcher
pub mod Parsed
pub mod Sources
pub mod Serving
pub mod Sending
pub mod Given
pub mod Exact
pub mod Spelling
pub mod Slashes
pub mod Lowered
pub mod Segments
use plugin_rest_cache.Prelude.{
  ℕ, zero, suc, Bool, true, false, ◌&&◌, not, Option, none, some, List, [], ◌∷◌, ◌++◌, leb, ◌==◌,
  if◌then◌else◌, length, Text, lit, text_eq,
}
use plugin_rest_cache.Context.{to_lower_case, lower_unit}
use plugin_rest_cache.Response.Decisions.{CacheRouteConfig}
use Pieces.{
  Piece, raw, token, Modifier, modifier_of, constraint_of, pieces, no_modifier, optional_mod,
  star_mod, plus_mod, is_line_end,
}
use Values.{array_from, param_to_pattern}

-- `part.toLowerCase()` of what is not behind a backslash.
unfoldable pub lower_case_pattern : Text → Text
unfolding lower_unit is_line_end
lower_case_pattern [] = []
lower_case_pattern (c ∷ []) = lower_unit c ∷ []
lower_case_pattern (c ∷ d ∷ s) =
    let escaped = c ∷ d ∷ lower_case_pattern s in
    let plain = lower_unit c ∷ lower_case_pattern (d ∷ s) in
    if c == b'\\' && not (is_line_end d) then escaped else plain

-- SEGMENT
abbrev pub any_segment : Text
any_segment = lit "[^\\/#\\?]+"

unfoldable pub slash_text : Bool → Text
slash_text slash = if slash then b'/' ∷ [] else []

-- What one value of the parameter may be.
unfoldable pub segment_of : Option Text → Text
segment_of none = any_segment
segment_of (some constraint) = lit "(?:" ++ (constraint ++ lit ")")

unfoldable pub repeated_of : Text → Text
repeated_of segment = segment ++ (lit "(?:\\/" ++ (segment ++ lit ")*"))

abbrev pub optional_group : Bool → Text → Text
optional_group slash inner =
    if slash then lit "(?:\\/(" ++ (inner ++ lit "))?") else b'(' ∷ (inner ++ lit ")?")

unfoldable pub wildcard_for : Bool → Text → Bool → Text
unfolding segment_of repeated_of slash_text modifier_of constraint_of
wildcard_for slash rest optional =
    let segment = segment_of (constraint_of rest) in
    elim (modifier_of rest optional) [
      | plus_mod ↦ slash_text slash ++ (b'(' ∷ (repeated_of segment ++ lit ")"))
      | optional_mod ↦ optional_group slash segment
      | star_mod ↦ optional_group slash (repeated_of segment)
      | no_modifier ↦ slash_text slash ++ (b'(' ∷ (segment ++ lit ")"))
    ]

-- `out.replace('//', '/')`
unfoldable pub collapse_once : Text → Text
collapse_once [] = []
collapse_once (c ∷ []) = c ∷ []
collapse_once (c ∷ d ∷ s) =
    let later = c ∷ collapse_once (d ∷ s) in if c == b'/' && d == b'/' then d ∷ s else later

unfoldable pub collapse_slashes : Text → ℕ → Text
unfolding collapse_once
collapse_slashes pattern zero = pattern
collapse_slashes pattern (suc times) = collapse_slashes (collapse_once pattern) times

-- The parameters of a purge: the own properties, and the text of each value.
abbrev pub Params : Type 0
Params = List (Text × Text)

unfoldable pub param : Text → Params → Option Text
param name [] = none
param name ((n, value) ∷ params) =
    let later = param name params in if text_eq name n then some value else later

unfoldable pub wildcard_piece : Piece → Text
unfolding wildcard_for
wildcard_piece (raw c) = c ∷ []
wildcard_piece (token slash name rest optional) = wildcard_for slash rest optional

-- `modifier === '?' || modifier === '*'`
unfoldable pub may_be_empty : Modifier → Bool
may_be_empty optional_mod = true
may_be_empty star_mod = true
may_be_empty _ = false

-- The value in its place; none where the purge was not given it.
unfoldable pub resolved_piece : Params → Piece → Option Text
unfolding param may_be_empty modifier_of slash_text array_from param_to_pattern
resolved_piece params (raw c) = some (c ∷ [])
resolved_piece params (token slash name rest optional) = elim (param name params) [
  | none ↦ none
  | some value ↦
      if text_eq value [] && may_be_empty (modifier_of rest optional)
      then some []
      else some (slash_text slash ++ param_to_pattern (array_from value))
]

unfoldable pub wildcard_path : List Piece → Text
unfolding wildcard_piece
wildcard_path [] = []
wildcard_path (p ∷ ps) = wildcard_piece p ++ wildcard_path ps

unfoldable pub resolved_path : Params → List Piece → Option Text
unfolding resolved_piece
resolved_path params [] = some []
resolved_path params (p ∷ ps) = elim (resolved_piece params p) [
  | none ↦ none
  | some here ↦ elim (resolved_path params ps) [ none ↦ none | some later ↦ some (here ++ later) ]
]

-- `^` before, and an escaped `?` behind.
unfoldable pub anchored : Text → Text
anchored pattern = b'^' ∷ (pattern ++ lit "\\?")

-- The sources of the patterns; `params` may be null.
unfoldable pub get_route_reg_exp : CacheRouteConfig → Option Params → Bool → List Text
unfolding anchored lower_case_pattern collapse_slashes wildcard_path resolved_path pieces
get_route_reg_exp route params wildcard =
    if leb (length route.param_names) 0
    then anchored (lower_case_pattern route.path) ∷ []
    else if wildcard
    then anchored (
        lower_case_pattern
          (collapse_slashes (wildcard_path (pieces route.path)) (length route.param_names)))
      ∷ []
    else (elim params [
      | none ↦ []
      | some given ↦ elim (resolved_path given (pieces route.path)) [
        | none ↦ []
        | some pattern ↦
            anchored (lower_case_pattern (collapse_slashes pattern (length given))) ∷ []
      ]
    ])
