-- ===== src/Patterns/Matcher.antt =====
-- The part of JavaScript's RegExp that the sources of packages/plugin-rest-cache/server/src/utils/config/
-- getRouteRegExp.ts are written in: literals, escapes, and the group of a segment.
use plugin_rest_cache.Prelude.{
  ℕ, Bool, true, false, ◌&&◌, ◌||◌, not, Option, none, some, List, [], ◌∷◌, ◌++◌, ◌==◌,
  if◌then◌else◌, Text, lit,
}
use plugin_rest_cache.Patterns.Values.{is_special}
use plugin_rest_cache.Store.Log.{RegExp}

pub data Item : Type 0 where
  unit : ℕ → Item
  escaped : ℕ → Item
  -- `([^\/#\?]+)`
  segment : Item

-- The class of the group, and what closes it.
abbrev pub segment_body : Text
segment_body = lit "[^\\/#\\?]+)"

unfoldable pub print_item : Item → Text
print_item (unit c) = c ∷ []
print_item (escaped c) = b'\\' ∷ c ∷ []
print_item segment = b'(' ∷ segment_body

unfoldable pub print : List Item → Text
unfolding print_item
print [] = []
print (i ∷ items) = print_item i ++ print items

pub data Reading : Type 0 where
  outside after_backslash : Reading
  in_group : Text → Reading

-- An escape of a syntax character or of a slash stands for the character.
unfoldable pub is_escapable : ℕ → Bool
unfolding is_special
is_escapable c = is_special c || c == b'/'

abbrev pub with_item : Item → Option (List Item) → Option (List Item)
with_item i none = none
with_item i (some items) = some (i ∷ items)

-- The items of a source, none if it is written otherwise.
unfoldable pub parse_items : Reading → Text → Option (List Item)
unfolding is_special is_escapable
parse_items outside [] = some []
parse_items outside (c ∷ s) =
    let escape = parse_items after_backslash s in
    let group = parse_items (in_group segment_body) s in
    let other = parse_items outside s in
    if c == b'\\'
    then escape
    else if c == b'('
    then group
    else if is_special c
    then none
    else with_item (unit c) other
parse_items after_backslash [] = none
parse_items after_backslash (c ∷ s) =
    let rest = parse_items outside s in if is_escapable c then with_item (escaped c) rest else none
parse_items (in_group body) [] = none
parse_items (in_group []) (c ∷ s) = none
parse_items (in_group (e ∷ [])) (c ∷ s) =
    let rest = parse_items outside s in if c == e then with_item segment rest else none
parse_items (in_group (e ∷ d ∷ body)) (c ∷ s) =
    let rest = parse_items (in_group (d ∷ body)) s in if c == e then rest else none

-- `[^\/#\?]`
unfoldable pub is_segment : ℕ → Bool
is_segment c = not (c == b'/' || (c == b'#' || c == b'?'))

-- One unit of the class or more, and then what follows the group.
unfoldable pub match_segment : (Text → Bool) → Text → Bool
unfolding is_segment
match_segment follow [] = false
match_segment follow (c ∷ s) =
    let later = match_segment follow s in is_segment c && (follow s || later)

unfoldable pub match_unit : ℕ → (Text → Bool) → Text → Bool
match_unit c follow [] = false
match_unit c follow (d ∷ s) = c == d && follow s

-- Whether a text begins with what the items describe.
unfoldable pub matches : List Item → Text → Bool
unfolding match_segment match_unit
matches [] s = true
matches (unit c ∷ items) s = match_unit c (matches items) s
matches (escaped c ∷ items) s = match_unit c (matches items) s
matches (segment ∷ items) s = match_segment (matches items) s

-- `new RegExp(source)` of a source behind a `^`; `other` is what it makes of any other source.
unfoldable pub reg_exp : (Text → Option RegExp) → Text → Option RegExp
unfolding parse_items matches
reg_exp other [] = other []
reg_exp other (c ∷ source) = elim (if c == b'^' then parse_items outside source else none) [
  | none ↦ other (c ∷ source)
  | some items ↦ some (matches items)
]
