-- ===== src/Patterns/Pieces.antt =====
-- packages/plugin-rest-cache/server/src/utils/config/getRouteRegExp.ts: the parameters of a path.
use plugin_rest_cache.Prelude.{
  ℕ, Bool, true, false, ◌&&◌, ◌||◌, Option, none, some, List, [], ◌∷◌, ◌++◌, leb, ◌==◌,
  if◌then◌else◌, Text,
}

-- `\w`
unfoldable pub is_word : ℕ → Bool
is_word c =
    (leb b'a' c && leb c b'z')
    || ((leb b'A' c && leb c b'Z') || ((leb b'0' c && leb c b'9') || c == b'_'))

-- What `.` does not match.
unfoldable pub is_line_end : ℕ → Bool
is_line_end c = c == 10 || (c == 13 || (c == 0x2028 || c == 0x2029))

-- A unit, or a match of PARAM_TOKEN: with a slash, the name, the rest of the segment, and a `?`.
pub data Piece : Type 0 where
  raw : ℕ → Piece
  token : Bool → Text → Text → Bool → Piece

-- Where the scan of a path stands.
pub data Mode : Type 0 where
  outside : Mode
  at_colon : Mode
  in_name : Bool → Text → Mode
  in_rest : Bool → Text → Text → Mode

unfoldable pub word_first : Text → Bool
unfolding is_word
word_first [] = false
word_first (c ∷ s) = is_word c

unfoldable pub colon_first : Text → Bool
unfolding word_first
colon_first [] = false
colon_first (c ∷ s) = c == b':' && word_first s

-- The pieces that end with a unit, and the mode behind it; `s` is what follows.
unfoldable pub step_outside : ℕ → Text → List Piece × Mode
unfolding colon_first word_first
step_outside c s =
    if c == b'/' && colon_first s
    then ([], at_colon)
    else if c == b':' && word_first s
    then ([], in_name false [])
    else (raw c ∷ [], outside)

unfoldable pub step_rest : Bool → Text → Text → ℕ → Text → List Piece × Mode
unfolding step_outside
step_rest slash name rest c s =
    if c == b'/' || c == b'#'
    then (let (out, mode) = step_outside c s in (token slash name rest false ∷ out, mode))
    else if c == b'?'
    then (token slash name rest true ∷ [], outside)
    else ([], in_rest slash name (rest ++ c ∷ []))

unfoldable pub step : Mode → ℕ → Text → List Piece × Mode
unfolding step_outside step_rest is_word
step outside c s = step_outside c s
step at_colon c s = ([], in_name true [])
step (in_name slash name) c s =
    if is_word c then ([], in_name slash (name ++ c ∷ [])) else step_rest slash name [] c s
step (in_rest slash name rest) c s = step_rest slash name rest c s

unfoldable pub at_end : Mode → List Piece
at_end outside = []
at_end at_colon = []
at_end (in_name slash name) = token slash name [] false ∷ []
at_end (in_rest slash name rest) = token slash name rest false ∷ []

unfoldable pub pieces_from : Mode → Text → List Piece
unfolding step at_end
pieces_from mode [] = at_end mode
pieces_from mode (c ∷ s) = let (out, mode') = step mode c s in out ++ pieces_from mode' s

-- The matches of PARAM_TOKEN in a path, and the units between them.
unfoldable pub pieces : Text → List Piece
unfolding pieces_from
pieces path = pieces_from outside path

pub data Modifier : Type 0 where
  no_modifier optional_mod plus_mod star_mod : Modifier

-- The modifier that a text ends with.
unfoldable pub last_modifier : Text → Modifier
last_modifier [] = no_modifier
last_modifier (c ∷ []) = if c == b'+' then plus_mod else if c == b'*' then star_mod else no_modifier
last_modifier (c ∷ d ∷ s) = last_modifier (d ∷ s)

unfoldable pub modifier_of : Text → Bool → Modifier
unfolding last_modifier
modifier_of rest optional = if optional then optional_mod else last_modifier rest

-- What stands before a `)` at the end.
unfoldable pub before_paren : Text → Option Text
before_paren [] = none
before_paren (c ∷ []) = if c == b')' then some [] else none
before_paren (c ∷ d ∷ s) = elim (before_paren (d ∷ s)) [
  | none ↦ none
  | some body ↦ if is_line_end c then none else some (c ∷ body)
]

unfoldable pub without_last : Text → Text
without_last [] = []
without_last (c ∷ []) = []
without_last (c ∷ d ∷ s) = c ∷ without_last (d ∷ s)

-- `/^\((.*)\)[+*]?$/.exec(rest)?.[1]`
unfoldable pub constraint_of : Text → Option Text
unfolding last_modifier before_paren without_last
constraint_of [] = none
constraint_of (c ∷ rest) =
    if c == b'('
    then (elim (last_modifier rest) [
      | no_modifier ↦ before_paren rest
      | _ ↦ before_paren (without_last rest)
    ])
    else none
