-- ===== src/Patterns/Given.antt =====
-- The requests that the pattern of packages/plugin-rest-cache/server/src/utils/config/getRouteRegExp.ts
-- clears for given parameters.
use mathlib.Core.List.{append_assoc}
use mathlib.Core.Path.{ap₂, subst}
use plugin_rest_cache.Prelude.{
  ◌<◌, ◌≡◌, refl, ◌∙◌, inl, inr, Bool, true, false, ◌&&◌, Option, none, some, List, [], ◌∷◌, ◌++◌,
  arith, Bool-cases, Option-cases, if_false, none≢some, some_injective, length, All, Text, text_eq,
  Free,
}
use plugin_rest_cache.Context.{lower_unit}
use plugin_rest_cache.Patterns.{
  Params, slash_text, param, resolved_piece, resolved_path, may_be_empty,
}
use plugin_rest_cache.Patterns.Matcher.{Item, unit}
use plugin_rest_cache.Patterns.Pieces.{Piece, raw, token, modifier_of}
use plugin_rest_cache.Patterns.Sending.{
  IsSendable, sent, items_of_chars, chars-Spelled, value_pattern-pos, value_pattern-Free,
}
use plugin_rest_cache.Patterns.Spelling.{Spelled, Spelled-append, plain-Spelled}
use plugin_rest_cache.Patterns.Sources.{IsPlain}
use plugin_rest_cache.Patterns.Lowered.{slash_plain}
use plugin_rest_cache.Patterns.Values.{array_from, param_to_pattern}
use plugin_rest_cache.Patterns.Slashes.{Follows}

-- A value that is not empty and that every client writes alike in a path.
abbrev pub IsValue : Text → Type 0
IsValue value = (0 < length (array_from value)) × All IsSendable (array_from value)

abbrev pub AreValues : Params → Type 0
AreValues = All (λ p. IsValue p.1)

unfoldable pub filled_piece : Params → Piece → Option Text
unfolding param slash_text sent
filled_piece given (raw c) = some (c ∷ [])
filled_piece given (token slash name rest optional) = elim (param name given) [
  | none ↦ none
  | some value ↦ some (slash_text slash ++ sent (array_from value))
]

-- The path with the values in it, none if one is missing.
unfoldable pub filled : Params → List Piece → Option Text
unfolding filled_piece
filled given [] = some []
filled given (p ∷ ps) = elim (filled_piece given p) [
  | none ↦ none
  | some here ↦ elim (filled given ps) [ none ↦ none | some later ↦ some (here ++ later) ]
]

param-IsValue :
    (name value : Text) (given : Params)
    → AreValues given
    → param name given ≡ some value
    → IsValue value
unfolding param
param-IsValue name value [] hs e = absurd (none≢some e)
param-IsValue name value ((n, v) ∷ given) (h, hs) e = elim (Bool-cases (text_eq name n)) [
  | inl same ↦ subst IsValue (some_injective (rw same at e)) h
  | inr other ↦ param-IsValue name value given hs (rw other at e)
]

never_both : (b : Bool) → (b && false) ≡ false
never_both b = ground arith

resolved_token :
    (given : Params) (slash : Bool) (name rest value : Text) (optional : Bool)
    → rest ≡ []
    → optional ≡ false
    → param name given ≡ some value
    → resolved_piece given (token slash name rest optional)
      ≡ some (slash_text slash ++ param_to_pattern (array_from value))
unfolding resolved_piece may_be_empty modifier_of
resolved_token given slash name rest value optional h k e =
    let plain : resolved_piece given (token slash name [] false)
        ≡ some (slash_text slash ++ param_to_pattern (array_from value)) =
      rw (e, resolved_piece) (if_false _ _ _ (never_both (text_eq value []))) in
    ap₂ (λ r o. resolved_piece given (token slash name r o)) h k ∙ plain

filled_token :
    (given : Params) (slash : Bool) (name rest value : Text) (optional : Bool)
    → param name given ≡ some value
    → filled_piece given (token slash name rest optional)
      ≡ some (slash_text slash ++ sent (array_from value))
unfolding filled_piece
filled_token given slash name rest value optional e = rw (e, filled_piece) refl

unfilled_token :
    (given : Params) (slash : Bool) (name rest : Text) (optional : Bool)
    → param name given ≡ none
    → filled_piece given (token slash name rest optional) ≡ none
unfolding filled_piece
unfilled_token given slash name rest optional e = rw (e, filled_piece) refl

unresolved_token :
    (given : Params) (slash : Bool) (name rest : Text) (optional : Bool)
    → param name given ≡ none
    → resolved_piece given (token slash name rest optional) ≡ none
unfolding resolved_piece
unresolved_token given slash name rest optional e = rw (e, resolved_piece) refl

-- What comes of the pieces: a value is missing, or there are a pattern and a path that agree.
pub data Outcome (given : Params) (ps : List Piece) : Type 0 where
  missing : resolved_path given ps ≡ none → filled given ps ≡ none → Outcome given ps
  found :
      (pattern path : Text) (items : List Item)
      → resolved_path given ps ≡ some pattern
      → filled given ps ≡ some path
      → Spelled pattern items path
      → Follows ps pattern
      → Outcome given ps

-- One more piece in front.
more_found :
    (given : Params) (p : Piece) (ps : List Piece) (pattern path : Text) (items : List Item)
    → resolved_piece given p ≡ some pattern
    → filled_piece given p ≡ some path
    → Spelled pattern items path
    → ((later : Text) → Follows ps later → Follows (p ∷ ps) (pattern ++ later))
    → Outcome given ps
    → Outcome given (p ∷ ps)
unfolding resolved_path filled
more_found given p ps pattern path items e f spelled follows (missing e' f') =
    missing (rw (e, e', resolved_path) refl) (rw (f, f', filled) refl)
more_found given p ps pattern path items e f spelled follows
      (found pattern' path' items' e' f' spelled' h) =
    found (pattern ++ pattern') (path ++ path') (items ++ items') (rw (e, e', resolved_path) refl)
      (rw (f, f', filled) refl)
      (Spelled-append pattern pattern' items items' path path' spelled spelled')
      (follows pattern' h)

abbrev slash_items : Bool → List Item
slash_items true = unit b'/' ∷ []
slash_items false = []

-- A value after its slash.
value-Spelled :
    (slash : Bool) (value : Text)
    → IsValue value
    → Spelled
        (slash_text slash ++ param_to_pattern (array_from value))
        (slash_items slash ++ items_of_chars (array_from value))
        (slash_text slash ++ sent (array_from value))
unfolding slash_text lower_unit
value-Spelled true value (h, hs) =
    Spelled-append (b'/' ∷ []) _ (unit b'/' ∷ []) _ (b'/' ∷ []) _ (plain-Spelled b'/' slash_plain)
      (chars-Spelled (array_from value) hs)
value-Spelled false value (h, hs) = chars-Spelled (array_from value) hs

value-Follows :
    (slash : Bool) (pattern later : Text) (name rest : Text) (optional : Bool) (ps : List Piece)
    → 0 < length pattern
    → Free b'/' pattern
    → Follows ps later
    → Follows (token slash name rest optional ∷ ps) ((slash_text slash ++ pattern) ++ later)
value-Follows slash [] later name rest optional ps h free f = absurd (omega arith)
value-Follows slash (c ∷ value) later name rest optional ps h free f =
    (c, value, later, append_assoc (slash_text slash) (c ∷ value) later, free, f)

pub outcome :
    (given : Params) (ps : List Piece) → AreValues given → All IsPlain ps → Outcome given ps
unfolding resolved_path filled items_of_chars sent resolved_piece filled_piece
outcome given [] hs plain = found [] [] [] refl refl (chars-Spelled [] tt) refl
outcome given (raw c ∷ ps) hs (h, plain) =
    more_found given (raw c) ps (c ∷ []) (c ∷ []) _ refl refl (plain-Spelled c h)
      (λ later f. (later, refl, f)) (outcome given ps hs plain)
outcome given (token slash name rest optional ∷ ps) hs ((h, k), plain) =
    elim (Option-cases (param name given)) [
      | inl missed ↦
          missing (rw (unresolved_token given slash name rest optional missed, resolved_path) refl)
            (rw (unfilled_token given slash name rest optional missed, filled) refl)
      | inr (value, e) ↦
          let v = param-IsValue name value given hs e in
          more_found given (token slash name rest optional) ps _ _ _
            (resolved_token given slash name rest value optional h k e)
            (filled_token given slash name rest value optional e) (value-Spelled slash value v)
            (λ later.
              value-Follows slash _ later name rest optional ps
                (value_pattern-pos (array_from value) v.1 v.0)
                (value_pattern-Free (array_from value) v.1))
            (outcome given ps hs plain)
    ]
