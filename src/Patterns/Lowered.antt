-- ===== src/Patterns/Lowered.antt =====
-- packages/plugin-rest-cache/server/src/utils/config/getRouteRegExp.ts: what
-- lowerCasePattern leaves of the parts of a pattern.
use plugin_rest_cache.Prelude.{
  ℕ, ◌≡◌, refl, Bool, true, false, ◌&&◌, not, [], ◌∷◌, ◌++◌, arith, ◌==◌, if_false, Text, lit,
}
use plugin_rest_cache.Context.{lower_unit}
use plugin_rest_cache.Patterns.{
  lower_case_pattern, slash_text, segment_of, wildcard_for, wildcard_piece,
}
use plugin_rest_cache.Patterns.Pieces.{token, modifier_of, constraint_of, is_line_end}
use plugin_rest_cache.Patterns.Values.{is_special}

pub lower_plain : (c : ℕ) → is_special c ≡ false → is_special (lower_unit c) ≡ false
unfolding is_special lower_unit
lower_plain c h = ground arith

pub no_backslash : (c : ℕ) (e : Bool) → is_special c ≡ false → (c == b'\\' && not e) ≡ false
unfolding is_special
no_backslash c e h = ground arith

pub lower_case_pattern-cons :
    (c : ℕ) (s : Text)
    → is_special c ≡ false
    → lower_case_pattern (c ∷ s) ≡ lower_unit c ∷ lower_case_pattern s
unfolding lower_case_pattern
lower_case_pattern-cons c [] h = refl
lower_case_pattern-cons c (d ∷ s) h = if_false _ _ _ (no_backslash c (is_line_end d) h)

abbrev pub group : Text
group = lit "([^\\/#\\?]+)"

pub lower_case_pattern-group :
    (s : Text) → lower_case_pattern (group ++ s) ≡ group ++ lower_case_pattern s
unfolding lower_case_pattern
lower_case_pattern-group [] = refl
lower_case_pattern-group (c ∷ s) = refl

pub wildcard_token :
    (slash : Bool) (name rest : Text) (optional : Bool)
    → rest ≡ []
    → optional ≡ false
    → wildcard_piece (token slash name rest optional) ≡ slash_text slash ++ group
unfolding wildcard_piece wildcard_for modifier_of constraint_of segment_of slash_text
wildcard_token true name rest optional h k = rw (h, k) refl
wildcard_token false name rest optional h k = rw (h, k) refl

pub slash_plain : is_special b'/' ≡ false
unfolding is_special
slash_plain = refl

pub lower_nothing : lower_case_pattern [] ≡ []
unfolding lower_case_pattern
lower_nothing = refl

pub lower_slash : (s : Text) → lower_case_pattern (b'/' ∷ s) ≡ b'/' ∷ lower_case_pattern s
unfolding lower_unit
lower_slash s = lower_case_pattern-cons b'/' s (slash_plain)
