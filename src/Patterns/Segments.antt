-- ===== src/Patterns/Segments.antt =====
-- packages/plugin-rest-cache/server/src/utils/config/getRouteRegExp.ts: where
-- a segment's group stops.
use mathlib.Core.List.{append_assoc}
use mathlib.Core.Path.{subst}
use plugin_rest_cache.Prelude.{
  ℕ, ◌≡◌, refl, sym, ap, ◌∙◌, ◌≢◌, inl, inr, Bool, true, false, ◌&&◌, ◌||◌, [], ◌∷◌, ◌++◌, arith,
  ==_refl, or_cases, and_parts, All, Text,
}
use plugin_rest_cache.Patterns.Matcher.{is_segment, match_segment, match_unit}
use plugin_rest_cache.Patterns.Sources.{}

abbrev pub InSegment : Text → Type 0
InSegment = All (λ c. is_segment c ≡ true)

pub mark_ends : (follow : Text → Bool) (tail : Text) → match_segment follow (b'?' ∷ tail) ≢ true
unfolding match_segment is_segment
mark_ends follow tail h = ground arith

-- Where a segment's group stops in a text before a mark.
pub segment_splits :
    (follow : Text → Bool) (s tail : Text)
    → match_segment follow (s ++ b'?' ∷ tail) ≡ true
    → (c : ℕ) × (value : Text) × (rest : Text) × (s ≡ (c ∷ value) ++ rest)
      × InSegment (c ∷ value)
      × (follow (rest ++ b'?' ∷ tail) ≡ true)
unfolding match_segment
segment_splits follow [] tail h = absurd (mark_ends follow tail h)
segment_splits follow (c ∷ s) tail h =
    let (inside, onward) = and_parts (is_segment c) _ h in
    elim (or_cases (follow (s ++ b'?' ∷ tail)) _ onward) [
      | inl now ↦ (c, [], s, refl, (inside, tt), now)
      | inr later ↦
          let (d, value, rest, e, within, held) = segment_splits follow s tail later in
          (c, d ∷ value, rest, ap (◌∷◌ c) e, (inside, within), held)
    ]

pub both_hold : (a b c : Bool) → a ≡ true → c ≡ true → (a && (b || c)) ≡ true
both_hold a b c h k = ground arith

pub segment_joins :
    (follow : Text → Bool) (c : ℕ) (value t : Text)
    → InSegment (c ∷ value)
    → follow t ≡ true
    → match_segment follow ((c ∷ value) ++ t) ≡ true
unfolding match_segment
segment_joins follow c [] t (h, hs) k = ground arith
segment_joins follow c (d ∷ value) t (h, hs) k =
    let ih = segment_joins follow d value t hs k in both_hold _ _ _ h ih

pub not_both : (a b : Bool) → a ≡ false → (a && b) ≢ true
not_both a b h k = ground arith

pub met :
    (c : ℕ) (follow : Text → Bool) (s : Text) → follow s ≡ true → match_unit c follow (c ∷ s) ≡ true
unfolding match_unit
met c follow s h = ap (λ b. b && follow s) (==_refl c) ∙ h

pub group_matches :
    (follow : Text → Bool) (c : ℕ) (value rest t : Text)
    → InSegment (c ∷ value)
    → follow (rest ++ t) ≡ true
    → match_segment follow (((c ∷ value) ++ rest) ++ t) ≡ true
group_matches follow c value rest t within h =
    subst (λ x. match_segment follow x ≡ true) (sym (append_assoc (c ∷ value) rest t))
      (segment_joins follow c value (rest ++ t) within h)
