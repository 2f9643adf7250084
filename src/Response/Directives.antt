-- ===== src/Response/Directives.antt =====
-- packages/plugin-rest-cache/server/src/utils/middlewares/isCacheable.ts: what the pattern matches.
use mathlib.Core.Path.{ap₂}
use plugin_rest_cache.Prelude.{
  none≢some, ◌≡◌, refl, sym, ap, ◌∙◌, ◌⊎◌, inl, inr, true, ◌&&◌, some, [], ◌∷◌, ◌++◌, ◌==◌, ==_iff,
  Bool-cases, Option-cases, or_cases, and_parts, All, Text, lit,
}
use plugin_rest_cache.Context.{lower_unit, to_lower_case}
use plugin_rest_cache.Response.Spaces.{is_space, skip_space, after_word}
use plugin_rest_cache.Response.Cacheable.{ends, word_ends, directive_at, directive_behind, forbids}

abbrev pub Spaces : Text → Type 0
Spaces = All (λ c. is_space c ≡ true)

-- The text begins with a directive, spaces around it, and then ends or goes on behind a comma.
pub record Directive (s : Text) : Type 0 where
  pub before : Text
  pub word : Text
  pub after : Text
  pub rest : Text
  pub parts : s ≡ before ++ (word ++ (after ++ rest))
  pub spaces : Spaces before × Spaces after
  pub named : (to_lower_case word ≡ lit "no-store") ⊎ (to_lower_case word ≡ lit "private")
  pub stops : ends rest ≡ true

-- The header is a directive, or has one behind a comma.
pub data Forbidding (s : Text) : Type 0 where
  first : Directive s → Forbidding s
  behind : (front tail : Text) → s ≡ front ++ b',' ∷ tail → Directive tail → Forbidding s

skip_space_parts : (s : Text) → (before : Text) × Spaces before × (s ≡ before ++ skip_space s)
unfolding skip_space
skip_space_parts [] = ([], tt, refl)
skip_space_parts (c ∷ s) = elim (Bool-cases (is_space c)) [
  | inl space ↦
      let (before, spaces, parts) = skip_space_parts s in
      (c ∷ before, (space, spaces), rw space (ap (◌∷◌ c) parts))
  | inr other ↦ ([], tt, rw other refl)
]

after_word_parts :
    (w s r : Text)
    → after_word w s ≡ some r
    → (word : Text) × (to_lower_case word ≡ w) × (s ≡ word ++ r)
unfolding after_word to_lower_case
after_word_parts [] s r h = ([], refl, cc)
after_word_parts (a ∷ w) [] r h = cc
after_word_parts (a ∷ w) (c ∷ s) r h = elim (Bool-cases (a == lower_unit c)) [
  | inl same ↦
      let (word, lower, parts) = after_word_parts w s r (rw same at h) in
      (c ∷ word, ap₂ ◌∷◌ (sym ((==_iff a (lower_unit c)).0 same)) lower, ap (◌∷◌ c) parts)
  | inr other ↦ absurd (none≢some (rw other at h))
]

word_ends_parts :
    (w s : Text)
    → word_ends w s ≡ true
    → (word r : Text) × (to_lower_case word ≡ w) × (s ≡ word ++ r) × (ends (skip_space r) ≡ true)
unfolding word_ends
word_ends_parts w s h = elim (Option-cases (after_word w s)) [
  | inl e ↦ cc (rw (e, word_ends) at h)
  | inr (r, e) ↦
      let (word, lower, parts) = after_word_parts w s r e in
      (word, r, lower, parts, rw (e, word_ends) at h)
]

-- A word in its place, read off the tests.
Directive-of :
    (s w : Text)
    → (w ≡ lit "no-store") ⊎ (w ≡ lit "private")
    → word_ends w (skip_space s) ≡ true
    → Directive s
Directive-of s w is_named h =
    let (before, spaces, parts) = skip_space_parts s in
    let (word, r, lower, parts', stops) = word_ends_parts w (skip_space s) h in
    let (after, spaces', parts'') = skip_space_parts r in
    record {
      before = before;
      word = word;
      after = after;
      rest = skip_space r;
      parts = parts ∙ ap (λ t. before ++ t) (parts' ∙ ap (λ t. word ++ t) parts'');
      spaces = (spaces, spaces');
      named = elim is_named [ inl e ↦ inl (lower ∙ e) | inr e ↦ inr (lower ∙ e) ];
      stops = stops;
    }

directive_at-Directive : (s : Text) → directive_at s ≡ true → Directive s
unfolding directive_at
directive_at-Directive s h =
    elim (or_cases (word_ends (lit "no-store") (skip_space s))
      (word_ends (lit "private") (skip_space s)) h) [
        | inl e ↦ Directive-of s (lit "no-store") (inl refl) e
        | inr e ↦ Directive-of s (lit "private") (inr refl) e
      ]

directive_behind-Forbidding :
    (s : Text)
    → directive_behind s ≡ true
    → (front tail : Text) × (s ≡ front ++ b',' ∷ tail) × Directive tail
unfolding directive_behind
directive_behind-Forbidding [] h = cc
directive_behind-Forbidding (c ∷ s) h =
    elim (or_cases (c == b',' && directive_at s) (directive_behind s) h) [
      | inl e ↦
          let (comma, here) = and_parts (c == b',') (directive_at s) e in
          ([], s, ap (λ x. x ∷ s) ((==_iff c b',').0 comma), directive_at-Directive s here)
      | inr e ↦
          let (front, tail, parts, d) = directive_behind-Forbidding s e in
          (c ∷ front, tail, ap (◌∷◌ c) parts, d)
    ]

pub forbids-Forbidding : (s : Text) → forbids s ≡ true → Forbidding s
unfolding forbids
forbids-Forbidding s h = elim (or_cases (directive_at s) (directive_behind s) h) [
  | inl e ↦ first (directive_at-Directive s e)
  | inr e ↦
      let (front, tail, parts, d) = directive_behind-Forbidding s e in behind front tail parts d
]
