-- ===== src/Uri/Points.antt =====
-- A text can be read back from its code points.
use mathlib.Core.Option
use plugin_rest_cache.Prelude.{
  ℕ, ◌+◌, ◌-◌, ◌/◌, ◌%◌, ◌<◌, ◌≡◌, sym, ap, ◌∙◌, List, [], ◌∷◌, true, Option, some, arith, ltb,
  ◌&&◌, if◌then◌else◌, Text, All, Bool-cases, inl, inr,
}
use plugin_rest_cache.Json.{is_high_surrogate, is_low_surrogate}
use plugin_rest_cache.Uri.{join_surrogates, code_points}

-- The units of a text are below 2 ^ 16.
abbrev pub IsUtf16 : Text → Type 0
IsUtf16 = All (λ c. c < 65536)

-- The units of some code points.
pub units : List ℕ → Text
units [] = []
units (p ∷ ps) =
    if ltb p 65536
    then p ∷ units ps
    else (0xd800 + (p - 65536) / 1024) ∷ (0xdc00 + (p - 65536) % 1024) ∷ units ps

units-pair :
    (c d : ℕ) (ps : List ℕ)
    → (is_high_surrogate c && is_low_surrogate d) ≡ true
    → units (join_surrogates c d ∷ ps) ≡ c ∷ d ∷ units ps
unfolding units
units-pair c d ps h = ground arith

units-single : (c : ℕ) (ps : List ℕ) → c < 65536 → units (c ∷ ps) ≡ c ∷ units ps
unfolding units
units-single c ps h = ground arith

pub map-cons-some :
    (c : ℕ) (o : Option (List ℕ)) {ps : List ℕ}
    → Option.map (◌∷◌ c) o ≡ some ps
    → (qs : List ℕ) × (o ≡ some qs) × (c ∷ qs ≡ ps)
map-cons-some c o e = (Option.map-eq-some_iff _ _).0 e

pub units-code_points :
    (s : Text) {ps : List ℕ} → IsUtf16 s → code_points s ≡ some ps → units ps ≡ s
unfolding code_points units
units-code_points [] h e = ground arith
units-code_points (c ∷ []) h e = ground arith
units-code_points (c ∷ d ∷ s) {ps} h e =
    elim (Bool-cases (is_high_surrogate c && is_low_surrogate d)) [
      | inl pair ↦
          let (qs, rest, whole) =
            map-cons-some (join_surrogates c d) (code_points s) (rw pair at e) in
          rw (← whole)
            (units-pair c d qs pair ∙ ap (λ r. c ∷ d ∷ r) (units-code_points s h.1.1 rest))
      | inr single ↦
          let (qs, rest, whole) = map-cons-some c (code_points (d ∷ s)) {ps = ps} (ground arith) in
          rw (← whole) (units-single c qs h.0 ∙ ap (◌∷◌ c) (units-code_points (d ∷ s) h.1 rest))
    ]

-- Texts with the same code points are equal.
pub code_points-injective :
    (s t : Text) {ps : List ℕ}
    → IsUtf16 s
    → IsUtf16 t
    → code_points s ≡ some ps
    → code_points t ≡ some ps
    → s ≡ t
code_points-injective s t h k e e' = sym (units-code_points s h e) ∙ units-code_points t k e'

-- Every code point of a text is below 0x110000.
abbrev pub ArePoints : List ℕ → Type 0
ArePoints = All (λ c. c < 0x110000)

pub code_points-bounded :
    (s : Text) {ps : List ℕ} → IsUtf16 s → code_points s ≡ some ps → ArePoints ps
unfolding code_points
code_points-bounded [] h e = ground arith
code_points-bounded (c ∷ []) h e = ground arith
code_points-bounded (c ∷ d ∷ s) {ps} h e =
    elim (Bool-cases (is_high_surrogate c && is_low_surrogate d)) [
      | inl pair ↦
          let (qs, rest, whole) =
            map-cons-some (join_surrogates c d) (code_points s) (rw pair at e) in
          rw (← whole) (ground arith, code_points-bounded s h.1.1 rest)
      | inr single ↦
          let (qs, rest, whole) = map-cons-some c (code_points (d ∷ s)) {ps = ps} (ground arith) in
          rw (← whole) (omega arith, code_points-bounded (d ∷ s) h.1 rest)
    ]
