-- ===== src/Keys/Escape/Alphabet.antt =====
-- What an encoded text consists of: unreserved units and `%`, and `%` at least once where the text
-- held anything that had to be encoded.
use mathlib.Core.Option
use plugin_rest_cache.Prelude.{
  ℕ, ◌/◌, ◌%◌, ◌<◌, ◌≡◌, refl, List, [], ◌∷◌, Bool, true, false, ◌&&◌, ◌||◌, not, some, none, arith,
  ◌==◌, Text, All, any, ◌⊎◌, inl, inr, Bool-cases, Option-cases,
}
use plugin_rest_cache.Json.{is_high_surrogate, is_low_surrogate, is_surrogate}
use plugin_rest_cache.Uri.{
  code_points, utf8, upper_hex_digit, percent, is_unreserved, encode_point, encode_points,
  encode_uri_component, join_surrogates,
}
use plugin_rest_cache.Uri.Points.{IsUtf16, ArePoints, code_points-bounded, map-cons-some}
use plugin_rest_cache.Keys.Escape.{replace_surrogates, encode}

-- A unit of an encoded text.
abbrev pub is_encoded : ℕ → Bool
is_encoded c = is_unreserved c || c == b'%'

abbrev pub AllEncoded : Text → Type 0
AllEncoded = All (λ c. is_encoded c ≡ true)

upper_hex_digit-encoded : (d : ℕ) → d < 16 → is_encoded (upper_hex_digit d) ≡ true
unfolding upper_hex_digit is_unreserved
upper_hex_digit-encoded d h = ground arith

percent-encoded :
    (bs : List ℕ) (k : Text) → All (λ b. b < 256) bs → AllEncoded k → AllEncoded (percent bs k)
unfolding percent
percent-encoded [] k h e = e
percent-encoded (b ∷ bs) k (h, hs) e = (
  unfold is_unreserved in refl,
  (
    upper_hex_digit-encoded (b / 16) (omega arith),
    (upper_hex_digit-encoded (b % 16) (omega arith), percent-encoded bs k hs e),
  ),
)

utf8-bytes : (c : ℕ) → c < 0x110000 → All (λ b. b < 256) (utf8 c)
unfolding utf8
utf8-bytes c h = ground arith

encode_point-encoded :
    (c : ℕ) (k : Text) → c < 0x110000 → AllEncoded k → AllEncoded (encode_point c k)
unfolding encode_point
encode_point-encoded c k h e = elim (Bool-cases (is_unreserved c)) [
  | inl kept ↦ rw kept (rw kept refl, e)
  | inr other ↦ rw other (percent-encoded (utf8 c) k (utf8-bytes c h) e)
]

not_high : (c d : ℕ) → is_surrogate c ≡ false → (is_high_surrogate c && is_low_surrogate d) ≡ false
not_high c d h = ground arith

encode_points-encoded : (ps : List ℕ) → ArePoints ps → AllEncoded (encode_points ps)
unfolding encode_points
encode_points-encoded [] h = tt
encode_points-encoded (p ∷ ps) (h, hs) =
    encode_point-encoded p (encode_points ps) h (encode_points-encoded ps hs)

uri-encoded : (s : Text) {e : Text} → IsUtf16 s → encode_uri_component s ≡ some e → AllEncoded e
unfolding encode_uri_component
uri-encoded s h p =
    let (ps, points, same) = (Option.map-eq-some_iff _ _).0 p in
    rw (← same) (encode_points-encoded ps (code_points-bounded s h points))

-- With the surrogates replaced, every unit is a code point.
code_points-no_surrogate : (s : Text) → All (λ c. is_surrogate c ≡ false) s → code_points s ≡ some s
unfolding code_points
code_points-no_surrogate [] h = refl
code_points-no_surrogate (c ∷ []) h = rw h.0
code_points-no_surrogate (c ∷ d ∷ s) h =
    rw (not_high c d h.0) (rw h.0 (rw (code_points-no_surrogate (d ∷ s) h.1) refl))

replace_surrogates-none : (s : Text) → All (λ c. is_surrogate c ≡ false) (replace_surrogates s)
unfolding replace_surrogates
replace_surrogates-none [] = tt
replace_surrogates-none (c ∷ s) = (ground arith, replace_surrogates-none s)

replace_surrogates-IsUtf16 : (s : Text) → IsUtf16 s → IsUtf16 (replace_surrogates s)
unfolding replace_surrogates
replace_surrogates-IsUtf16 [] h = tt
replace_surrogates-IsUtf16 (c ∷ s) (h, hs) = (ground arith, replace_surrogates-IsUtf16 s hs)

-- The call in the `catch` branch never throws.
pub encode_replaced :
    (s : Text)
    → encode_uri_component (replace_surrogates s) ≡ some (encode_points (replace_surrogates s))
unfolding encode_uri_component
encode_replaced s = rw (code_points-no_surrogate _ (replace_surrogates-none s)) refl

-- The two branches of `encode`.
pub encode_cases :
    (s : Text)
    → (encode_uri_component s ≡ some (encode s))
      ⊎ ((encode_uri_component s ≡ none)
          × (encode_uri_component (replace_surrogates s) ≡ some (encode s)))
unfolding encode
encode_cases s = elim (Option-cases (encode_uri_component s)) [
  | inl thrown ↦ inr (thrown, rw (thrown, encode) (rw (encode_replaced s) refl))
  | inr (e, done) ↦ inl (rw (done, encode) refl)
]

-- An encoded text holds unreserved units and `%` only.
pub encode-AllEncoded : (s : Text) → IsUtf16 s → AllEncoded (encode s)
encode-AllEncoded s h = elim (encode_cases s) [
  | inl done ↦ uri-encoded s h done
  | inr (_, done) ↦ uri-encoded (replace_surrogates s) (replace_surrogates-IsUtf16 s h) done
]

abbrev pub has_percent : Text → Bool
has_percent = any (λ c. c == b'%')

-- A unit that is encoded, whatever stands beside it.
abbrev pub is_escaped : ℕ → Bool
is_escaped c = not (is_unreserved c || is_surrogate c)

utf8-nonempty : (c : ℕ) → (b : ℕ) × (bs : List ℕ) × (utf8 c ≡ b ∷ bs)
unfolding utf8
utf8-nonempty c = utf8-split (utf8 c) refl
  where
    utf8-split : (l : List ℕ) → utf8 c ≡ l → (b : ℕ) × (bs : List ℕ) × (utf8 c ≡ b ∷ bs)
    utf8-split [] e = absurd (ground arith)
    utf8-split (b ∷ bs) e = (b, bs, e)

percent-has_percent :
    (bs : List ℕ) (k : Text) → has_percent k ≡ true → has_percent (percent bs k) ≡ true
unfolding percent
percent-has_percent [] k h = h
percent-has_percent (b ∷ bs) k h = refl

encode_point-has_percent :
    (c : ℕ) (k : Text)
    → (not (is_unreserved c) || has_percent k) ≡ true
    → has_percent (encode_point c k) ≡ true
unfolding encode_point percent
encode_point-has_percent c k h = elim (Bool-cases (is_unreserved c)) [
  | inl kept ↦ rw kept (ground arith)
  | inr other ↦ let (b, bs, e) = utf8-nonempty c in rw other (rw e refl)
]

encode_points-has_percent :
    (ps : List ℕ)
    → any (λ c. not (is_unreserved c)) ps ≡ true
    → has_percent (encode_points ps) ≡ true
unfolding encode_points
encode_points-has_percent [] h = cc
encode_points-has_percent (p ∷ ps) h =
    encode_point-has_percent p (encode_points ps) (ground (arith, encode_points-has_percent ps))

join-reserved : (c d : ℕ) → is_unreserved (join_surrogates c d) ≡ false
unfolding is_unreserved
join-reserved c d = ground arith

code_points-escaped :
    (s : Text) {ps : List ℕ}
    → code_points s ≡ some ps
    → any is_escaped s ≡ true
    → any (λ c. not (is_unreserved c)) ps ≡ true
unfolding code_points
code_points-escaped [] e h = cc
code_points-escaped (c ∷ []) e h = ground arith
code_points-escaped (c ∷ d ∷ s) {ps} e h =
    elim (Bool-cases (is_high_surrogate c && is_low_surrogate d)) [
      | inl pair ↦
          let (qs, rest, whole) = (Option.map-eq-some_iff _ _).0 (rw pair at e) in
          rw (← whole) (rw (join-reserved c d) refl)
      | inr single ↦
          let (qs, rest, whole) = map-cons-some c (code_points (d ∷ s)) {ps = ps} (ground arith) in
          rw (← whole) (ground (arith, code_points-escaped (d ∷ s) rest))
    ]

replace_surrogates-escaped :
    (s : Text) → any is_escaped s ≡ true → any is_escaped (replace_surrogates s) ≡ true
unfolding replace_surrogates
replace_surrogates-escaped [] h = cc
replace_surrogates-escaped (c ∷ s) h = ground (arith, replace_surrogates-escaped s)

uri-has_percent :
    (s : Text) {e : Text}
    → encode_uri_component s ≡ some e
    → any is_escaped s ≡ true
    → has_percent e ≡ true
unfolding encode_uri_component
uri-has_percent s p h =
    let (ps, points, same) = (Option.map-eq-some_iff _ _).0 p in
    rw (← same) (encode_points-has_percent ps (code_points-escaped s points h))

-- A text with a unit to escape is encoded to one with a `%`.
pub encode-has_percent : (s : Text) → any is_escaped s ≡ true → has_percent (encode s) ≡ true
encode-has_percent s h = elim (encode_cases s) [
  | inl done ↦ uri-has_percent s done h
  | inr (_, done) ↦ uri-has_percent (replace_surrogates s) done (replace_surrogates-escaped s h)
]
