-- ===== src/Keys/Escape/Scalars.antt =====
-- Names and values of a key part: what they cannot contain, and that they are told apart.
use mathlib.Core.Option
use plugin_rest_cache.Prelude.{
  ℕ, ◌≡◌, ◌≢◌, refl, ap, sym, ◌∙◌, List, [], ◌∷◌, Bool, true, false, ◌||◌, Option, some, none,
  arith, ◌==◌, Text, All, any, inl, inr, Bool-cases, if◌then◌else◌,
}
use plugin_rest_cache.Uri.{
  code_points, utf8, percent, is_unreserved, encode_point, encode_points, encode_uri_component,
}
use plugin_rest_cache.Uri.Points.{IsUtf16}
use plugin_rest_cache.Uri.Inject.{encode_uri_component-injective}
use plugin_rest_cache.Keys.Escape.{
  is_value_mark, is_name_mark, opens_json, value_structure, name_structure, encode, escape_key_name,
  escape_key_value, key_null,
}
use plugin_rest_cache.Keys.Escape.Alphabet.{
  is_encoded, AllEncoded, encode-AllEncoded, has_percent, is_escaped, encode-has_percent,
  encode_cases,
}

-- No unit of the text passes the test.
abbrev pub FreeOf : (ℕ → Bool) → Text → Type 0
FreeOf p = All (λ c. p c ≡ false)

FreeOf-of_any : (p : ℕ → Bool) (s : Text) → any p s ≡ false → FreeOf p s
FreeOf-of_any p [] h = tt
FreeOf-of_any p (c ∷ s) h = (ground arith, FreeOf-of_any p s (ground arith))

-- `&`, `,` and `=`.
abbrev pub is_separator : ℕ → Bool
is_separator c = c == b'&' || c == b',' || c == b'='

-- `&` and `=`.
abbrev pub is_strict : ℕ → Bool
is_strict c = c == b'&' || c == b'='

encoded_not_separator : (c : ℕ) → is_encoded c ≡ true → is_separator c ≡ false
unfolding is_unreserved
encoded_not_separator c h = ground arith

AllEncoded-separator : (s : Text) → AllEncoded s → FreeOf is_separator s
AllEncoded-separator [] h = tt
AllEncoded-separator (c ∷ s) (h, hs) = (encoded_not_separator c h, AllEncoded-separator s hs)

separator-strict : (s : Text) → FreeOf is_separator s → FreeOf is_strict s
separator-strict [] h = tt
separator-strict (c ∷ s) (h, hs) = (ground arith, separator-strict s hs)

name_marks : (s : Text) → any is_name_mark s ≡ false → FreeOf is_separator s
name_marks [] h = tt
name_marks (c ∷ s) h = (ground arith, name_marks s (ground arith))

value_marks : (s : Text) → any is_value_mark s ≡ false → FreeOf is_strict s
value_marks [] h = tt
value_marks (c ∷ s) h = (ground arith, value_marks s (ground arith))

-- A name holds none of `&`, `,` and `=`, so none can pose as a second pair or as a boundary.
pub escape_key_name-FreeOf : (s : Text) → IsUtf16 s → FreeOf is_separator (escape_key_name s)
unfolding escape_key_name name_structure
escape_key_name-FreeOf s h = elim (Bool-cases (name_structure s)) [
  | inl marked ↦ rw (marked, escape_key_name) (AllEncoded-separator _ (encode-AllEncoded s h))
  | inr free ↦ rw (free, escape_key_name) (name_marks s (ground arith))
]

-- A value holds neither `&` nor `=`.
pub escape_key_value-FreeOf : (s : Text) → IsUtf16 s → FreeOf is_strict (escape_key_value s)
unfolding escape_key_value value_structure
escape_key_value-FreeOf s h = elim (Bool-cases (value_structure s)) [
  | inl marked ↦
      rw (marked, escape_key_value)
        (separator-strict _ (AllEncoded-separator _ (encode-AllEncoded s h)))
  | inr free ↦ rw (free, escape_key_value) (value_marks s (ground arith))
]

opens-escaped : (s : Text) → opens_json s ≡ true → any is_escaped s ≡ true
unfolding opens_json is_unreserved
opens-escaped [] h = cc
opens-escaped (c ∷ s) h = ground arith

marks-escaped : (s : Text) → any is_name_mark s ≡ true → any is_escaped s ≡ true
unfolding is_unreserved
marks-escaped [] h = cc
marks-escaped (c ∷ s) h = ground (arith, marks-escaped s)

value_mark-name_mark : (s : Text) → any is_value_mark s ≡ true → any is_name_mark s ≡ true
value_mark-name_mark [] h = cc
value_mark-name_mark (c ∷ s) h = ground (arith, value_mark-name_mark s)

name_structure-escaped : (s : Text) → name_structure s ≡ true → any is_escaped s ≡ true
unfolding name_structure
name_structure-escaped s h = ground (arith, opens-escaped s, marks-escaped s)

value_structure-escaped : (s : Text) → value_structure s ≡ true → any is_escaped s ≡ true
unfolding value_structure
value_structure-escaped s h =
    ground (arith, opens-escaped s, marks-escaped s, value_mark-name_mark s)

percent_name : (s : Text) → any is_name_mark s ≡ false → has_percent s ≡ false
percent_name [] h = refl
percent_name (c ∷ s) h = ground (arith, percent_name s)

percent_value : (s : Text) → any is_value_mark s ≡ false → has_percent s ≡ false
percent_value [] h = refl
percent_value (c ∷ s) h = ground (arith, percent_value s)

-- A text that `encodeURIComponent` accepts: every surrogate in it stands in a pair.
abbrev pub IsWellFormed : Text → Type 0
IsWellFormed s = IsUtf16 s × (code_points s ≢ none)

map-eq-none : (o : Option (List ℕ)) → Option.map encode_points o ≡ none → o ≡ none
map-eq-none none e = refl
map-eq-none (some a) e = cc

thrown_points : (u : Text) → encode_uri_component u ≡ none → code_points u ≡ none
unfolding encode_uri_component
thrown_points u e = map-eq-none (code_points u) e

encode-injective : (s t : Text) → IsWellFormed s → IsWellFormed t → encode s ≡ encode t → s ≡ t
encode-injective s t (h, p) (k, q) e =
    encode_uri_component-injective s t h k (encoded s p) (encoded t q ∙ ap some (sym e))
  where
    encoded : (u : Text) → code_points u ≢ none → encode_uri_component u ≡ some (encode u)
    encoded u w = elim (encode_cases u) [
      | inl done ↦ done
      | inr (thrown, _) ↦ absurd (w (thrown_points u thrown))
    ]

percent_apart : (s t : Text) → has_percent s ≡ false → has_percent t ≡ true → s ≡ t → ⊥
percent_apart s t h k e = cc (ap has_percent e)

module _ (structure : Text → Bool)
    (marked : (s : Text) → structure s ≡ true → any is_escaped s ≡ true)
    (unmarked : (s : Text) → structure s ≡ false → has_percent s ≡ false) where
  abbrev escape_if : Text → Text
  escape_if s = if structure s then encode s else s

  escape_if-raw :
      (s t : Text) → structure s ≡ false → structure t ≡ true → escape_if s ≡ escape_if t → ⊥
  escape_if-raw s t raw enc e =
      percent_apart s (encode t) (unmarked s raw) (encode-has_percent t (marked t enc))
        (rw (raw, enc) at e)

  escape_if-injective :
      (s t : Text) → IsWellFormed s → IsWellFormed t → escape_if s ≡ escape_if t → s ≡ t
  escape_if-injective s t h k e = elim (Bool-cases (structure s)) [
    | inl a ↦ elim (Bool-cases (structure t)) [
      | inl b ↦ encode-injective s t h k (rw (a, b) at e)
      | inr b ↦ absurd (escape_if-raw t s b a (sym e))
    ]
    | inr a ↦ elim (Bool-cases (structure t)) [
      | inl b ↦ absurd (escape_if-raw s t a b e)
      | inr b ↦ rw (a, b) at e
    ]
  ]

name_unmarked : (s : Text) → name_structure s ≡ false → has_percent s ≡ false
unfolding name_structure
name_unmarked s h = percent_name s (ground arith)

value_unmarked : (s : Text) → value_structure s ≡ false → has_percent s ≡ false
unfolding value_structure
value_unmarked s h = percent_value s (ground arith)

-- Two names are escaped alike only if they are equal.
pub escape_key_name-injective :
    (s t : Text) → IsWellFormed s → IsWellFormed t → escape_key_name s ≡ escape_key_name t → s ≡ t
unfolding escape_key_name
escape_key_name-injective s t h k e =
    escape_if-injective name_structure name_structure-escaped name_unmarked s t h k e

-- Two well-formed texts that are escaped to one value of a key are equal.
pub escape_key_value-injective :
    (s t : Text) → IsWellFormed s → IsWellFormed t → escape_key_value s ≡ escape_key_value t → s ≡ t
unfolding escape_key_value
escape_key_value-injective s t h k e =
    escape_if-injective value_structure value_structure-escaped value_unmarked s t h k e

encoded_opens : (s : Text) → AllEncoded s → opens_json s ≡ false
unfolding opens_json is_unreserved
encoded_opens [] h = refl
encoded_opens (c ∷ s) h = ground arith

-- An escaped value never starts like the JSON of an object or an array.
pub escape_key_value-opens : (s : Text) → IsUtf16 s → opens_json (escape_key_value s) ≡ false
unfolding escape_key_value value_structure
escape_key_value-opens s h = elim (Bool-cases (value_structure s)) [
  | inl structured ↦ rw (structured, escape_key_value) (encoded_opens _ (encode-AllEncoded s h))
  | inr raw ↦ rw (raw, escape_key_value) (ground arith)
]

encode_points-key_null : (ps : List ℕ) → encode_points ps ≢ key_null
unfolding encode_points encode_point percent is_unreserved utf8
encode_points-key_null [] e = cc
encode_points-key_null (p ∷ ps) e = ground arith

uri-key_null : (s : Text) → encode_uri_component s ≢ some key_null
unfolding encode_uri_component
uri-key_null s e =
    let (ps, points, same) = (Option.map-eq-some_iff _ _).0 e in encode_points-key_null ps same

-- No value is escaped to the key of a null.
pub escape_key_value-key_null : (s : Text) → escape_key_value s ≢ key_null
unfolding escape_key_value
escape_key_value-key_null s e = elim (Bool-cases (value_structure s)) [
  | inl structured ↦ elim (encode_cases s) [
    | inl done ↦ uri-key_null s (done ∙ ap some (rw structured at e))
    | inr (_, done) ↦ uri-key_null _ (done ∙ ap some (rw structured at e))
  ]
  | inr raw ↦ cc (ap has_percent (rw raw at e), value_unmarked s raw)
]
