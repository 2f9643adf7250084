-- ===== src/Keys/Escape/Printed.antt =====
-- The JSON of an escaped nested value: free of `&` and `=`, opened by a bracket, and read back.
use mathlib.Core.Path.{subst}
use plugin_rest_cache.Prelude.{
  ℕ, ◌/◌, ◌%◌, ◌<◌, ◌≡◌, refl, sym, [], ◌∷◌, true, false, ◌&&◌, ◌||◌, some, Text, All, All-append,
  arith, ltb, Bool-cases, Option-cases, inl, inr,
}
use plugin_rest_cache.Json.{
  Json, null, bool, num, str, arr, obj, Items, nil, cons, Fields, end, field, quote_unit, quote,
  short_escape, hex_digit, unicode_escape, print, print_items, print_fields, stringify,
  is_high_surrogate, is_low_surrogate, is_surrogate,
}
use plugin_rest_cache.Json.Parse.{is_num}
use plugin_rest_cache.Json.Cost.{IsPrintable, ArePrintable, ArePrintableFields}
use plugin_rest_cache.Json.RoundTrip.{parse-stringify}
use plugin_rest_cache.Keys.Escape.{escape_key_json, escape_items, escape_fields, opens_json}
use plugin_rest_cache.Keys.Escape.Scalars.{FreeOf, is_strict, escape_key_value-FreeOf}
use plugin_rest_cache.Keys.Escape.Nested.{
  IsQueryValue, AreQueryValues, AreQueryFields, escape_key_json-obj, escape_key_json-injective,
}

-- Every string in the value is free of `&` and `=`.
abbrev mutual
  pub IsStrict : Json → Type 0
  IsStrict null = Unit
  IsStrict (bool b) = Unit
  IsStrict (num t) = FreeOf is_strict t
  IsStrict (str s) = FreeOf is_strict s
  IsStrict (arr vs) = AreStrict vs
  IsStrict (obj fs) = AreStrictFields fs

  pub AreStrict : Items → Type 0
  AreStrict nil = Unit
  AreStrict (cons v vs) = IsStrict v × AreStrict vs

  pub AreStrictFields : Fields → Type 0
  AreStrictFields end = Unit
  AreStrictFields (field k v fs) = FreeOf is_strict k × IsStrict v × AreStrictFields fs

hex_digit-strict : (d : ℕ) → d < 16 → is_strict (hex_digit d) ≡ false
unfolding hex_digit
hex_digit-strict d h = ground arith

short_escape-strict : (c e : ℕ) → short_escape c ≡ some e → is_strict e ≡ false
unfolding short_escape
short_escape-strict c e h = ground arith

unicode_escape-strict :
    (c : ℕ) (k : Text) → FreeOf is_strict k → FreeOf is_strict (unicode_escape c k)
unicode_escape-strict c k h = (
  refl,
  (
    refl,
    (
      hex_digit-strict (c / 4096 % 16) (omega arith),
      (
        hex_digit-strict (c / 256 % 16) (omega arith),
        (
          hex_digit-strict (c / 16 % 16) (omega arith),
          (hex_digit-strict (c % 16) (omega arith), h),
        ),
      ),
    ),
  ),
)

quote_unit-strict :
    (c : ℕ) (k : Text)
    → is_strict c ≡ false
    → FreeOf is_strict k
    → FreeOf is_strict (quote_unit c k)
unfolding quote_unit
quote_unit-strict c k here h = elim (Option-cases (short_escape c)) [
  | inl long ↦ elim (Bool-cases (ltb c 32 || is_surrogate c)) [
    | inl code ↦ rw (long, quote_unit) (rw code (unicode_escape-strict c k h))
    | inr raw ↦ rw (long, quote_unit) (rw raw (here, h))
  ]
  | inr (e, short) ↦ rw (short, quote_unit) (refl, (short_escape-strict c e short, h))
]

quote-strict : (s k : Text) → FreeOf is_strict s → FreeOf is_strict k → FreeOf is_strict (quote s k)
unfolding quote
quote-strict [] k h hk = hk
quote-strict (c ∷ []) k h hk = quote_unit-strict c k h.0 hk
quote-strict (c ∷ d ∷ s) k h hk = elim (Bool-cases (is_high_surrogate c && is_low_surrogate d)) [
  | inl pair ↦ rw pair (h.0, (h.1.0, quote-strict s k h.1.1 hk))
  | inr single ↦ rw single (quote_unit-strict c _ h.0 (quote-strict (d ∷ s) k h.1 hk))
]

mutual
  unfolding print

  print-strict :
      (v : Json) (k : Text) → IsStrict v → FreeOf is_strict k → FreeOf is_strict (print v k)
  print-strict null k h hk = (refl, (refl, (refl, (refl, hk))))
  print-strict (bool true) k h hk = (refl, (refl, (refl, (refl, hk))))
  print-strict (bool false) k h hk = (refl, (refl, (refl, (refl, (refl, hk)))))
  print-strict (num t) k h hk = All-append (λ c. is_strict c ≡ false) t k h hk
  print-strict (str s) k h hk = (refl, quote-strict s (34 ∷ k) h (refl, hk))
  print-strict (arr nil) k h hk = (refl, (refl, hk))
  print-strict (arr (cons v vs)) k h hk =
      (refl, print-strict v (print_items vs k) h.0 (items-strict vs k h.1 hk))
  print-strict (obj end) k h hk = (refl, (refl, hk))
  print-strict (obj (field n v fs)) k h hk = (
    refl,
    (
      refl,
      quote-strict n _ h.0
          (refl, (refl, print-strict v (print_fields fs k) h.1 (fields-strict fs k h.2 hk))),
    ),
  )

  items-strict :
      (vs : Items) (k : Text)
      → AreStrict vs
      → FreeOf is_strict k
      → FreeOf is_strict (print_items vs k)
  items-strict nil k h hk = (refl, hk)
  items-strict (cons v vs) k h hk =
      (refl, print-strict v (print_items vs k) h.0 (items-strict vs k h.1 hk))

  fields-strict :
      (fs : Fields) (k : Text)
      → AreStrictFields fs
      → FreeOf is_strict k
      → FreeOf is_strict (print_fields fs k)
  fields-strict end k h hk = (refl, hk)
  fields-strict (field n v fs) k h hk = (
    refl,
    (
      refl,
      quote-strict n _ h.0
          (refl, (refl, print-strict v (print_fields fs k) h.1 (fields-strict fs k h.2 hk))),
    ),
  )

num-strict : (t : Text) → All (λ c. is_num c ≡ true) t → FreeOf is_strict t
num-strict [] h = tt
num-strict (c ∷ t) (h, hs) = (num_unit-strict c h, num-strict t hs)
  where
    num_unit-strict : (c : ℕ) → is_num c ≡ true → is_strict c ≡ false
    num_unit-strict c h = ground arith

mutual
  unfolding escape_key_json

  escaped-IsStrict : (v : Json) → IsQueryValue v → IsStrict (escape_key_json v)
  escaped-IsStrict null h = tt
  escaped-IsStrict (bool b) h = tt
  escaped-IsStrict (num t) h = num-strict t h.1
  escaped-IsStrict (str s) h = escape_key_value-FreeOf s h.0
  escaped-IsStrict (arr vs) h = escaped_items-strict vs h
  escaped-IsStrict (obj fs) h =
      subst IsStrict (sym (escape_key_json-obj fs h)) (escaped_fields-strict fs h.1)

  escaped_items-strict : (vs : Items) → AreQueryValues vs → AreStrict (escape_items vs)
  escaped_items-strict nil h = tt
  escaped_items-strict (cons v vs) h = (escaped-IsStrict v h.0, escaped_items-strict vs h.1)

  escaped_fields-strict : (fs : Fields) → AreQueryFields fs → AreStrictFields (escape_fields fs)
  escaped_fields-strict end h = tt
  escaped_fields-strict (field k v fs) h =
      (escape_key_value-FreeOf k h.0.0, escaped-IsStrict v h.1, escaped_fields-strict fs h.2)

mutual
  unfolding escape_key_json

  escaped-IsPrintable : (v : Json) → IsQueryValue v → IsPrintable (escape_key_json v)
  escaped-IsPrintable null h = tt
  escaped-IsPrintable (bool b) h = tt
  escaped-IsPrintable (num t) h = h
  escaped-IsPrintable (str s) h = tt
  escaped-IsPrintable (arr vs) h = escaped_items-printable vs h
  escaped-IsPrintable (obj fs) h =
      subst IsPrintable (sym (escape_key_json-obj fs h)) (escaped_fields-printable fs h.1)

  escaped_items-printable : (vs : Items) → AreQueryValues vs → ArePrintable (escape_items vs)
  escaped_items-printable nil h = tt
  escaped_items-printable (cons v vs) h =
      (escaped-IsPrintable v h.0, escaped_items-printable vs h.1)

  escaped_fields-printable :
      (fs : Fields) → AreQueryFields fs → ArePrintableFields (escape_fields fs)
  escaped_fields-printable end h = tt
  escaped_fields-printable (field k v fs) h =
      (escaped-IsPrintable v h.1, escaped_fields-printable fs h.2)

-- The text of a nested value in the key.
abbrev pub nested_text : Json → Text
nested_text v = stringify (escape_key_json v)

pub nested_text-FreeOf : (v : Json) → IsQueryValue v → FreeOf is_strict (nested_text v)
unfolding stringify
nested_text-FreeOf v h = print-strict (escape_key_json v) [] (escaped-IsStrict v h) tt

-- Different nested values have different texts.
pub nested_text-injective :
    (v w : Json) → IsQueryValue v → IsQueryValue w → nested_text v ≡ nested_text w → v ≡ w
nested_text-injective v w h k e =
    let here = parse-stringify (escape_key_json v) (escaped-IsPrintable v h) in
    let there = parse-stringify (escape_key_json w) (escaped-IsPrintable w k) in
    escape_key_json-injective v w h k (cc (here, there, e))

-- The text of an array or an object starts with a bracket.
pub nested_text-opens_arr : (vs : Items) → opens_json (nested_text (arr vs)) ≡ true
unfolding stringify opens_json escape_key_json
nested_text-opens_arr nil = refl
nested_text-opens_arr (cons v vs) = refl

pub nested_text-opens_obj :
    (fs : Fields) → IsQueryValue (obj fs) → opens_json (nested_text (obj fs)) ≡ true
unfolding stringify opens_json escape_fields
nested_text-opens_obj end h = rw (escape_key_json-obj end h) refl
nested_text-opens_obj (field k v fs) h = rw (escape_key_json-obj (field k v fs) h) refl
