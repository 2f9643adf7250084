-- ===== src/Json.antt =====
-- `JSON.stringify` and `JSON.parse`, as far as the plugin uses them: compact output, objects as
-- field lists in insertion order, a number as the token that `JSON.stringify` prints for it.
pub mod Parse
pub mod Strings
pub mod Cost
pub mod RoundTrip
use plugin_rest_cache.Prelude.{
  ℕ, ◌+◌, ◌/◌, ◌%◌, Bool, true, false, ◌&&◌, ◌||◌, [], ◌∷◌, ◌++◌, Option, none, some, ltb, leb,
  ◌==◌, if◌then◌else◌, Text, lit,
}

mutual
  pub data Json : Type 0 where
    null : Json
    bool : Bool → Json
    num : Text → Json
    str : Text → Json
    arr : Items → Json
    obj : Fields → Json

  pub data Items : Type 0 where
    nil : Items
    cons : Json → Items → Items

  pub data Fields : Type 0 where
    end : Fields
    field : Text → Json → Fields → Fields

abbrev pub is_high_surrogate : ℕ → Bool
is_high_surrogate c = leb 0xd800 c && leb c 0xdbff

abbrev pub is_low_surrogate : ℕ → Bool
is_low_surrogate c = leb 0xdc00 c && leb c 0xdfff

abbrev pub is_surrogate : ℕ → Bool
is_surrogate c = leb 0xd800 c && leb c 0xdfff

-- A hexadecimal digit, in lower case.
unfoldable pub hex_digit : ℕ → ℕ
hex_digit d = if ltb d 10 then b'0' + d else 87 + d

abbrev pub unicode_escape : ℕ → Text → Text
unicode_escape c k =
    b'\\'
    ∷ b'u'
    ∷ hex_digit (c / 4096 % 16)
    ∷ hex_digit (c / 256 % 16)
    ∷ hex_digit (c / 16 % 16)
    ∷ hex_digit (c % 16)
    ∷ k

-- The letter of a two-unit escape.
unfoldable pub short_escape : ℕ → Option ℕ
short_escape c =
    if c == 34 || c == 92
    then some c
    else if c == 8
    then some b'b'
    else if c == 12
    then some b'f'
    else if c == 10
    then some b'n'
    else if c == 13
    then some b'r'
    else if c == 9
    then some b't'
    else none

-- One unit of a quoted string, followed by `k`.
unfoldable pub quote_unit : ℕ → Text → Text
unfolding short_escape
quote_unit c k = elim (short_escape c) [
  | some e ↦ b'\\' ∷ e ∷ k
  | none ↦ if ltb c 32 || is_surrogate c then unicode_escape c k else c ∷ k
]

-- The inside of a quoted string, followed by `k`; a surrogate pair stays as it is.
unfoldable pub quote : Text → Text → Text
quote [] k = k
quote (c ∷ []) k = quote_unit c k
quote (c ∷ d ∷ s) k =
    let pair = c ∷ d ∷ quote s k in
    let single = quote_unit c (quote (d ∷ s) k) in
    if is_high_surrogate c && is_low_surrogate d then pair else single

-- The text of a value, followed by `k`.
unfoldable mutual
  pub print : Json → Text → Text
  print null k = lit "null" ++ k
  print (bool true) k = lit "true" ++ k
  print (bool false) k = lit "false" ++ k
  print (num t) k = t ++ k
  print (str s) k = 34 ∷ quote s (34 ∷ k)
  print (arr nil) k = b'[' ∷ b']' ∷ k
  print (arr (cons v vs)) k = b'[' ∷ print v (print_items vs k)
  print (obj end) k = b'{' ∷ b'}' ∷ k
  print (obj (field n v fs)) k = b'{' ∷ 34 ∷ quote n (34 ∷ b':' ∷ print v (print_fields fs k))

  pub print_items : Items → Text → Text
  print_items nil k = b']' ∷ k
  print_items (cons v vs) k = b',' ∷ print v (print_items vs k)

  pub print_fields : Fields → Text → Text
  print_fields end k = b'}' ∷ k
  print_fields (field n v fs) k = b',' ∷ 34 ∷ quote n (34 ∷ b':' ∷ print v (print_fields fs k))

-- `JSON.stringify(v)`.
unfoldable pub stringify : Json → Text
unfolding print quote quote_unit hex_digit
stringify v = print v []
