-- ===== src/Json/Parse.antt =====
-- `JSON.parse` on compact text.
use plugin_rest_cache.Prelude.{
  ℕ, zero, suc, ◌+◌, ◌-◌, ◌*◌, ◌&&◌, ◌||◌, [], ◌∷◌, Option, none, some, ltb, leb, ◌==◌,
  if◌then◌else◌, Text, lit, length, drop, starts_with,
}
use plugin_rest_cache.Json.{
  Json, null, bool, num, str, arr, obj, Items, nil, cons, Fields, end, field,
}
use mathlib.Core.Bool.{Bool, true, false}

infixl 5 ◌>>=◌
abbrev pub ◌>>=◌ {ℓ κ} : {A : Type ℓ} {B : Type κ} → Option A → (A → Option B) → Option B
none >>= k = none
some a >>= k = k a

pub data Mode : Type 0 where
  plain : Mode
  escape : Mode
  hex : ℕ → ℕ → Mode

abbrev pub hex_value : ℕ → Option ℕ
hex_value c =
    if leb b'0' c && leb c b'9'
    then some (c - b'0')
    else if leb b'a' c && leb c b'f'
    then some (c - 87)
    else if leb b'A' c && leb c b'F'
    then some (c - 55)
    else none

unfoldable pub unescape : ℕ → Option ℕ
unescape c =
    if c == 34 || c == 92 || c == b'/'
    then some c
    else if c == b'b'
    then some 8
    else if c == b'f'
    then some 12
    else if c == b'n'
    then some 10
    else if c == b'r'
    then some 13
    else if c == b't'
    then some 9
    else none

abbrev pub push : ℕ → Option (Text × Text) → Option (Text × Text)
push c none = none
push c (some (s, r)) = some (c ∷ s, r)

-- The string up to its closing quote, and what follows. `hex n a` waits for n + 1 more digits.
unfoldable pub string_from : Mode → Text → Option (Text × Text)
string_from m [] = none
string_from plain (c ∷ s) =
    let escaped = string_from escape s in
    let next = push c (string_from plain s) in
    if c == 34 then some ([], s) else if c == 92 then escaped else if ltb c 32 then none else next
string_from escape (c ∷ s) =
    let digits = string_from (hex 3 0) s in
    let short = λ (x : ℕ). push x (string_from plain s) in
    if c == b'u' then digits else elim (unescape c) [ none ↦ none | some x ↦ short x ]
string_from (hex zero a) (c ∷ s) = elim (hex_value c) [
  | none ↦ none
  | some d ↦ push (a * 16 + d) (string_from plain s)
]
string_from (hex (suc n) a) (c ∷ s) = elim (hex_value c) [
  | none ↦ none
  | some d ↦ string_from (hex n (a * 16 + d)) s
]

abbrev pub is_num : ℕ → Bool
is_num c =
    (leb b'0' c && leb c b'9') || c == b'-' || c == b'+' || c == b'.' || c == b'e' || c == b'E'

-- The longest number token at the front, and what follows.
unfoldable pub number_from : Text → Text × Text
number_from [] = ([], [])
number_from (c ∷ s) = let (t, r) = number_from s in if is_num c then (c ∷ t, r) else ([], c ∷ s)

abbrev pub num_of : Text × Text → Option (Json × Text)
num_of ([], r) = none
num_of (c ∷ t, r) = some (num (c ∷ t), r)

-- A value that starts with none of `{ [ "`.
unfoldable pub scalar_from : Text → Option (Json × Text)
scalar_from s =
    if starts_with s (lit "null")
    then some (null, drop 4 s)
    else if starts_with s (lit "true")
    then some (bool true, drop 4 s)
    else if starts_with s (lit "false")
    then some (bool false, drop 5 s)
    else num_of (number_from s)

abbrev pub after_colon : Text → Option Text
after_colon [] = none
after_colon (c ∷ s) = if c == b':' then some s else none

unfoldable mutual
  pub parse_value : ℕ → Text → Option (Json × Text)
  parse_value zero s = none
  parse_value (suc f) [] = none
  parse_value (suc f) (c ∷ s) =
      let string = string_from plain s >>= λ p. some (str p.0, p.1) in
      let array = parse_array f s in
      let object = parse_object f s in
      if c == 34
      then string
      else if c == b'['
      then array
      else if c == b'{'
      then object
      else scalar_from (c ∷ s)

  pub parse_array : ℕ → Text → Option (Json × Text)
  parse_array zero s = none
  parse_array (suc f) [] = none
  parse_array (suc f) (c ∷ s) =
      let items =
        parse_value f (c ∷ s) >>= λ p. parse_items f p.1 >>= λ q. some (arr (cons p.0 q.0), q.1) in
      if c == b']' then some (arr nil, s) else items

  pub parse_items : ℕ → Text → Option (Items × Text)
  parse_items zero s = none
  parse_items (suc f) [] = none
  parse_items (suc f) (c ∷ s) =
      let more = parse_value f s >>= λ p. parse_items f p.1 >>= λ q. some (cons p.0 q.0, q.1) in
      if c == b']' then some (nil, s) else if c == b',' then more else none

  pub parse_object : ℕ → Text → Option (Json × Text)
  parse_object zero s = none
  parse_object (suc f) [] = none
  parse_object (suc f) (c ∷ s) =
      let fields = parse_field f (c ∷ s) >>= λ p. some (obj p.0, p.1) in
      if c == b'}' then some (obj end, s) else fields

  -- `"name":value`, then the fields after it.
  pub parse_field : ℕ → Text → Option (Fields × Text)
  parse_field zero s = none
  parse_field (suc f) [] = none
  parse_field (suc f) (c ∷ s) =
      let named = string_from plain s >>= λ n. after_colon n.1 >>= λ r.
      parse_value f r >>= λ p. parse_fields f p.1 >>= λ q. some (field n.0 p.0 q.0, q.1) in
      if c == 34 then named else none

  pub parse_fields : ℕ → Text → Option (Fields × Text)
  parse_fields zero s = none
  parse_fields (suc f) [] = none
  parse_fields (suc f) (c ∷ s) =
      let more = parse_field f s in
      if c == b'}' then some (end, s) else if c == b',' then more else none

abbrev pub whole : Option (Json × Text) → Option Json
whole none = none
whole (some (v, [])) = some v
whole (some (v, _ ∷ _)) = none

-- `JSON.parse(s)`; `none` is its SyntaxError. Each call reads a unit or hands on to a call that
-- does, so three rounds for each unit are enough.
unfoldable pub parse : Text → Option Json
unfolding parse_value scalar_from number_from string_from unescape
parse s = whole (parse_value (3 * suc (length s)) s)
