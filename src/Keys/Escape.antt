-- ===== src/Keys/Escape.antt =====
-- packages/plugin-rest-cache/server/src/utils/keys/escapeKeyPart.ts
pub mod Alphabet
pub mod Scalars
pub mod Entries
pub mod Nested
pub mod Printed
use mathlib.Core.Option
use plugin_rest_cache.Prelude.{
  ℕ, Bool, false, ◌||◌, [], ◌∷◌, map, Option, some, none, ◌==◌, if◌then◌else◌, any, Text, text_eq,
}
use plugin_rest_cache.Json.{
  Json, null, bool, num, str, arr, obj, Items, nil, cons, Fields, end, field, is_surrogate,
}
use plugin_rest_cache.Uri.{encode_uri_component}

-- `KEY_NULL`, a lone `%`.
abbrev pub key_null : Text
key_null = b'%' ∷ []

-- `[%&=]`
abbrev pub is_value_mark : ℕ → Bool
is_value_mark c = c == b'%' || c == b'&' || c == b'='

-- `[%&,=]`
abbrev pub is_name_mark : ℕ → Bool
is_name_mark c = is_value_mark c || c == b','

-- `^[{["]`
unfoldable pub opens_json : Text → Bool
opens_json [] = false
opens_json (c ∷ s) = c == b'{' || c == b'[' || c == 34

-- `VALUE_STRUCTURE.test(s)`
unfoldable pub value_structure : Text → Bool
unfolding opens_json
value_structure s = any is_value_mark s || opens_json s

-- `NAME_STRUCTURE.test(s)`
unfoldable pub name_structure : Text → Bool
unfolding opens_json
name_structure s = any is_name_mark s || opens_json s

-- `s.replace(/[\uD800-\uDFFF]/g, '\uFFFD')`: every surrogate unit, paired ones too.
unfoldable pub replace_surrogates : Text → Text
replace_surrogates = map (λ c. if is_surrogate c then 0xfffd else c)

-- The `catch` branch. Its own call finds no surrogate left, so the last value is never taken.
unfoldable pub encode : Text → Text
unfolding replace_surrogates
encode s = elim (encode_uri_component s) [
  | some e ↦ e
  | none ↦ Option.get_or (encode_uri_component (replace_surrogates s)) []
]

unfoldable pub escape_key_name : Text → Text
unfolding name_structure encode
escape_key_name name = if name_structure name then encode name else name

unfoldable pub escape_key_value : Text → Text
unfolding value_structure encode
escape_key_value value = if value_structure value then encode value else value

-- One assignment of `Object.fromEntries`: a name that is there keeps its place.
unfoldable pub assign : Text → Json → Fields → Fields
assign k v end = field k v end
assign k v (field j w fs) = if text_eq j k then field j v fs else field j w (assign k v fs)

-- `Object.fromEntries` over the entries, in order.
unfoldable pub from_entries : Fields → Fields → Fields
unfolding assign
from_entries acc end = acc
from_entries acc (field k v fs) = from_entries (assign k v acc) fs

unfoldable mutual
  pub escape_key_json : Json → Json
  escape_key_json (str s) = str (escape_key_value s)
  escape_key_json (arr vs) = arr (escape_items vs)
  escape_key_json (obj fs) = obj (from_entries end (escape_fields fs))
  escape_key_json null = null
  escape_key_json (bool b) = bool b
  escape_key_json (num t) = num t

  pub escape_items : Items → Items
  escape_items nil = nil
  escape_items (cons v vs) = cons (escape_key_json v) (escape_items vs)

  pub escape_fields : Fields → Fields
  escape_fields end = end
  escape_fields (field k v fs) = field (escape_key_value k) (escape_key_json v) (escape_fields fs)
