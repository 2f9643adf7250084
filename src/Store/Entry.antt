-- ===== src/Store/Entry.antt =====
-- packages/plugin-rest-cache/server/src/utils/store/{serialize,deserialize}.ts
use plugin_rest_cache.Prelude.{[], ◌∷◌, Option, none, some, Text, lit, text_eq, if◌then◌else◌}
use plugin_rest_cache.Outcome.{Outcome, resolved, rejected}
use plugin_rest_cache.Json.{Json, null, str, obj, Fields, end, field, stringify}
use plugin_rest_cache.Json.Parse.{parse}

pub record CacheEntryMeta : Type 0 where
  pub type : Option Text

-- A stored response; `data` is missing if the stored object had none.
pub record CacheEntry : Type 0 where
  pub data' : Option Json
  pub type : Option Text

-- The value of `type` that is kept: present and not empty.
unfoldable pub kept_type : Option Text → Option Text
kept_type none = none
kept_type (some []) = none
kept_type (some (c ∷ t)) = some (c ∷ t)

unfoldable pub serialize : Json → CacheEntryMeta → Text
unfolding kept_type
serialize value meta = elim (kept_type meta.type) [
  | some type ↦ stringify (obj (field (lit "data") value (field (lit "type") (str type) end)))
  | none ↦ stringify (obj (field (lit "data") value end))
]

-- A property of a parsed object; the last of two fields with one name counts.
unfoldable pub property : Text → Fields → Option Json
property k end = none
property k (field j v fs) = elim (property k fs) [
  | some w ↦ some w
  | none ↦ if text_eq j k then some v else none
]

-- `typeof type === 'string' && type !== ''`
unfoldable pub string_type : Option Json → Option Text
string_type (some (str (c ∷ t))) = some (c ∷ t)
string_type _ = none

-- `const { data, type } = JSON.parse(str)`: a null throws, another scalar has no properties.
unfoldable pub destructure : Json → Outcome (Option CacheEntry)
unfolding property string_type
destructure null = rejected
destructure (obj fs) = resolved (
    some
      (record { data' = property (lit "data") fs; type = string_type (property (lit "type") fs) }))
destructure _ = resolved (some (record { data' = none; type = none }))

unfoldable pub deserialize_entry : Option Text → Outcome (Option CacheEntry)
unfolding destructure
deserialize_entry none = resolved none
deserialize_entry (some []) = resolved none
deserialize_entry (some (c ∷ s)) = elim (parse (c ∷ s)) [ none ↦ rejected | some v ↦ destructure v ]
