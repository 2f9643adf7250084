-- ===== src/Keys/Query.antt =====
-- packages/plugin-rest-cache/server/src/utils/keys/generateQueryParamsKey.ts
use plugin_rest_cache.Prelude.{
  Bool, true, false, List, [], ◌∷◌, ◌++◌, map, Option, none, some, any, filter, Text, lit, text_eq,
}
use plugin_rest_cache.Json.{Json, null, bool, num, str, arr, obj, stringify}
use plugin_rest_cache.Context.{Request, lookup}
use plugin_rest_cache.Keys.Config.{UseQueryParams, all_params, no_params, only, sort}
use plugin_rest_cache.Keys.Escape.{key_null, escape_key_name, escape_key_value, escape_key_json}

-- `list.includes(key)`
abbrev pub includes : List Text → Text → Bool
includes list key = any (λ k. text_eq k key) list

-- The names that go into the key, before the sort.
unfoldable pub selected_names : UseQueryParams → List (Text × Json) → List Text
selected_names all_params query = map (λ p. p.0) query
selected_names no_params query = []
selected_names (only []) query = []
selected_names (only (k ∷ ks)) query = filter (includes (k ∷ ks)) (map (λ p. p.0) query)

-- The text of a value: KEY_NULL, the JSON of an object, or the value as a string.
unfoldable pub query_value : Option Json → Text
query_value (some null) = key_null
query_value (some (arr vs)) = stringify (escape_key_json (arr vs))
query_value (some (obj fs)) = stringify (escape_key_json (obj fs))
query_value (some (str s)) = escape_key_value s
query_value (some (num t)) = escape_key_value t
query_value (some (bool true)) = escape_key_value (lit "true")
query_value (some (bool false)) = escape_key_value (lit "false")
query_value none = escape_key_value (lit "undefined")

unfoldable pub query_pair : List (Text × Json) → Text → Text
query_pair query k = escape_key_name k ++ b'=' ∷ query_value (lookup k query)

-- `parts.join(',')`
unfoldable pub join : List Text → Text
join [] = []
join (p ∷ []) = p
join (p ∷ q ∷ ps) = p ++ b',' ∷ join (q ∷ ps)

unfoldable pub generate_query_params_key : Request → UseQueryParams → Text
unfolding selected_names query_pair query_value join
generate_query_params_key ctx use_query_params =
    join (map (query_pair ctx.query) (sort (selected_names use_query_params ctx.query)))
