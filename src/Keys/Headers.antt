-- ===== src/Keys/Headers.antt =====
-- packages/plugin-rest-cache/server/src/utils/keys/generateHeadersKey.ts
use plugin_rest_cache.Prelude.{List, [], ◌∷◌, ◌++◌, none, some, Text}
use plugin_rest_cache.Context.{Request, lookup, to_lower_case}
use plugin_rest_cache.Keys.Escape.{escape_key_name, escape_key_value}
use plugin_rest_cache.Keys.Query.{join}

-- What one configured name pushes.
unfoldable pub header_part : Request → Text → List Text
header_part ctx name = elim (lookup (to_lower_case name) ctx.header) [
  | none ↦ []
  | some value ↦ (escape_key_name (to_lower_case name) ++ b'=' ∷ escape_key_value value) ∷ []
]

-- The loop over the configured names.
unfoldable pub header_parts : Request → List Text → List Text
unfolding header_part
header_parts ctx [] = []
header_parts ctx (name ∷ names) = header_part ctx name ++ header_parts ctx names

unfoldable pub generate_headers_key : Request → List Text → Text
unfolding header_parts join
generate_headers_key ctx use_headers = join (header_parts ctx use_headers)
