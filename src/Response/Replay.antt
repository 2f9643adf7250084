-- ===== src/Response/Replay.antt =====
-- packages/plugin-rest-cache/server/src/middlewares/recv.ts: which Content-Type is kept and replayed.
use plugin_rest_cache.Prelude.{
  Bool, true, false, ◌&&◌, ◌||◌, not, Option, none, some, List, [], ◌∷◌, ◌==◌, if◌then◌else◌, any,
  every, Text, lit, text_eq, starts_with,
}
use plugin_rest_cache.Context.{to_lower_case}
use plugin_rest_cache.Json.{Json, str}
use plugin_rest_cache.Response.{Body, value, Response, get_header}
use plugin_rest_cache.Response.Spaces.{skip_space, trim, split}
use plugin_rest_cache.Store.Entry.{kept_type}

unfoldable pub passive_types : List Text
passive_types =
    lit "text/plain"
    ∷ lit "text/csv"
    ∷ lit "text/tab-separated-values"
    ∷ lit "application/json"
    ∷ []

unfoldable pub markup_types : List Text
markup_types = lit "application/xml" ∷ []

-- `set.has(mime)`
unfoldable pub in_set : List Text → Text → Bool
in_set types mime = any (text_eq mime) types

-- `value.replace(/"/g, '')`
unfoldable pub unquote : Text → Text
unquote [] = []
unquote (c ∷ s) = if c == b'"' then unquote s else c ∷ unquote s

-- `const [name, value = ''] = param.split('=').map(trim)`
unfoldable pub parameter : Text → Text × Text
unfolding split trim
parameter param =
    let (name, values) = split b'=' param in (trim name, elim values [ [] ↦ [] | v ∷ _ ↦ trim v ])

-- The test of one parameter.
unfoldable pub charset_ok : Text → Bool
unfolding parameter unquote
charset_ok param =
    let (name, v) = parameter param in
    not (text_eq name (lit "charset")) || text_eq (unquote v) (lit "utf-8")

-- `/^\s*</.test(body)`
unfoldable pub opens_markup : Text → Bool
unfolding skip_space
opens_markup body = starts_with (skip_space body) (lit "<")

unfoldable pub is_replayable : Text → Text → Bool
unfolding to_lower_case split trim charset_ok passive_types markup_types in_set opens_markup
is_replayable type body =
    let (essence, params) = split b';' (to_lower_case type) in
    let mime = trim essence in
    if not (every charset_ok params)
    then false
    else if in_set passive_types mime
    then true
    else in_set markup_types mime && opens_markup body

-- The type of a body that came with this Content-Type header.
unfoldable pub keep : Body → Text → Option Text
unfolding is_replayable
keep (value (str body)) type =
    if not (text_eq type []) && is_replayable type body then some type else none
keep _ type = none

unfoldable pub type_to_keep : Response → Option Text
unfolding keep get_header
type_to_keep ctx = keep ctx.body (get_header (lit "Content-Type") ctx)

-- The Content-Type that `replay` sets before it assigns the body; `none` leaves it to Koa.
unfoldable pub replayed_type : Json → Option Text → Option Text
unfolding kept_type is_replayable
replayed_type (str body) type = elim (kept_type type) [
  | none ↦ none
  | some t ↦ if is_replayable t body then some t else none
]
replayed_type _ type = none
