-- ===== src/Response/Etags.antt =====
-- packages/plugin-rest-cache/server/src/utils/etags: etagGenerate and etagLookup.
use plugin_rest_cache.Prelude.{Option, none, some, ◌∷◌, ◌++◌, Text, lit}
use plugin_rest_cache.Json.{Json, str, stringify}
use plugin_rest_cache.Store.{CacheStore, get}
use plugin_rest_cache.Store.Contract.{Provider}

-- The text that is hashed.
unfoldable pub etag_content : Json → Text
etag_content (str body) = body
etag_content body = stringify body

-- `md5` is crypto's hash, in hexadecimal.
unfoldable pub etag_generate : (Text → Text) → Json → Text
unfolding etag_content
etag_generate md5 body = md5 (etag_content body)

-- `${cacheKey}_etag`
abbrev pub etag_key : Text → Text
etag_key key = key ++ lit "_etag"

-- `as string | null`: an ETag is stored as a text.
unfoldable pub as_etag : Option Json → Option Text
as_etag (some (str (c ∷ etag))) = some (c ∷ etag)
as_etag _ = none

unfoldable pub etag_lookup :
    {P : Type 0} → Provider P → Text → Text → CacheStore P → Option Text × CacheStore P
unfolding as_etag get
etag_lookup api keys_prefix key s =
    let (etag, s') = get api keys_prefix (etag_key key) s in (as_etag etag, s')
