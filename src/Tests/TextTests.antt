-- ===== src/Tests/TextTests.antt =====
-- JSON and encodeURIComponent, as the keys and the store use them.
use plugin_rest_cache.Prelude.{◌≡◌, refl, true, some, lit}
use plugin_rest_cache.Json.{Json, bool, str, arr, obj, nil, cons, end, field, stringify}
use plugin_rest_cache.Uri.{encode_uri_component}

abbrev document : Json
document = obj (field (lit "a\"b") (arr (cons (bool true) (cons (str (lit "\\")) nil))) end)

document_text : stringify document ≡ lit "{\"a\\\"b\":[true,\"\\\\\"]}"
unfolding stringify
document_text = refl

encoded : encode_uri_component (lit "a&") ≡ some (lit "a%26")
unfolding encode_uri_component
encoded = refl
