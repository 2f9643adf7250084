-- ===== src/Uri.antt =====
-- `encodeURIComponent`: code points, UTF-8 and percent escapes; `none` is its URIError.
pub mod Points
pub mod Inject
use mathlib.Core.Option
use plugin_rest_cache.Prelude.{
  ℕ, ◌+◌, ◌-◌, ◌*◌, ◌/◌, ◌%◌, Bool, ◌&&◌, ◌||◌, List, [], ◌∷◌, map, Option, some, none, ltb, leb,
  ◌==◌, if◌then◌else◌, Text,
}
use plugin_rest_cache.Json.{is_high_surrogate, is_low_surrogate, is_surrogate}

abbrev pub join_surrogates : ℕ → ℕ → ℕ
join_surrogates c d = 65536 + (c - 0xd800) * 1024 + (d - 0xdc00)

-- The code points of a text; a surrogate on its own has none.
unfoldable pub code_points : Text → Option (List ℕ)
code_points [] = some []
code_points (c ∷ []) = if is_surrogate c then none else some (c ∷ [])
code_points (c ∷ d ∷ s) =
    let pair = Option.map (◌∷◌ (join_surrogates c d)) (code_points s) in
    let single = Option.map (◌∷◌ c) (code_points (d ∷ s)) in
    if is_high_surrogate c && is_low_surrogate d
    then pair
    else if is_surrogate c
    then none
    else single

unfoldable pub utf8 : ℕ → List ℕ
utf8 c =
    if ltb c 0x80
    then c ∷ []
    else if ltb c 0x800
    then (0xc0 + c / 64) ∷ (0x80 + c % 64) ∷ []
    else if ltb c 0x10000
    then (0xe0 + c / 4096) ∷ (0x80 + c / 64 % 64) ∷ (0x80 + c % 64) ∷ []
    else (0xf0 + c / 262144) ∷ (0x80 + c / 4096 % 64) ∷ (0x80 + c / 64 % 64) ∷ (0x80 + c % 64) ∷ []

-- A hexadecimal digit, in upper case.
unfoldable pub upper_hex_digit : ℕ → ℕ
upper_hex_digit d = if ltb d 10 then b'0' + d else 55 + d

-- The escapes of some bytes, followed by `k`.
unfoldable pub percent : List ℕ → Text → Text
percent [] k = k
percent (b ∷ bs) k = b'%' ∷ upper_hex_digit (b / 16) ∷ upper_hex_digit (b % 16) ∷ percent bs k

-- The units that `encodeURIComponent` keeps: letters, digits and `-_.!~*'()`.
unfoldable pub is_unreserved : ℕ → Bool
is_unreserved c =
    (leb b'a' c && leb c b'z')
    || (leb b'A' c && leb c b'Z')
    || (leb b'0' c && leb c b'9')
    || c == b'-'
    || c == b'_'
    || c == b'.'
    || c == b'!'
    || c == b'~'
    || c == b'*'
    || c == 39
    || c == 40
    || c == 41

-- One code point, followed by `k`.
unfoldable pub encode_point : ℕ → Text → Text
encode_point c k = if is_unreserved c then c ∷ k else percent (utf8 c) k

unfoldable pub encode_points : List ℕ → Text
encode_points [] = []
encode_points (c ∷ cs) = encode_point c (encode_points cs)

-- `encodeURIComponent(s)`.
unfoldable pub encode_uri_component : Text → Option Text
unfolding code_points encode_points encode_point is_unreserved percent utf8 upper_hex_digit
encode_uri_component s = Option.map encode_points (code_points s)
