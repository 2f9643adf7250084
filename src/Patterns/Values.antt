-- ===== src/Patterns/Values.antt =====
-- packages/plugin-rest-cache/server/src/utils/config/getRouteRegExp.ts: a value as a pattern.
use plugin_rest_cache.Prelude.{
  ℕ, ◌+◌, ◌/◌, ◌%◌, Bool, ◌&&◌, ◌||◌, not, List, [], ◌∷◌, ◌++◌, ltb, leb, ◌==◌, if◌then◌else◌, any,
  Text, lit,
}
use plugin_rest_cache.Json.{is_high_surrogate, is_low_surrogate, is_surrogate}
use plugin_rest_cache.Uri.{join_surrogates, utf8}

-- `Array.from(s)`: the code points; a surrogate on its own stands for itself.
unfoldable pub array_from : Text → List ℕ
array_from [] = []
array_from (c ∷ []) = c ∷ []
array_from (c ∷ d ∷ s) =
    let pair = join_surrogates c d ∷ array_from s in
    let single = c ∷ array_from (d ∷ s) in
    if is_high_surrogate c && is_low_surrogate d then pair else single

-- `/[.*+?^${}()|[\]\\]/`
unfoldable pub is_special : ℕ → Bool
is_special c = any (◌==◌ c) (lit ".*+?^${}()|[]\\")

-- `escapeRegExp` of a text of one unit.
unfoldable pub escape_reg_exp : ℕ → Text
unfolding is_special
escape_reg_exp c = if is_special c then b'\\' ∷ c ∷ [] else c ∷ []

-- PATH_LITERAL
unfoldable pub is_path_literal : ℕ → Bool
is_path_literal c =
    (leb b'a' c && leb c b'z')
    || ((leb b'A' c && leb c b'Z')
        || ((leb b'0' c && leb c b'9') || any (◌==◌ c) (lit "-._~!$&'()*+,;=:@/")))

-- A hexadecimal digit, in lower case.
unfoldable pub lower_hex_digit : ℕ → ℕ
lower_hex_digit d = if ltb d 10 then b'0' + d else 87 + d

unfoldable pub percent_bytes : List ℕ → Text
unfolding lower_hex_digit
percent_bytes [] = []
percent_bytes (b ∷ bs) =
    b'%' ∷ lower_hex_digit (b / 16) ∷ lower_hex_digit (b % 16) ∷ percent_bytes bs

-- A Buffer replaces a surrogate on its own.
unfoldable pub percent_encode : ℕ → Text
unfolding percent_bytes utf8
percent_encode c = percent_bytes (utf8 (if is_surrogate c then 0xfffd else c))

-- `/^[0-9a-f]$/i`
unfoldable pub is_hex : ℕ → Bool
is_hex c = (leb b'0' c && leb c b'9') || ((leb b'a' c && leb c b'f') || (leb b'A' c && leb c b'F'))

-- `/^[\x21-\x7e]$/`, without `#` and `?`
unfoldable pub is_sent_either_way : ℕ → Bool
is_sent_either_way c = leb 0x21 c && (leb c 0x7e && (not (c == b'#') && not (c == b'?')))

unfoldable pub char_to_pattern : ℕ → Text
unfolding escape_reg_exp is_path_literal percent_encode is_sent_either_way
char_to_pattern c =
    if is_path_literal c
    then escape_reg_exp c
    else if is_sent_either_way c
    then lit "(?:" ++ (escape_reg_exp c ++ (b'|' ∷ (percent_encode c ++ lit ")")))
    else percent_encode c

unfoldable pub param_to_pattern : List ℕ → Text
unfolding char_to_pattern is_hex
param_to_pattern [] = []
param_to_pattern (c ∷ []) = char_to_pattern c
param_to_pattern (c ∷ d ∷ []) = char_to_pattern c ++ char_to_pattern d
param_to_pattern (c ∷ d ∷ e ∷ chars) =
    let encoded = b'%' ∷ d ∷ e ∷ param_to_pattern chars in
    let plain = char_to_pattern c ++ param_to_pattern (d ∷ e ∷ chars) in
    if c == b'%' && (is_hex d && is_hex e) then encoded else plain
