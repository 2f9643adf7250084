-- ===== src/Tests/KeyTests.antt =====
-- packages/plugin-rest-cache/server/src/utils/keys: keys of requests.
use mathlib.Core.Path.{subst}
use plugin_rest_cache.Prelude.{
  ◌≡◌, refl, true, none, some, [], ◌∷◌, arith, Text, lit, text_eq, Free-of_every,
}
use plugin_rest_cache.Json.{str}
use plugin_rest_cache.Uri.{code_points, encode_uri_component}
use plugin_rest_cache.Context.{Request, AuthState, numeric, lookup, to_lower_case}
use plugin_rest_cache.Keys.{generate_cache_key}
use plugin_rest_cache.Keys.Config.{CacheKeysConfig, all_params, sort}
use plugin_rest_cache.Keys.Path.{request_path}
use plugin_rest_cache.Keys.Escape.{escape_key_value, escape_key_name}
use plugin_rest_cache.Keys.Escape.Scalars.{IsWellFormed}
use plugin_rest_cache.Keys.QueryView.{query_view}
use plugin_rest_cache.Keys.HeaderView.{headers_view}
use plugin_rest_cache.Keys.Identity.{Principal, From, member, number}
use plugin_rest_cache.Keys.Distinct.{
  IsKeyable, generate_cache_key-injective, generate_cache_key-From,
}

abbrev user : AuthState
user = record {
  strategy_name = some (lit "users-permissions");
  credentials = some (record { id = some (numeric (lit "5")); type = none });
}

-- Two ways to write one request.
abbrev plain : Request
plain = record {
  path = lit "/api/articles";
  query = (lit "q", str (lit "a=b")) ∷ [];
  header = (lit "accept-language", lit "en") ∷ [];
  auth = some user;
}

abbrev slashed : Request
slashed = record {
  path = lit "/API//Articles/";
  query = (lit "q", str (lit "a=b")) ∷ [];
  header = (lit "accept-language", lit "en") ∷ (lit "host", lit "h") ∷ [];
  auth = some user;
}

abbrev keys : CacheKeysConfig
keys = record {
  use_headers = lit "Accept-Language" ∷ [];
  use_query_params = all_params;
  use_auth = true;
}

plain_key : generate_cache_key plain keys ≡ lit "/api/articles?q=a%3Db&accept-language=en&up:5"
unfolding generate_cache_key to_lower_case text_eq sort escape_key_name lookup escape_key_value
    encode_uri_component
plain_key = refl

same_key : generate_cache_key plain keys ≡ generate_cache_key slashed keys
unfolding generate_cache_key text_eq lookup to_lower_case
same_key = refl

some_injective : {a b : Text} → some a ≡ some b → a ≡ b
some_injective e = cc

q-IsWellFormed : IsWellFormed (lit "q")
unfolding code_points
q-IsWellFormed = (omega arith, λ e. cc)

a=b-IsWellFormed : IsWellFormed (lit "a=b")
unfolding code_points
a=b-IsWellFormed = (omega arith, λ e. cc)

en-IsWellFormed : IsWellFormed (lit "en")
unfolding code_points
en-IsWellFormed = (omega arith, λ e. cc)

accept-language-IsWellFormed : IsWellFormed (to_lower_case (lit "Accept-Language"))
unfolding code_points to_lower_case
accept-language-IsWellFormed = (omega arith, λ e. cc)

en_only : (v : Text) → some (lit "en") ≡ some v → IsWellFormed v
en_only v e = subst IsWellFormed (some_injective e) en-IsWellFormed

plain-IsKeyable : IsKeyable keys plain
unfolding lookup text_eq to_lower_case
plain-IsKeyable = record {
  path = Free-of_every b'?' plain.path refl;
  query = ((q-IsWellFormed, a=b-IsWellFormed), tt);
  headers = (accept-language-IsWellFormed, en_only, tt);
}

slashed-IsKeyable : IsKeyable keys slashed
unfolding lookup text_eq to_lower_case
slashed-IsKeyable = record {
  path = Free-of_every b'?' slashed.path refl;
  query = ((q-IsWellFormed, a=b-IsWellFormed), tt);
  headers = (accept-language-IsWellFormed, en_only, tt);
}

generate_cache_key-injective_example :
    (request_path plain.path ≡ request_path slashed.path)
    × (query_view keys.use_query_params plain.query
        ≡ query_view keys.use_query_params slashed.query)
    × (headers_view plain keys.use_headers ≡ headers_view slashed keys.use_headers)
generate_cache_key-injective_example =
    generate_cache_key-injective keys plain slashed plain-IsKeyable slashed-IsKeyable same_key

abbrev five : Principal
five = Principal.user (lit "5")

user-From : From (some user) five
user-From =
    member user (record { id = some (numeric (lit "5")); type = none }) (lit "5") refl refl
      (number (lit "5"))

generate_cache_key-From_example : five ≡ five
generate_cache_key-From_example =
    generate_cache_key-From keys plain slashed five five refl plain-IsKeyable slashed-IsKeyable
      user-From user-From (refl, tt) (refl, tt) same_key
