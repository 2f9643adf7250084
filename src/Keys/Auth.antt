-- ===== src/Keys/Auth.antt =====
-- packages/plugin-rest-cache/server/src/utils/keys/generateAuthKey.ts
use plugin_rest_cache.Prelude.{
  ◌||◌, [], ◌∷◌, ◌++◌, Option, none, some, if◌then◌else◌, Text, lit, text_eq,
}
use plugin_rest_cache.Context.{UserId, numeric, textual, Credentials, AuthState, Request}

-- An id, or a missing one, in a template string.
unfoldable pub id_text : Option UserId → Text
id_text none = lit "undefined"
id_text (some (numeric t)) = t
id_text (some (textual t)) = t

abbrev pub type_text : Option Text → Text
type_text none = lit "undefined"
type_text (some t) = t

-- `credentials?.id` and `credentials?.type`.
abbrev pub credentials_id : Option Credentials → Option UserId
credentials_id none = none
credentials_id (some c) = c.id

abbrev pub credentials_type : Option Credentials → Option Text
credentials_type none = none
credentials_type (some c) = c.type

-- The `users-permissions` case.
unfoldable pub user_key : Option Credentials → Text
unfolding id_text
user_key none = lit "up:public"
user_key (some c) = lit "up:" ++ id_text c.id

-- The `default` case: an empty name is falsy.
unfoldable pub strategy_key : Text → Text
strategy_key [] = lit "unauthenticated"
strategy_key (c ∷ name) = lit "strategy:" ++ c ∷ name

-- The switch, for a strategy that has a name.
unfoldable pub named_key : Text → Option Credentials → Text
unfolding user_key strategy_key
named_key name credentials =
    if text_eq name (lit "users-permissions")
    then user_key credentials
    else if text_eq name (lit "api-token") || text_eq name (lit "content-api-token")
    then lit "token:"
      ++ (id_text (credentials_id credentials) ++ b':' ∷ type_text (credentials_type credentials))
    else if text_eq name (lit "admin") || text_eq name (lit "admin-token")
    then lit "admin:" ++ id_text (credentials_id credentials)
    else strategy_key name

unfoldable pub auth_key : Option AuthState → Text
unfolding named_key
auth_key none = lit "unauthenticated"
auth_key (some auth) = elim auth.strategy_name [
  | none ↦ lit "unauthenticated"
  | some name ↦ named_key name auth.credentials
]

unfoldable pub generate_auth_key : Request → Text
unfolding auth_key
generate_auth_key ctx = auth_key ctx.auth
