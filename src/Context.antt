-- ===== src/Context.antt =====
-- The part of Koa's context that the plugin reads: the request.
use plugin_rest_cache.Prelude.{
  ℕ, ◌&&◌, List, [], ◌∷◌, map, Option, none, some, leb, ◌+◌, if◌then◌else◌, Text, text_eq,
}
use plugin_rest_cache.Json.{Json}

-- An id: a number, by its decimal text, or a string.
pub data UserId : Type 0 where
  numeric : Text → UserId
  textual : Text → UserId

-- `auth.credentials`, as far as generateAuthKey reads it.
pub record Credentials : Type 0 where
  pub id : Option UserId
  pub type : Option Text

-- `ctx.state.auth`.
pub record AuthState : Type 0 where
  pub strategy_name : Option Text
  pub credentials : Option Credentials

pub record Request : Type 0 where
  pub path : Text
  pub query : List (Text × Json)
  pub header : List (Text × Text)
  pub auth : Option AuthState

-- A property read, `o[k]`; `none` is `undefined`.
unfoldable pub lookup {ℓ} : {V : Type ℓ} → Text → List (Text × V) → Option V
lookup k [] = none
lookup k ((j, v) ∷ m) = if text_eq j k then some v else lookup k m

-- `toLowerCase` on ASCII, which paths and header names are.
unfoldable pub lower_unit : ℕ → ℕ
lower_unit c = if leb b'A' c && leb c b'Z' then c + 32 else c

unfoldable pub to_lower_case : Text → Text
unfolding lower_unit
to_lower_case = map lower_unit
