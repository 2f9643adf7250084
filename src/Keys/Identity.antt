-- ===== src/Keys/Identity.antt =====
-- The callers that generateAuthKey tells apart.
use mathlib.Core.Path.{ap₂}
use plugin_rest_cache.Prelude.{
  text_eq-false, ℕ, ◌≡◌, refl, sym, ap, ◌∙◌, ◌≢◌, ◌⊎◌, inl, inr, Bool, true, ◌&&◌, Option, none,
  some, List, [], ◌∷◌, ◌++◌, arith, leb, All, Text, lit, text_eq, Free, cut_unique, append_cancel,
}
use plugin_rest_cache.Context.{UserId, numeric, textual, Credentials, AuthState}
use plugin_rest_cache.Keys.Auth.{
  id_text, type_text, credentials_id, credentials_type, user_key, strategy_key, named_key, auth_key,
}

-- The kinds of callers that are told apart: users by their ids, API tokens by their ids and types, admins
-- and admin tokens together by their ids, and the callers of any other strategy by its name alone.
pub data Principal : Type 0 where
  unauthenticated public_role : Principal
  user : Text → Principal
  token : Text → Text → Principal
  admin : Text → Principal
  other : Text → Principal

-- The text of an id, of a type, and of the id of credentials.
pub data IdOf : Option UserId → Text → Type 0 where
  number : (t : Text) → IdOf (some (numeric t)) t
  document : (t : Text) → IdOf (some (textual t)) t
  no_id : IdOf none (lit "undefined")

pub data TypeOf : Option Credentials → Text → Type 0 where
  given : (c : Credentials) (t : Text) → c.type ≡ some t → TypeOf (some c) t
  no_type : (c : Credentials) → c.type ≡ none → TypeOf (some c) (lit "undefined")
  nobody : TypeOf none (lit "undefined")

pub data Holder : Option Credentials → Text → Type 0 where
  holder : (c : Credentials) (t : Text) → IdOf c.id t → Holder (some c) t
  nobody : Holder none (lit "undefined")

-- The strategies that have a case of their own.
abbrev pub known_strategies : List Text
known_strategies =
    lit "users-permissions"
    ∷ lit "api-token"
    ∷ lit "content-api-token"
    ∷ lit "admin"
    ∷ lit "admin-token"
    ∷ []

-- Who a request is from.
pub data From : Option AuthState → Principal → Type 0 where
  no_auth : From none unauthenticated
  no_strategy : (auth : AuthState) → auth.strategy_name ≡ none → From (some auth) unauthenticated
  unnamed : (auth : AuthState) → auth.strategy_name ≡ some [] → From (some auth) unauthenticated
  visitor :
      (auth : AuthState)
      → auth.strategy_name ≡ some (lit "users-permissions")
      → auth.credentials ≡ none
      → From (some auth) public_role
  member :
      (auth : AuthState) (c : Credentials) (t : Text)
      → auth.strategy_name ≡ some (lit "users-permissions")
      → auth.credentials ≡ some c
      → IdOf c.id t
      → From (some auth) (user t)
  api_token :
      (auth : AuthState) (t type : Text)
      → (auth.strategy_name ≡ some (lit "api-token"))
        ⊎ (auth.strategy_name ≡ some (lit "content-api-token"))
      → Holder auth.credentials t
      → TypeOf auth.credentials type
      → From (some auth) (token t type)
  administrator :
      (auth : AuthState) (t : Text)
      → (auth.strategy_name ≡ some (lit "admin")) ⊎ (auth.strategy_name ≡ some (lit "admin-token"))
      → Holder auth.credentials t
      → From (some auth) (admin t)
  custom :
      (auth : AuthState) (name : Text)
      → auth.strategy_name ≡ some name
      → name ≢ []
      → All (λ known. name ≢ known) known_strategies
      → From (some auth) (other name)

abbrev is_digit : ℕ → Bool
is_digit c = leb b'0' c && leb c b'9'

abbrev pub IsNumeric : Text → Type 0
IsNumeric = All (λ c. is_digit c ≡ true)

-- Users and API tokens have the numeric ids of Strapi's tables.
abbrev pub HasNumericId : Principal → Type 0
HasNumericId (user t) = IsNumeric t
HasNumericId (token t ty) = IsNumeric t
HasNumericId unauthenticated = Unit
HasNumericId public_role = Unit
HasNumericId (admin t) = Unit
HasNumericId (other name) = Unit

key_of : Principal → Text
key_of unauthenticated = lit "unauthenticated"
key_of public_role = lit "up:public"
key_of (user t) = lit "up:" ++ t
key_of (token t ty) = lit "token:" ++ (t ++ b':' ∷ ty)
key_of (admin t) = lit "admin:" ++ t
key_of (other name) = lit "strategy:" ++ name

id_text-IdOf : (id : Option UserId) (t : Text) → IdOf id t → id_text id ≡ t
unfolding id_text
id_text-IdOf _ t (number _) = refl
id_text-IdOf _ t (document _) = refl
id_text-IdOf _ _ no_id = refl

id_text-Holder : (c : Option Credentials) (t : Text) → Holder c t → id_text (credentials_id c) ≡ t
unfolding id_text
id_text-Holder _ t (holder c _ id) = id_text-IdOf c.id t id
id_text-Holder _ _ nobody = refl

type_text-TypeOf :
    (c : Option Credentials) (t : Text) → TypeOf c t → type_text (credentials_type c) ≡ t
type_text-TypeOf _ t (given c _ e) = ap type_text e
type_text-TypeOf _ _ (no_type c e) = ap type_text e
type_text-TypeOf _ _ nobody = refl

key_by_name :
    (auth : AuthState) (name : Text)
    → auth.strategy_name ≡ some name
    → auth_key (some auth) ≡ named_key name auth.credentials
unfolding auth_key
key_by_name auth name e =
    ap
      (λ (o : Option Text). elim o [
        | none ↦ lit "unauthenticated"
        | some n ↦ named_key n auth.credentials
      ])
      e

token_key :
    (auth : AuthState) (t type : Text)
    → Holder auth.credentials t
    → TypeOf auth.credentials type
    → lit "token:"
        ++ (id_text (credentials_id auth.credentials)
            ++ b':' ∷ type_text (credentials_type auth.credentials))
      ≡ lit "token:" ++ (t ++ b':' ∷ type)
token_key auth t type h k =
    ap₂ (λ x y. lit "token:" ++ (x ++ b':' ∷ y)) (id_text-Holder auth.credentials t h)
      (type_text-TypeOf auth.credentials type k)

admin_key :
    (auth : AuthState) (t : Text)
    → Holder auth.credentials t
    → lit "admin:" ++ id_text (credentials_id auth.credentials) ≡ lit "admin:" ++ t
admin_key auth t h = ap (λ x. lit "admin:" ++ x) (id_text-Holder auth.credentials t h)

custom_key :
    (name : Text) (c : Option Credentials)
    → name ≢ []
    → All (λ known. name ≢ known) known_strategies
    → named_key name c ≡ lit "strategy:" ++ name
unfolding named_key strategy_key
custom_key [] c h k = absurd (h refl)
custom_key (x ∷ name) c h (up, (api, (content, (admins, (admin_token, _))))) =
    rw
      (
        text_eq-false (x ∷ name) (lit "users-permissions") up,
        text_eq-false (x ∷ name) (lit "api-token") api,
        text_eq-false (x ∷ name) (lit "content-api-token") content,
        text_eq-false (x ∷ name) (lit "admin") admins,
        text_eq-false (x ∷ name) (lit "admin-token") admin_token,
      )
      refl

auth_key-From : (a : Option AuthState) (p : Principal) → From a p → auth_key a ≡ key_of p
unfolding auth_key key_of named_key strategy_key user_key text_eq
auth_key-From _ _ no_auth = refl
auth_key-From _ _ (no_strategy auth e) =
    ap
      (λ (o : Option Text). elim o [
        | none ↦ lit "unauthenticated"
        | some n ↦ named_key n auth.credentials
      ])
      e
auth_key-From _ _ (unnamed auth e) = key_by_name auth [] e
auth_key-From _ _ (visitor auth e c) = key_by_name auth (lit "users-permissions") e ∙ ap user_key c
auth_key-From _ _ (member auth c t e held id) =
    key_by_name auth (lit "users-permissions") e
    ∙ (ap user_key held ∙ ap (λ x. lit "up:" ++ x) (id_text-IdOf c.id t id))
auth_key-From _ _ (api_token auth t type (inl e) h k) =
    key_by_name auth (lit "api-token") e ∙ token_key auth t type h k
auth_key-From _ _ (api_token auth t type (inr e) h k) =
    key_by_name auth (lit "content-api-token") e ∙ token_key auth t type h k
auth_key-From _ _ (administrator auth t (inl e) h) =
    key_by_name auth (lit "admin") e ∙ admin_key auth t h
auth_key-From _ _ (administrator auth t (inr e) h) =
    key_by_name auth (lit "admin-token") e ∙ admin_key auth t h
auth_key-From _ _ (custom auth name e h k) =
    key_by_name auth name e ∙ custom_key name auth.credentials h k

numeric-public : (t : Text) → IsNumeric t → t ≢ lit "public"
numeric-public [] h e = cc
numeric-public (c ∷ t) (h, hs) e = ground arith

numeric-Free : (t : Text) → IsNumeric t → Free b':' t
numeric-Free [] h = tt
numeric-Free (c ∷ t) (h, hs) = (ground arith, numeric-Free t hs)

-- The second unit tells the kinds of keys apart.
abbrev second : Text → ℕ
second [] = 0
second (c ∷ []) = 0
second (c ∷ d ∷ s) = d

key_of-injective : (p q : Principal) → HasNumericId p → HasNumericId q → key_of p ≡ key_of q → p ≡ q
unfolding key_of
key_of-injective unauthenticated unauthenticated h k e = refl
key_of-injective public_role public_role h k e = refl
key_of-injective public_role (user t) h k e = absurd (numeric-public t k (cc))
key_of-injective (user t) public_role h k e = absurd (numeric-public t h (cc))
key_of-injective (user t) (user u) h k e = ap user (append_cancel (lit "up:") t u e)
key_of-injective (token t ty) (token u ty') h k e =
    let (ids, types) =
      cut_unique b':' t u ty ty' (numeric-Free t h) (numeric-Free u k)
        (append_cancel (lit "token:") _ _ e) in
    ap₂ token ids types
key_of-injective (admin t) (admin u) h k e = ap admin (append_cancel (lit "admin:") t u e)
key_of-injective (other n) (other m) h k e = ap other (append_cancel (lit "strategy:") n m e)
key_of-injective _ _ h k e = absurd (omega (arith, ap second e))

-- Callers of different kinds never share an identity part.
pub auth_key-From_injective :
    (a b : Option AuthState) (p q : Principal)
    → From a p
    → From b q
    → HasNumericId p
    → HasNumericId q
    → auth_key a ≡ auth_key b
    → p ≡ q
auth_key-From_injective a b p q f g h k e =
    key_of-injective p q h k (sym (auth_key-From a p f) ∙ e ∙ auth_key-From b q g)
