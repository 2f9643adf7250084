-- ===== src/Keys/Config.antt =====
-- packages/plugin-rest-cache/server/src/types/CacheKeysConfig.ts
use plugin_rest_cache.Prelude.{
  Bool, true, false, ◌||◌, ◌&&◌, List, [], ◌∷◌, Option, none, some, ltb, ◌==◌, if◌then◌else◌, Text,
}

-- `boolean | string[]`
pub data UseQueryParams : Type 0 where
  all_params no_params : UseQueryParams
  only : List Text → UseQueryParams

pub record CacheKeysConfigInput : Type 0 where
  pub use_headers : Option (List Text)
  pub use_query_params : Option UseQueryParams
  pub use_auth : Option Bool

pub record CacheKeysConfig : Type 0 where
  pub use_headers : List Text
  pub use_query_params : UseQueryParams
  pub use_auth : Bool

-- The order of code units, by which `sort` compares strings.
unfoldable pub text_le : Text → Text → Bool
text_le [] t = true
text_le (a ∷ s) [] = false
text_le (a ∷ s) (b ∷ t) = ltb a b || (a == b && text_le s t)

-- A place in a sorted list, behind the equal texts.
unfoldable pub insert : Text → List Text → List Text
insert s [] = s ∷ []
insert s (t ∷ ts) = if text_le s t then s ∷ t ∷ ts else t ∷ insert s ts

-- `a.sort()`.
unfoldable pub sort : List Text → List Text
unfolding insert text_le
sort [] = []
sort (t ∷ ts) = insert t (sort ts)

abbrev pub default_to {ℓ} : {A : Type ℓ} → A → Option A → A
default_to d none = d
default_to d (some a) = a

-- The constructor.
unfoldable pub cache_keys_config : CacheKeysConfigInput → CacheKeysConfig
unfolding sort
cache_keys_config options = record {
  use_headers = sort (default_to [] options.use_headers);
  use_query_params = default_to all_params options.use_query_params;
  use_auth = default_to false options.use_auth;
}
