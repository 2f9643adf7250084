-- ===== src/Strategy/Names.antt =====
-- packages/plugin-rest-cache/server/src/utils/config/resolveUserStrategy.ts: names in uids and paths.
use plugin_rest_cache.Prelude.{
  ℕ, ◌&&◌, Option, none, some, List, [], ◌∷◌, ◌++◌, ◌==◌, if◌then◌else◌, Text,
}

-- Up to a unit that is given, or to the end.
unfoldable pub up_to : ℕ → Text → Text
up_to c [] = []
up_to c (a ∷ s) = if a == c then [] else a ∷ up_to c s

-- `uid.split('::')[1]`, as far as its end is not asked for.
unfoldable pub after_colons : Text → Option Text
after_colons [] = none
after_colons (c ∷ []) = none
after_colons (c ∷ d ∷ s) =
    let later = after_colons (d ∷ s) in if c == b':' && d == b':' then some s else later

-- The text before the next `::`.
unfoldable pub before_colons : Text → Text
before_colons [] = []
before_colons (c ∷ []) = c ∷ []
before_colons (c ∷ d ∷ s) =
    let later = before_colons (d ∷ s) in if c == b':' && d == b':' then [] else c ∷ later

-- `none` is undefined.
unfoldable pub api_name_from_uid : Text → Option Text
unfolding up_to after_colons before_colons
api_name_from_uid uid = elim (after_colons uid) [
  | none ↦ none
  | some rest ↦ some (up_to b'.' (before_colons rest))
]

-- A name that is not empty, in front of some others.
unfoldable pub with_name : Text → List Text → List Text
with_name [] names = names
with_name (c ∷ name) names = (c ∷ name) ∷ names

-- `path.match(/:([^/]+)/g)` without the colons: a colon opens a name unless one is open.
unfoldable pub params_in : Option Text → Text → List Text
unfolding with_name
params_in none [] = []
params_in (some name) [] = with_name name []
params_in none (c ∷ s) =
    let opened = params_in (some []) s in
    let outside = params_in none s in if c == b':' then opened else outside
params_in (some name) (c ∷ s) =
    let closed = params_in none s in
    let open' = params_in (some (name ++ c ∷ [])) s in
    if c == b'/' then with_name name closed else open'

unfoldable pub listed_params : Text → List Text
unfolding params_in
listed_params path = params_in none path

-- `path.match(/(?<=\/\:).*?(?=\/|$)/g)`, of a path without line ends: a name behind each `/:`.
unfoldable pub route_params : Text → List Text
unfolding up_to
route_params [] = []
route_params (c ∷ []) = []
route_params (c ∷ d ∷ s) =
    let later = route_params (d ∷ s) in
    if c == b'/' && d == b':' then up_to b'/' s ∷ later else later
