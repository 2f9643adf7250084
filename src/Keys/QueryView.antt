-- ===== src/Keys/QueryView.antt =====
-- What the query part of a key stands for, and that the part determines it.
use mathlib.Core.Path.{ap₂, subst}
use mathlib.Core.List.{Memᴰ}
use plugin_rest_cache.Prelude.{
  ◌≡◌, refl, ap, sym, ◌∙◌, List, [], ◌∷◌, map, true, false, Text, All, Free, Option, some, inl, inr,
  Bool-cases, All-filter, All-of_Mem, text_eq, text_eq_iff,
}
use plugin_rest_cache.Json.{Json, null, bool, num, str, arr, obj}
use plugin_rest_cache.Context.{Request, lookup}
use plugin_rest_cache.Keys.Config.{
  UseQueryParams, all_params, no_params, only, insert, sort, text_le,
}
use plugin_rest_cache.Keys.Query.{
  selected_names, query_value, query_pair, join, generate_query_params_key,
}
use plugin_rest_cache.Keys.Escape.{escape_key_name, opens_json, key_null}
use plugin_rest_cache.Keys.Escape.Scalars.{
  IsWellFormed, escape_key_name-FreeOf, escape_key_value-FreeOf, escape_key_name-injective,
  escape_key_value-injective, escape_key_value-opens, escape_key_value-key_null, FreeOf, is_strict,
}
use plugin_rest_cache.Keys.Escape.Nested.{IsQueryValue}
use plugin_rest_cache.Keys.Escape.Printed.{
  nested_text-FreeOf, nested_text-injective, nested_text-opens_arr, nested_text-opens_obj,
}
use plugin_rest_cache.Keys.Parts.{Pair, pair_text, IsPair, join_unique, join-Free}

-- What `qs` yields for a parameter: a null, a string, an array or an object.
abbrev pub IsParameter : Json → Type 0
IsParameter null = Unit
IsParameter (str s) = IsWellFormed s
IsParameter (arr vs) = IsQueryValue (arr vs)
IsParameter (obj fs) = IsQueryValue (obj fs)
IsParameter (bool b) = ⊥
IsParameter (num t) = ⊥

abbrev pub parameter_value : Json → Text
parameter_value v = query_value (some v)

parameter-FreeOf : (v : Json) → IsParameter v → FreeOf is_strict (parameter_value v)
unfolding query_value
parameter-FreeOf null h = (refl, tt)
parameter-FreeOf (str s) h = escape_key_value-FreeOf s h.0
parameter-FreeOf (arr vs) h = nested_text-FreeOf (arr vs) h
parameter-FreeOf (obj fs) h = nested_text-FreeOf (obj fs) h
parameter-FreeOf (bool b) h = absurd h
parameter-FreeOf (num t) h = absurd h

opens_apart : (s t : Text) → opens_json s ≡ false → opens_json t ≡ true → s ≡ t → ⊥
opens_apart s t h k e = cc (ap opens_json e)

null-opens : opens_json key_null ≡ false
unfolding opens_json
null-opens = refl

-- Two values of a query parameter, null, text, array or object, that enter the key as the same text
-- are equal.
pub parameter_value-injective :
    (v w : Json) → IsParameter v → IsParameter w → parameter_value v ≡ parameter_value w → v ≡ w
unfolding query_value
parameter_value-injective null null h k e = refl
parameter_value-injective null (str t) h k e = absurd (escape_key_value-key_null t (sym e))
parameter_value-injective null (arr ws) h k e =
    absurd (opens_apart _ _ null-opens (nested_text-opens_arr ws) e)
parameter_value-injective null (obj gs) h k e =
    absurd (opens_apart _ _ null-opens (nested_text-opens_obj gs k) e)
parameter_value-injective (str s) null h k e = absurd (escape_key_value-key_null s e)
parameter_value-injective (str s) (str t) h k e = ap str (escape_key_value-injective s t h k e)
parameter_value-injective (str s) (arr ws) h k e =
    absurd (opens_apart _ _ (escape_key_value-opens s h.0) (nested_text-opens_arr ws) e)
parameter_value-injective (str s) (obj gs) h k e =
    absurd (opens_apart _ _ (escape_key_value-opens s h.0) (nested_text-opens_obj gs k) e)
parameter_value-injective (arr vs) null h k e =
    absurd (opens_apart _ _ null-opens (nested_text-opens_arr vs) (sym e))
parameter_value-injective (arr vs) (str t) h k e =
    absurd (opens_apart _ _ (escape_key_value-opens t k.0) (nested_text-opens_arr vs) (sym e))
parameter_value-injective (obj fs) null h k e =
    absurd (opens_apart _ _ null-opens (nested_text-opens_obj fs h) (sym e))
parameter_value-injective (obj fs) (str t) h k e =
    absurd (opens_apart _ _ (escape_key_value-opens t k.0) (nested_text-opens_obj fs h) (sym e))
parameter_value-injective (arr vs) (arr ws) h k e = nested_text-injective (arr vs) (arr ws) h k e
parameter_value-injective (arr vs) (obj gs) h k e = nested_text-injective (arr vs) (obj gs) h k e
parameter_value-injective (obj fs) (arr ws) h k e = nested_text-injective (obj fs) (arr ws) h k e
parameter_value-injective (obj fs) (obj gs) h k e = nested_text-injective (obj fs) (obj gs) h k e
parameter_value-injective (bool b) w h k e = absurd h
parameter_value-injective (num t) w h k e = absurd h
parameter_value-injective v (bool b) h k e = absurd k
parameter_value-injective v (num t) h k e = absurd k

-- The parameters of a request: names and values as `qs` yields them.
abbrev pub AreParameters : List (Text × Json) → Type 0
AreParameters = All (λ p. IsWellFormed p.0 × IsParameter p.1)

-- The name is well-formed and has a value.
abbrev Known : List (Text × Json) → Text → Type 0
Known query k = IsWellFormed k × ((v : Json) × (lookup k query ≡ some v) × IsParameter v)

lookup-known :
    (query : List (Text × Json)) (k : Text)
    → AreParameters query
    → Memᴰ k (map (λ p. p.0) query)
    → (v : Json) × (lookup k query ≡ some v) × IsParameter v
unfolding lookup
lookup-known [] k h m = elim m [ ]
lookup-known ((j, v) ∷ query) k (here, h) (Memᴰ.head e) =
    (v, rw ((text_eq_iff j k).1 (sym e)) refl, here.1)
lookup-known ((j, v) ∷ query) k (here, h) (Memᴰ.tail m) = elim (Bool-cases (text_eq j k)) [
  | inl same ↦ (v, rw same refl, here.1)
  | inr other ↦ rw other (lookup-known query k h m)
]

name-IsWellFormed :
    (query : List (Text × Json)) (k : Text)
    → AreParameters query
    → Memᴰ k (map (λ p. p.0) query)
    → IsWellFormed k
name-IsWellFormed [] k h m = elim m [ ]
name-IsWellFormed (p ∷ query) k (here, h) (Memᴰ.head e) = rw e here.0
name-IsWellFormed (p ∷ query) k (here, h) (Memᴰ.tail m) = name-IsWellFormed query k h m

names-Known :
    (query : List (Text × Json)) → AreParameters query → All (Known query) (map (λ p. p.0) query)
names-Known query h =
    All-of_Mem (Known query) _ (λ k m. (name-IsWellFormed query k h m, lookup-known query k h m))

All-insert : (P : Text → Type 0) (k : Text) (ks : List Text) → P k → All P ks → All P (insert k ks)
unfolding insert
All-insert P k [] p h = (p, tt)
All-insert P k (j ∷ ks) p (q, h) = elim (Bool-cases (text_le k j)) [
  | inl before ↦ rw before (p, (q, h))
  | inr after ↦ rw after (q, All-insert P k ks p h)
]

All-sort : (P : Text → Type 0) (ks : List Text) → All P ks → All P (sort ks)
unfolding sort
All-sort P [] h = tt
All-sort P (k ∷ ks) (p, h) = All-insert P k (sort ks) p (All-sort P ks h)

selected-Known :
    (params : UseQueryParams) (query : List (Text × Json))
    → AreParameters query
    → All (Known query) (selected_names params query)
unfolding selected_names
selected-Known all_params query h = names-Known query h
selected-Known no_params query h = tt
selected-Known (only []) query h = tt
selected-Known (only (k ∷ ks)) query h = All-filter (Known query) _ _ (names-Known query h)

abbrev pub entries_of : List (Text × Json) → List Text → List (Text × Option Json)
entries_of query [] = []
entries_of query (k ∷ ks) = (k, lookup k query) ∷ entries_of query ks

-- The parameters that a configuration lets into the key, by name.
pub query_view : UseQueryParams → List (Text × Json) → List (Text × Option Json)
query_view params query = entries_of query (sort (selected_names params query))

module _ (query : List (Text × Json)) where
  pairs_of : List Text → List Pair
  pairs_of [] = []
  pairs_of (k ∷ ks) = (escape_key_name k, query_value (lookup k query)) ∷ pairs_of ks

  query_pair-pairs_of : (ks : List Text) → map (query_pair query) ks ≡ map pair_text (pairs_of ks)
  unfolding query_pair pairs_of
  query_pair-pairs_of [] = refl
  query_pair-pairs_of (k ∷ ks) = ap (◌∷◌ (query_pair query k)) (query_pair-pairs_of ks)

  pairs_of-IsPair : (ks : List Text) → All (Known query) ks → All IsPair (pairs_of ks)
  unfolding pairs_of
  pairs_of-IsPair [] h = tt
  pairs_of-IsPair (k ∷ ks) ((wf, (v, found, ok)), h) =
      ((escape_key_name-FreeOf k wf.0, rw found (parameter-FreeOf v ok)), pairs_of-IsPair ks h)

module _ (query query' : List (Text × Json)) where
  entry-equal :
      (k l : Text)
      → Known query k
      → Known query' l
      → escape_key_name k ≡ escape_key_name l
      → query_value (lookup k query) ≡ query_value (lookup l query')
      → ◌≡◌ {A = Text × Option Json} (k, lookup k query) (l, lookup l query')
  entry-equal k l (wf, (v, found, ok)) (wf', (w, found', ok')) names values =
      let same =
        parameter_value-injective v w ok ok'
          (ap query_value (sym found) ∙ values ∙ ap query_value found') in
      cc (escape_key_name-injective k l wf wf' names, found, found', same)

  pairs_of-view :
      (ks ls : List Text)
      → All (Known query) ks
      → All (Known query') ls
      → pairs_of query ks ≡ pairs_of query' ls
      → entries_of query ks ≡ entries_of query' ls
  unfolding pairs_of
  pairs_of-view [] [] h k e = refl
  pairs_of-view [] (l ∷ ls) h k e = cc
  pairs_of-view (k ∷ ks) [] h p e = cc
  pairs_of-view (k ∷ ks) (l ∷ ls) (h, hs) (p, ps) e =
      ap₂ ◌∷◌ (entry-equal k l h p (cc) (cc)) (pairs_of-view ks ls hs ps (cc))

sorted-Known :
    (params : UseQueryParams) (query : List (Text × Json))
    → AreParameters query
    → All (Known query) (sort (selected_names params query))
sorted-Known params query h = All-sort (Known query) _ (selected-Known params query h)

-- Requests with one query part have the same parameters, as far as the configuration looks.
pub query_key-view :
    (params : UseQueryParams) (r r' : Request)
    → AreParameters r.query
    → AreParameters r'.query
    → generate_query_params_key r params ≡ generate_query_params_key r' params
    → query_view params r.query ≡ query_view params r'.query
unfolding generate_query_params_key query_view
query_key-view params r r' h k e =
    let known = sorted-Known params r.query h in
    let known' = sorted-Known params r'.query k in
    pairs_of-view r.query r'.query _ _ known known' (
      join_unique _ _ (pairs_of-IsPair r.query _ known) (pairs_of-IsPair r'.query _ known') (
        ap join (sym (query_pair-pairs_of r.query _))
        ∙ e
        ∙ ap join (query_pair-pairs_of r'.query _)))

-- The query part holds no `&`.
pub query_key-Free :
    (params : UseQueryParams) (r : Request)
    → AreParameters r.query
    → Free b'&' (generate_query_params_key r params)
unfolding generate_query_params_key
query_key-Free params r h =
    subst (Free b'&') (ap join (sym (query_pair-pairs_of r.query _)))
      (join-Free _ (pairs_of-IsPair r.query _ (sorted-Known params r.query h)))
