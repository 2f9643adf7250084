-- ===== src/Keys/Escape/Nested.antt =====
-- Nested query values: their JSON holds no separator, and different values have different JSON.
use mathlib.Core.Path.{ap₂}
use plugin_rest_cache.Prelude.{◌≡◌, ◌≢◌, refl, ap, [], true, Text, All}
use plugin_rest_cache.Json.{
  Json, null, bool, num, str, arr, obj, Items, nil, cons, Fields, end, field,
}
use plugin_rest_cache.Json.Parse.{is_num}
use plugin_rest_cache.Keys.Escape.{escape_key_value, escape_key_json, escape_items, escape_fields}
use plugin_rest_cache.Keys.Escape.Scalars.{IsWellFormed, escape_key_value-injective}
use plugin_rest_cache.Keys.Escape.Entries.{Fresh, HasDistinctNames, from_entries_lem}

-- A value that `qs` can build: well-formed strings and distinct names at every depth.
abbrev mutual
  pub IsQueryValue : Json → Type 0
  IsQueryValue null = Unit
  IsQueryValue (bool b) = Unit
  IsQueryValue (num t) = (t ≢ []) × All (λ c. is_num c ≡ true) t
  IsQueryValue (str s) = IsWellFormed s
  IsQueryValue (arr vs) = AreQueryValues vs
  IsQueryValue (obj fs) = HasDistinctNames fs × AreQueryFields fs

  pub AreQueryValues : Items → Type 0
  AreQueryValues nil = Unit
  AreQueryValues (cons v vs) = IsQueryValue v × AreQueryValues vs

  pub AreQueryFields : Fields → Type 0
  AreQueryFields end = Unit
  AreQueryFields (field k v fs) = IsWellFormed k × IsQueryValue v × AreQueryFields fs

Fresh-escape_fields :
    (k : Text) (fs : Fields)
    → IsWellFormed k
    → AreQueryFields fs
    → Fresh k fs
    → Fresh (escape_key_value k) (escape_fields fs)
unfolding escape_key_json
Fresh-escape_fields k end h hs fresh = tt
Fresh-escape_fields k (field j v fs) h (hj, hv, hs) (apart, fresh) =
    (λ e. apart (escape_key_value-injective k j h hj e), Fresh-escape_fields k fs h hs fresh)

escape_fields-distinct :
    (fs : Fields) → AreQueryFields fs → HasDistinctNames fs → HasDistinctNames (escape_fields fs)
unfolding escape_key_json
escape_fields-distinct end h d = tt
escape_fields-distinct (field k v fs) (hk, hv, hs) (fresh, d) =
    (Fresh-escape_fields k fs hk hs fresh, escape_fields-distinct fs hs d)

-- On distinct names `Object.fromEntries` keeps every entry where it is.
pub escape_key_json-obj :
    (fs : Fields) → IsQueryValue (obj fs) → escape_key_json (obj fs) ≡ obj (escape_fields fs)
unfolding escape_key_json
escape_key_json-obj fs (d, h) =
    ap obj (from_entries_lem (escape_fields fs) (escape_fields-distinct fs h d))

mutual
  unfolding escape_key_json

  escape_json-injective :
      (v w : Json) → IsQueryValue v → IsQueryValue w → escape_key_json v ≡ escape_key_json w → v ≡ w
  escape_json-injective (str s) (str t) h k e = ap str (escape_key_value-injective s t h k (cc))
  escape_json-injective (arr vs) (arr ws) h k e = ap arr (escape_items-injective vs ws h k (cc))
  escape_json-injective (obj fs) (obj gs) h k e = ap obj (
      escape_fields-injective fs gs h.1 k.1
        (cc (escape_key_json-obj fs h, escape_key_json-obj gs k)))
  escape_json-injective null null h k e = refl
  escape_json-injective (bool b) (bool c) h k e = cc
  escape_json-injective (num t) (num u) h k e = cc
  escape_json-injective _ _ h k e = cc

  escape_items-injective :
      (vs ws : Items)
      → AreQueryValues vs
      → AreQueryValues ws
      → escape_items vs ≡ escape_items ws
      → vs ≡ ws
  escape_items-injective nil nil h k e = refl
  escape_items-injective (cons v vs) (cons w ws) h k e =
      ap₂ cons (escape_json-injective v w h.0 k.0 (cc)) (escape_items-injective vs ws h.1 k.1 (cc))
  escape_items-injective _ _ h k e = cc

  escape_fields-injective :
      (fs gs : Fields)
      → AreQueryFields fs
      → AreQueryFields gs
      → escape_fields fs ≡ escape_fields gs
      → fs ≡ gs
  escape_fields-injective end end h k e = refl
  escape_fields-injective (field j v fs) (field l w gs) h k e = cc (
    escape_key_value-injective j l h.0 k.0 (cc),
    escape_json-injective v w h.1 k.1 (cc),
    escape_fields-injective fs gs h.2 k.2 (cc),
  )
  escape_fields-injective _ _ h k e = cc

-- Two nested values whose strings and names are escaped for the key are equal if the escaped values
-- are.
pub escape_key_json-injective :
    (v w : Json) → IsQueryValue v → IsQueryValue w → escape_key_json v ≡ escape_key_json w → v ≡ w
escape_key_json-injective v w h k e = escape_json-injective v w h k e
