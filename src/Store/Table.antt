-- ===== src/Store/Table.antt =====
-- A provider that keeps its entries in a list: it meets the laws of packages/plugin-rest-cache/server/
-- src/types/CacheProvider.ts that the store relies on.
use plugin_rest_cache.Prelude.{
  ◌≡◌, refl, sym, ap, ◌∙◌, inl, inr, true, Option, none, some, List, [], ◌∷◌, ◌++◌, arith,
  if◌then◌else◌, Bool-cases, Text, text_eq, text_eq_sound,
}
use plugin_rest_cache.Outcome.{fulfils, in_time}
use plugin_rest_cache.Store.Contract.{Provider}
use plugin_rest_cache.Store.Lawful.{Lawful, is_some}
use plugin_rest_cache.Store.Listing.{has}

abbrev pub Table : Type 0
Table = List (Text × Text)

abbrev pub held : Table → Text → Option Text
held [] j = none
held ((k, v) ∷ m) j = if text_eq j k then some v else held m j

abbrev pub without : List Text → Table → Table
without ks [] = []
without ks ((k, v) ∷ m) = if has ks k then without ks m else (k, v) ∷ without ks m

abbrev pub names : Table → List Text
names [] = []
names ((k, v) ∷ m) = k ∷ names m

abbrev pub table_api : Provider Table
table_api = record {
  get = λ k m. (in_time (fulfils (held m k)), m);
  set = λ k v max_age m. (fulfils tt, (k, v) ∷ m);
  del = λ k m. (fulfils tt, without (k ∷ []) m);
  del_many = λ ks m. (fulfils tt, without ks m);
  keys = λ prefix m. (fulfils (names m), m);
  clear = λ m. (fulfils tt, []);
  ready = λ m. true;
}

pub held-without :
    (ks : List Text) (m : Table) (j : Text)
    → held (without ks m) j ≡ (if has ks j then none else held m j)
held-without ks [] j = ground arith
held-without ks ((k, v) ∷ m) j = elim (Bool-cases (text_eq j k)) [
  | inl same ↦
      let e : has ks k ≡ has ks j = ap (has ks) (sym (text_eq_sound j k same)) in
      elim (Bool-cases (has ks j)) [
        | inl gone ↦ rw (e ∙ gone, gone) (held-without ks m j ∙ rw gone refl)
        | inr kept ↦ rw (e ∙ kept, kept) (rw same refl)
      ]
  | inr other ↦ elim (Bool-cases (has ks k)) [
    | inl gone ↦ rw (gone, other) (held-without ks m j)
    | inr kept ↦ rw (kept, other) (held-without ks m j)
  ]
]

pub has-names : (m : Table) (j : Text) → has (names m) j ≡ is_some (held m j)
has-names [] j = refl
has-names ((k, v) ∷ m) j = elim (Bool-cases (text_eq j k)) [
  | inl same ↦ rw same refl
  | inr other ↦ rw other (has-names m j)
]

abbrev pub table_lawful : Lawful table_api
table_lawful = record {
  view = held;
  get-view = λ k m r. (refl, refl, λ j. refl);
  set-view = λ k v max_age m r. (refl, refl, λ j. refl);
  del_many-view = λ ks m r. (refl, refl, held-without ks m);
  keys-view = λ prefix m r. (names m, refl, refl, λ t. has-names m (prefix ++ t), λ j. refl);
  clear-view = λ m r. (refl, refl, λ j. refl);
}
