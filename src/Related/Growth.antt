-- ===== src/Related/Growth.antt =====
-- packages/plugin-rest-cache/server/src/utils/config/getRelatedModelsUid.ts: the loop ends.
use mathlib.Core.List.{Memᴰ}
use plugin_rest_cache.Prelude.{
  ℕ, zero, suc, ◌+◌, ◌≤◌, ◌<◌, ◌≡◌, refl, sym, ap, ◌∙◌, inl, inr, Bool, true, false, ◌||◌, some,
  List, [], ◌∷◌, ◌++◌, arith, ◌==◌, if◌then◌else◌, Bool-cases, length, any, length-append,
  any-append, All, All-of_Mem, Text, text_eq, text_eq_refl,
}
use plugin_rest_cache.Store.Listing.{has}
use plugin_rest_cache.Related.{
  TraversableSchema, Known, size, reaches_known, visit_component, visit_content_type, each, round,
  rounds,
}

pub has-snoc : (xs : List Text) (u v : Text) → has (xs ++ u ∷ []) v ≡ (has xs v || text_eq v u)
has-snoc xs u v = any-append (text_eq v) xs (u ∷ []) ∙ ground arith

-- The schemas that are not in a set.
abbrev pub missing : List TraversableSchema → List Text → ℕ
missing [] xs = 0
missing (s ∷ ss) xs = (if has xs s.uid then 0 else 1) + missing ss xs

pub missing-le : (ss : List TraversableSchema) (xs : List Text) → missing ss xs ≤ length ss
missing-le [] xs = omega arith
missing-le (s ∷ ss) xs = ground (arith, missing-le ss xs)

missing-snoc :
    (ss : List TraversableSchema) (xs : List Text) (u : Text)
    → missing ss (xs ++ u ∷ []) ≤ missing ss xs
missing-snoc [] xs u = omega arith
missing-snoc (s ∷ ss) xs u = ground (arith, missing-snoc ss xs u, has-snoc xs u s.uid)

missing-found :
    (ss : List TraversableSchema) (xs : List Text) (s : TraversableSchema)
    → Memᴰ s ss
    → has xs s.uid ≡ false
    → missing ss (xs ++ s.uid ∷ []) < missing ss xs
missing-found [] xs s m h = elim m [ ]
missing-found (t ∷ ss) xs s (Memᴰ.head e) h =
    let same : t.uid ≡ s.uid = ap (λ (x : TraversableSchema). x.uid) (sym e) in
    let new : has (xs ++ s.uid ∷ []) t.uid ≡ true =
      has-snoc xs s.uid t.uid ∙ rw same (rw (text_eq_refl s.uid) (ground arith)) in
    let old : has xs t.uid ≡ false = rw same h in ground (arith, missing-snoc ss xs s.uid, new, old)
missing-found (t ∷ ss) xs s (Memᴰ.tail m) h =
    ground (arith, missing-found ss xs s m h, has-snoc xs s.uid t.uid)

module _ (ignore_private : Bool) (components content_types : List TraversableSchema) where
  abbrev pub remaining : Known → ℕ
  remaining k = missing components k.component_uids + missing content_types k.content_type_uids

  -- What is added was missing before.
  abbrev Grows : Known → Known → Type 0
  Grows k k' = (size k ≤ size k') × (size k' + remaining k' ≤ size k + remaining k)

  Grows-trans : (a b c : Known) → Grows a b → Grows b c → Grows a c
  Grows-trans a b c g h = omega arith

  visit_component-Grows :
      (c : TraversableSchema) (k : Known)
      → Memᴰ c components
      → Grows k (visit_component ignore_private c k)
  unfolding visit_component
  visit_component-Grows c k m = elim (Bool-cases (has k.component_uids c.uid)) [
    | inl known ↦ rw known (omega arith)
    | inr new ↦ elim (Bool-cases (any (reaches_known ignore_private k) c.attributes)) [
      | inl reaches ↦
          rw (new, reaches)
            (
              omega (arith, length-append {0} k.component_uids (c.uid ∷ [])),
              omega (
                arith,
                length-append {0} k.component_uids (c.uid ∷ []),
                missing-found components k.component_uids c m new,
              ),
            )
      | inr away ↦ rw (new, away) (omega arith)
    ]
  ]

  visit_content_type-Grows :
      (c : TraversableSchema) (k : Known)
      → Memᴰ c content_types
      → Grows k (visit_content_type ignore_private c k)
  unfolding visit_content_type
  visit_content_type-Grows c k m = elim (Bool-cases (has k.content_type_uids c.uid)) [
    | inl known ↦ rw known (omega arith)
    | inr new ↦ elim (Bool-cases (any (reaches_known ignore_private k) c.attributes)) [
      | inl reaches ↦
          rw (new, reaches)
            (
              omega (arith, length-append {0} k.content_type_uids (c.uid ∷ [])),
              omega (
                arith,
                length-append {0} k.content_type_uids (c.uid ∷ []),
                missing-found content_types k.content_type_uids c m new,
              ),
            )
      | inr away ↦ rw (new, away) (omega arith)
    ]
  ]

  each-Grows :
      (visit : TraversableSchema → Known → Known) (ss cs : List TraversableSchema)
      → ((c : TraversableSchema) (k : Known) → Memᴰ c ss → Grows k (visit c k))
      → All (λ c. Memᴰ c ss) cs
      → (k : Known) → Grows k (each visit cs k)
  unfolding each
  each-Grows visit ss [] f h k = omega arith
  each-Grows visit ss (c ∷ cs) f (m, h) k =
      Grows-trans k (visit c k) (each visit cs (visit c k)) (f c k m)
        (each-Grows visit ss cs f h (visit c k))

  round-Grows : (k : Known) → Grows k (round ignore_private components content_types k)
  unfolding round
  round-Grows k =
      let k' = each (visit_component ignore_private) components k in
      Grows-trans k k' (each (visit_content_type ignore_private) content_types k')
        (each-Grows (visit_component ignore_private) components components visit_component-Grows
          (All-of_Mem (λ c. Memᴰ c components) components (λ c m. m)) k)
        (each-Grows (visit_content_type ignore_private) content_types content_types
          visit_content_type-Grows (All-of_Mem (λ c. Memᴰ c content_types) content_types (λ c m. m))
          k')

  pub rounds-some :
      (f : ℕ) (k : Known)
      → remaining k < f
      → (uids : List Text) × (rounds ignore_private components content_types f k ≡ some uids)
  unfolding rounds
  rounds-some zero k h = absurd (omega arith)
  rounds-some (suc f) k h =
      let k' = round ignore_private components content_types k in
      elim (Bool-cases (size k' == size k)) [
        | inl done ↦ (k'.content_type_uids, rw done refl)
        | inr grew ↦
            let less : remaining k' < f = ground (arith, round-Grows k) in
            let (uids, e) = rounds-some f k' less in (uids, rw grew e)
      ]
