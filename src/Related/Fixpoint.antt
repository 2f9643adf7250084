-- ===== src/Related/Fixpoint.antt =====
-- packages/plugin-rest-cache/server/src/utils/config/getRelatedModelsUid.ts: it finds what is related.
use mathlib.Core.List.{Memᴰ}
use plugin_rest_cache.Prelude.{
  ◌+◌, ◌≡◌, refl, inl, inr, Bool, true, false, ◌&&◌, not, Option, none, some, List, [], ◌∷◌, ◌++◌,
  arith, Bool-cases, or_cases, and_parts, not_iff, length, any, length-append, any-of_Mem,
  Mem-of_any, Text, lit, text_eq, text_eq_sound,
}
use plugin_rest_cache.Keys.Config.{default_to}
use plugin_rest_cache.Store.Listing.{has}
use plugin_rest_cache.Related.{
  TraversableAttribute, TraversableSchema, Known, has_optional, size, reaches_known,
  visit_component, visit_content_type,
}
use plugin_rest_cache.Related.Graph.{
  Node, content_type, component, Points, relation, embedded, zone,
}

-- A node that is in its set.
abbrev pub In : Known → Node → Type 0
In k (content_type u) = has k.content_type_uids u ≡ true
In k (component u) = has k.component_uids u ≡ true

optional_known :
    (xs : List Text) (o : Option Text)
    → has_optional xs o ≡ true
    → (u : Text) × (o ≡ some u) × (has xs u ≡ true)
optional_known xs none h = cc
optional_known xs (some u) h = (u, refl, h)

zone_known :
    (xs : List Text) (o : Option (List Text))
    → any (has xs) (default_to [] o) ≡ true
    → (uids : List Text) × (u : Text) × (o ≡ some uids) × Memᴰ u uids × (has xs u ≡ true)
zone_known xs none h = cc
zone_known xs (some uids) h = let (u, m, e) = Mem-of_any (has xs) uids h in (uids, u, refl, m, e)

module _ (ignore_private : Bool) where
  pub reaches_parts :
      (k : Known) (a : TraversableAttribute)
      → reaches_known ignore_private k a ≡ true
      → (n : Node) × ((ignore_private && a.private) ≡ false) × Points a n × In k n
  unfolding reaches_known
  reaches_parts k a h =
      let (visible, reach) = and_parts (not (ignore_private && a.private)) _ h in
      let v = (not_iff (ignore_private && a.private)).0 visible in
      elim (or_cases (text_eq a.type (lit "relation") && has_optional k.content_type_uids a.target)
        _ reach) [
          | inl r ↦
              let (t, found) = and_parts (text_eq a.type (lit "relation")) _ r in
              let (u, e, i) = optional_known k.content_type_uids a.target found in
              (content_type u, v, relation u (text_eq_sound a.type (lit "relation") t) e, i)
          | inr reach' ↦
              elim (or_cases
                (text_eq a.type (lit "component") && has_optional k.component_uids a.component) _
                reach') [
                  | inl r ↦
                      let (t, found) = and_parts (text_eq a.type (lit "component")) _ r in
                      let (u, e, i) = optional_known k.component_uids a.component found in
                      (component u, v, embedded u (text_eq_sound a.type (lit "component") t) e, i)
                  | inr r ↦
                      let (t, found) = and_parts (text_eq a.type (lit "dynamiczone")) _ r in
                      let (uids, u, e, m, i) = zone_known k.component_uids a.components found in
                      (
                        component u,
                        v,
                        zone u uids (text_eq_sound a.type (lit "dynamiczone") t) e m,
                        i,
                      )
                ]
        ]

  pub reaches_of :
      (k : Known) (a : TraversableAttribute) {n : Node}
      → (ignore_private && a.private) ≡ false
      → Points a n
      → In k n
      → reaches_known ignore_private k a ≡ true
  unfolding reaches_known text_eq
  reaches_of k a v (relation u t e) i = rw (v, t, e, i) refl
  reaches_of k a v (embedded u t e) i = rw (v, t, e, i) refl
  reaches_of k a v (zone u uids t e m) i =
      rw (v, t, e, any-of_Mem (has k.component_uids) u uids m i) refl

-- Adding nothing means that nothing was to be added.
abbrev pub Settled : Bool → List Text → Known → TraversableSchema → Type 0
Settled ignore_private uids k s =
    any (reaches_known ignore_private k) s.attributes ≡ true → has uids s.uid ≡ true

longer : (xs : List Text) (u : Text) → length (xs ++ u ∷ []) ≡ length xs + 1
longer xs u = omega (arith, length-append xs (u ∷ []))

module _ (ignore_private : Bool) where
  pub component-Settled :
      (s : TraversableSchema) (k : Known)
      → size (visit_component ignore_private s k) ≡ size k
      → (visit_component ignore_private s k ≡ k) × Settled ignore_private k.component_uids k s
  unfolding visit_component
  component-Settled s k e = elim (Bool-cases (has k.component_uids s.uid)) [
    | inl known ↦ (rw known refl, λ r. known)
    | inr new ↦ elim (Bool-cases (any (reaches_known ignore_private k) s.attributes)) [
      | inl reaches ↦ absurd (omega (arith, rw (new, reaches) at e, longer k.component_uids s.uid))
      | inr away ↦ (rw (new, away) refl, λ r. cc)
    ]
  ]

  pub content_type-Settled :
      (s : TraversableSchema) (k : Known)
      → size (visit_content_type ignore_private s k) ≡ size k
      → (visit_content_type ignore_private s k ≡ k) × Settled ignore_private k.content_type_uids k s
  unfolding visit_content_type
  content_type-Settled s k e = elim (Bool-cases (has k.content_type_uids s.uid)) [
    | inl known ↦ (rw known refl, λ r. known)
    | inr new ↦ elim (Bool-cases (any (reaches_known ignore_private k) s.attributes)) [
      | inl reaches ↦
          absurd (omega (arith, rw (new, reaches) at e, longer k.content_type_uids s.uid))
      | inr away ↦ (rw (new, away) refl, λ r. cc)
    ]
  ]
