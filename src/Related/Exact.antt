-- ===== src/Related/Exact.antt =====
-- packages/plugin-rest-cache/server/src/utils/config/getRelatedModelsUid.ts: exactly what is related.
use mathlib.Core.Path.{subst}
use mathlib.Core.List.{Memᴰ}
use plugin_rest_cache.Prelude.{
  some_injective, ℕ, zero, suc, ◌+◌, ◌≤◌, ◌≡◌, refl, sym, ap, ◌∙◌, ◌≢◌, ◌↔◌, inl, inr, Bool, true,
  false, ◌&&◌, some, List, [], ◌∷◌, ◌++◌, arith, ◌==◌, ==_iff, Bool-cases, or_cases, length, any,
  any-of_Mem, Mem-of_any, All, All-of_Mem, Text, text_eq, text_eq_sound, text_eq_refl,
}
use plugin_rest_cache.Store.Listing.{has}
use plugin_rest_cache.Related.{
  TraversableAttribute, TraversableSchema, Known, size, reaches_known, visit_component,
  visit_content_type, each, round, rounds, get_related_models_uid,
}
use plugin_rest_cache.Related.Graph.{
  Node, content_type, component, Points, Related, self, type_refers, component_refers,
}
use plugin_rest_cache.Related.Growth.{rounds-some, missing-le}
use plugin_rest_cache.Related.Fixpoint.{
  In, reaches_parts, reaches_of, Settled, component-Settled, content_type-Settled,
}
use plugin_rest_cache.Related.Closed.{
  snoc_cases, each_keeps, each_settled, visit_component-le, visit_content_type-le,
  visit_component-In, visit_content_type-In,
}

All-at {κ} :
    (P : TraversableSchema → Type κ) (ss : List TraversableSchema)
    → All P ss
    → (s : TraversableSchema) → Memᴰ s ss
    → P s
All-at P [] h s m = elim m [ ]
All-at P (t ∷ ss) (here, h) s (Memᴰ.head e) = subst P (sym e) here
All-at P (t ∷ ss) (here, h) s (Memᴰ.tail m) = All-at P ss h s m

module _ (ignore_private : Bool) (components content_types : List TraversableSchema)
    (uid : Text) where
  abbrev IsRelated : Node → Type 0
  IsRelated = Related ignore_private components content_types uid

  -- Every known model is related.
  abbrev AreRelated : Known → Type 0
  AreRelated k = (n : Node) → In k n → IsRelated n

  reaching :
      (k : Known) (attributes : List TraversableAttribute)
      → AreRelated k
      → any (reaches_known ignore_private k) attributes ≡ true
      → (a : TraversableAttribute) × (n : Node) × Memᴰ a attributes
        × ((ignore_private && a.private) ≡ false)
        × Points a n
        × IsRelated n
  reaching k attributes r h =
      let (a, m, e) = Mem-of_any (reaches_known ignore_private k) attributes h in
      let (n, v, p, i) = reaches_parts ignore_private k a e in (a, n, m, v, p, r n i)

  component_added :
      (s : TraversableSchema) (k : Known)
      → AreRelated k
      → IsRelated (component s.uid)
      → AreRelated (record k { component_uids = k.component_uids ++ s.uid ∷ [] })
  component_added s k r found (content_type u) h = r (content_type u) h
  component_added s k r found (component u) h = elim (snoc_cases k.component_uids s.uid u h) [
    | inl old ↦ r (component u) old
    | inr same ↦ subst (λ x. IsRelated (component x)) (sym same) found
  ]

  content_type_added :
      (s : TraversableSchema) (k : Known)
      → AreRelated k
      → IsRelated (content_type s.uid)
      → AreRelated (record k { content_type_uids = k.content_type_uids ++ s.uid ∷ [] })
  content_type_added s k r found (component u) h = r (component u) h
  content_type_added s k r found (content_type u) h =
      elim (snoc_cases k.content_type_uids s.uid u h) [
        | inl old ↦ r (content_type u) old
        | inr same ↦ subst (λ x. IsRelated (content_type x)) (sym same) found
      ]

  visit_component-AreRelated :
      (s : TraversableSchema) (k : Known)
      → Memᴰ s components
      → AreRelated k
      → AreRelated (visit_component ignore_private s k)
  unfolding visit_component
  visit_component-AreRelated s k m r = elim (Bool-cases (has k.component_uids s.uid)) [
    | inl known ↦ rw known r
    | inr new ↦ elim (Bool-cases (any (reaches_known ignore_private k) s.attributes)) [
      | inr away ↦ rw (new, away) r
      | inl reaches ↦
          let (a, n, ma, v, p, rn) = reaching k s.attributes r reaches in
          let found : IsRelated (component s.uid) = component_refers s a n m ma v p rn in
          rw (new, reaches) (component_added s k r found)
    ]
  ]

  visit_content_type-AreRelated :
      (s : TraversableSchema) (k : Known)
      → Memᴰ s content_types
      → AreRelated k
      → AreRelated (visit_content_type ignore_private s k)
  unfolding visit_content_type
  visit_content_type-AreRelated s k m r = elim (Bool-cases (has k.content_type_uids s.uid)) [
    | inl known ↦ rw known r
    | inr new ↦ elim (Bool-cases (any (reaches_known ignore_private k) s.attributes)) [
      | inr away ↦ rw (new, away) r
      | inl reaches ↦
          let (a, n, ma, v, p, rn) = reaching k s.attributes r reaches in
          let found : IsRelated (content_type s.uid) = type_refers s a n m ma v p rn in
          rw (new, reaches) (content_type_added s k r found)
    ]
  ]

  All-of : (ss : List TraversableSchema) → All (λ s. Memᴰ s ss) ss
  All-of ss = All-of_Mem (λ s. Memᴰ s ss) ss (λ s m. m)

  round_keeps {κ} :
      (P : Known → Type κ)
      → ((s : TraversableSchema) (k : Known)
          → Memᴰ s components
          → P k
          → P (visit_component ignore_private s k))
      → ((s : TraversableSchema) (k : Known)
          → Memᴰ s content_types
          → P k
          → P (visit_content_type ignore_private s k))
      → (k : Known) → P k
      → P (round ignore_private components content_types k)
  unfolding round
  round_keeps P f g k p =
      each_keeps P (visit_content_type ignore_private) content_types content_types g
        (All-of content_types) (each (visit_component ignore_private) components k)
        (each_keeps P (visit_component ignore_private) components components f (All-of components) k
          p)

  -- A round that adds nothing has every related model.
  abbrev Closed : Known → Type 0
  Closed k =
      All (Settled ignore_private k.component_uids k) components
      × All (Settled ignore_private k.content_type_uids k) content_types

  round_settled :
      (k : Known)
      → size (round ignore_private components content_types k) ≡ size k
      → (round ignore_private components content_types k ≡ k) × Closed k
  unfolding round
  round_settled k e =
      let k1 = each (visit_component ignore_private) components k in
      let up : size k ≤ size k1 =
        each_keeps (λ k'. size k ≤ size k') (visit_component ignore_private) components components
          (λ s k' m le. omega (arith, visit_component-le ignore_private s k')) (All-of components) k
          (omega arith) in
      let up1 : size k1 ≤ size (each (visit_content_type ignore_private) content_types k1) =
        each_keeps (λ k'. size k1 ≤ size k') (visit_content_type ignore_private) content_types
          content_types (λ s k' m le. omega (arith, visit_content_type-le ignore_private s k'))
          (All-of content_types) k1 (omega arith) in
      let (same, settled) =
        each_settled (λ k' s. Settled ignore_private k'.component_uids k' s)
          (visit_component ignore_private) (visit_component-le ignore_private)
          (component-Settled ignore_private) components k (omega arith) in
      let (same1, settled1) =
        each_settled (λ k' s. Settled ignore_private k'.content_type_uids k' s)
          (visit_content_type ignore_private) (visit_content_type-le ignore_private)
          (content_type-Settled ignore_private) content_types k1 (omega arith) in
      (
        same1 ∙ same,
        (
          settled,
          subst (λ k'. All (Settled ignore_private k'.content_type_uids k') content_types) same
              settled1,
        ),
      )

  known_related :
      (k : Known) → In k (content_type uid) → Closed k → (n : Node) → IsRelated n → In k n
  known_related k start closed _ self = start
  known_related k start closed _ (type_refers s a n ms ma v p r) =
      let reach = reaches_of ignore_private k a v p (known_related k start closed n r) in
      All-at (Settled ignore_private k.content_type_uids k) content_types closed.1 s ms
        (any-of_Mem (reaches_known ignore_private k) a s.attributes ma reach)
  known_related k start closed _ (component_refers s a n ms ma v p r) =
      let reach = reaches_of ignore_private k a v p (known_related k start closed n r) in
      All-at (Settled ignore_private k.component_uids k) components closed.0 s ms
        (any-of_Mem (reaches_known ignore_private k) a s.attributes ma reach)

  rounds_exact :
      (f : ℕ) (k : Known) (uids : List Text)
      → AreRelated k
      → In k (content_type uid)
      → rounds ignore_private components content_types f k ≡ some uids
      → (u : Text) → (has uids u ≡ true) ↔ IsRelated (content_type u)
  unfolding rounds
  rounds_exact zero k uids r start e u = cc
  rounds_exact (suc f) k uids r start e u =
      let k' = round ignore_private components content_types k in
      let r' =
        round_keeps AreRelated visit_component-AreRelated visit_content_type-AreRelated k r in
      let start' =
        round_keeps (λ x. In x (content_type uid))
          (λ s x m. visit_component-In ignore_private (content_type uid) s x)
          (λ s x m. visit_content_type-In ignore_private (content_type uid) s x) k start in
      elim (Bool-cases (size k' == size k)) [
        | inr grew ↦ rounds_exact f k' uids r' start' (rw grew at e) u
        | inl done ↦
            let (same, closed) = round_settled k ((==_iff (size k') (size k)).0 done) in
            let result : k'.content_type_uids ≡ uids = some_injective (rw done at e) in
            (
              λ h. r' (content_type u) (subst (λ x. has x u ≡ true) (sym result) h),
              λ q.
                  subst (λ x. has x u ≡ true)
                    (ap (λ (x : Known). x.content_type_uids) (sym same) ∙ result)
                    (known_related k start closed (content_type u) q),
            )
      ]

module _ (ignore_private : Bool) (components content_types : List TraversableSchema) where
  started :
      (uid : Text)
      → AreRelated ignore_private components content_types uid
          (record { content_type_uids = uid ∷ []; component_uids = [] })
  started uid (component u) h = cc
  started uid (content_type u) h = elim (or_cases (text_eq u uid) false h) [
    | inl e ↦
        subst (λ x. Related ignore_private components content_types uid (content_type x))
          (sym (text_eq_sound u uid e)) self
    | inr e ↦ cc
  ]

  -- For a uid that is not empty the search ends, and gives exactly the content types that lead to it
  -- over relations, components and dynamic zones, private attributes left out if they are ignored.
  pub get_related_models_uid_lem :
      (uid : Text)
      → uid ≢ []
      → (uids : List Text) × (get_related_models_uid ignore_private components content_types uid
          ≡ some uids)
        × ((u : Text)
            → (has uids u ≡ true)
              ↔ Related ignore_private components content_types uid (content_type u))
  unfolding get_related_models_uid
  get_related_models_uid_lem [] h = absurd (h refl)
  get_related_models_uid_lem (c ∷ uid) h =
      let k : Known = record { content_type_uids = (c ∷ uid) ∷ []; component_uids = [] } in
      let fuel : ℕ = length components + length content_types + 1 in
      let (uids, e) =
        rounds-some ignore_private components content_types fuel k
          (omega (arith, missing-le components [], missing-le content_types ((c ∷ uid) ∷ []))) in
      (
        uids,
        e,
        rounds_exact ignore_private components content_types (c ∷ uid) fuel k uids
            (started (c ∷ uid)) (rw (text_eq_refl (c ∷ uid)) refl) e,
      )
