-- ===== src/Related/Closed.antt =====
-- packages/plugin-rest-cache/server/src/utils/config/getRelatedModelsUid.ts: what the loops keep.
use mathlib.Core.Path.{subst}
use mathlib.Core.List.{Memᴰ}
use plugin_rest_cache.Prelude.{
  ◌≤◌, ◌≡◌, refl, sym, ap, ◌∙◌, ◌⊎◌, inl, inr, Bool, true, List, [], ◌∷◌, ◌++◌, arith, or_cases,
  length-append, All, All-of_Mem, Text, text_eq, text_eq_sound,
}
use plugin_rest_cache.Store.Listing.{has}
use plugin_rest_cache.Related.{
  TraversableSchema, Known, size, visit_component, visit_content_type, each,
}
use plugin_rest_cache.Related.Graph.{Node, content_type, component}
use plugin_rest_cache.Related.Growth.{has-snoc}
use plugin_rest_cache.Related.Fixpoint.{In}

pub snoc_keeps : (xs : List Text) (u v : Text) → has xs v ≡ true → has (xs ++ u ∷ []) v ≡ true
snoc_keeps xs u v h = has-snoc xs u v ∙ rw h refl

pub snoc_cases :
    (xs : List Text) (u v : Text) → has (xs ++ u ∷ []) v ≡ true → (has xs v ≡ true) ⊎ (v ≡ u)
snoc_cases xs u v h = elim (or_cases (has xs v) (text_eq v u) (sym (has-snoc xs u v) ∙ h)) [
  | inl e ↦ inl e
  | inr e ↦ inr (text_eq_sound v u e)
]

-- A loop keeps what every visit keeps.
pub each_keeps {κ} :
    (P : Known → Type κ) (visit : TraversableSchema → Known → Known)
    (ss cs : List TraversableSchema)
    → ((s : TraversableSchema) (k : Known) → Memᴰ s ss → P k → P (visit s k))
    → All (λ s. Memᴰ s ss) cs
    → (k : Known) → P k
    → P (each visit cs k)
unfolding each
each_keeps P visit ss [] f h k p = p
each_keeps P visit ss (c ∷ cs) f (m, h) k p = each_keeps P visit ss cs f h (visit c k) (f c k m p)

pub each_settled {κ} :
    (P : Known → TraversableSchema → Type κ) (visit : TraversableSchema → Known → Known)
    → ((s : TraversableSchema) (k : Known) → size k ≤ size (visit s k))
    → ((s : TraversableSchema) (k : Known) → size (visit s k) ≡ size k → (visit s k ≡ k) × P k s)
    → (cs : List TraversableSchema) (k : Known) → size (each visit cs k) ≡ size k
    → (each visit cs k ≡ k) × All (P k) cs
unfolding each
each_settled P visit mono settle [] k e = (refl, tt)
each_settled P visit mono settle (c ∷ cs) k e =
    let later : size (visit c k) ≤ size (each visit cs (visit c k)) =
      each_keeps (λ k'. size (visit c k) ≤ size k') visit cs cs
        (λ s k' m le. omega (arith, mono s k')) (All-of_Mem (λ s. Memᴰ s cs) cs (λ s m. m))
        (visit c k) (omega arith) in
    let (same, here) = settle c k (omega (arith, mono c k)) in
    let (rest, all) =
      each_settled P visit mono settle cs k (subst (λ x. size (each visit cs x) ≡ size k) same e) in
    (ap (each visit cs) same ∙ rest, (here, all))

module _ (ignore_private : Bool) where
  pub visit_component-le :
      (s : TraversableSchema) (k : Known) → size k ≤ size (visit_component ignore_private s k)
  unfolding visit_component
  visit_component-le s k = ground (arith, length-append k.component_uids (s.uid ∷ []))

  pub visit_content_type-le :
      (s : TraversableSchema) (k : Known) → size k ≤ size (visit_content_type ignore_private s k)
  unfolding visit_content_type
  visit_content_type-le s k = ground (arith, length-append k.content_type_uids (s.uid ∷ []))

  pub visit_component-In :
      (n : Node) (s : TraversableSchema) (k : Known)
      → In k n
      → In (visit_component ignore_private s k) n
  unfolding visit_component
  visit_component-In (content_type u) s k h = ground arith
  visit_component-In (component u) s k h = ground (arith, snoc_keeps k.component_uids s.uid u)

  pub visit_content_type-In :
      (n : Node) (s : TraversableSchema) (k : Known)
      → In k n
      → In (visit_content_type ignore_private s k) n
  unfolding visit_content_type
  visit_content_type-In (content_type u) s k h =
      ground (arith, snoc_keeps k.content_type_uids s.uid u)
  visit_content_type-In (component u) s k h = ground arith
