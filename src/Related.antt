-- ===== src/Related.antt =====
-- packages/plugin-rest-cache/server/src/utils/config/getRelatedModelsUid.ts
pub mod Graph
pub mod Growth
pub mod Fixpoint
pub mod Closed
pub mod Exact
use plugin_rest_cache.Prelude.{
  ℕ, zero, suc, ◌+◌, Bool, false, ◌&&◌, ◌||◌, not, Option, none, some, List, [], ◌∷◌, ◌++◌, ◌==◌,
  if◌then◌else◌, length, any, Text, lit, text_eq,
}
use plugin_rest_cache.Store.Listing.{has}
use plugin_rest_cache.Keys.Config.{default_to}

-- `private` is the test `attribute.private === true`.
pub record TraversableAttribute : Type 0 where
  pub type : Text
  pub target : Option Text
  pub component : Option Text
  pub components : Option (List Text)
  pub private : Bool

pub record TraversableSchema : Type 0 where
  pub uid : Text
  pub attributes : List TraversableAttribute

-- The two sets, in the order of insertion.
pub record Known : Type 0 where
  pub content_type_uids : List Text
  pub component_uids : List Text

abbrev pub has_optional : List Text → Option Text → Bool
has_optional uids none = false
has_optional uids (some uid) = has uids uid

-- `contentTypeUids.size + componentUids.size`
abbrev pub size : Known → ℕ
size k = length k.content_type_uids + length k.component_uids

module _ (ignore_private : Bool) where
  unfoldable pub reaches_known : Known → TraversableAttribute → Bool
  reaches_known k a =
      not (ignore_private && a.private)
      && ((text_eq a.type (lit "relation") && has_optional k.content_type_uids a.target)
          || ((text_eq a.type (lit "component") && has_optional k.component_uids a.component)
              || (text_eq a.type (lit "dynamiczone")
                  && any (has k.component_uids) (default_to [] a.components))))

  unfoldable pub visit_component : TraversableSchema → Known → Known
  unfolding reaches_known
  visit_component c k =
      if has k.component_uids c.uid
      then k
      else if any (reaches_known k) c.attributes
      then record k { component_uids = k.component_uids ++ c.uid ∷ [] }
      else k

  unfoldable pub visit_content_type : TraversableSchema → Known → Known
  unfolding reaches_known
  visit_content_type c k =
      if has k.content_type_uids c.uid
      then k
      else if any (reaches_known k) c.attributes
      then record k { content_type_uids = k.content_type_uids ++ c.uid ∷ [] }
      else k

-- A loop over schemas.
unfoldable pub each : (TraversableSchema → Known → Known) → List TraversableSchema → Known → Known
each visit [] k = k
each visit (c ∷ cs) k = each visit cs (visit c k)

module _ (ignore_private : Bool) (components content_types : List TraversableSchema) where
  -- One round of the outer loop.
  unfoldable pub round : Known → Known
  unfolding each visit_component visit_content_type
  round k =
      each (visit_content_type ignore_private) content_types
        (each (visit_component ignore_private) components k)

  -- The outer loop on fuel; `none` means that the fuel ran out.
  unfoldable pub rounds : ℕ → Known → Option (List Text)
  unfolding round
  rounds zero k = none
  rounds (suc f) k =
      let k' = round k in
      let rest = rounds f k' in if size k' == size k then some k'.content_type_uids else rest

  -- Each round but the last adds a schema, so there are at most as many as schemas and one more.
  unfoldable pub get_related_models_uid : Text → Option (List Text)
  unfolding rounds
  get_related_models_uid [] = some []
  get_related_models_uid (c ∷ uid) =
      rounds (length components + length content_types + 1)
        (record { content_type_uids = (c ∷ uid) ∷ []; component_uids = [] })
