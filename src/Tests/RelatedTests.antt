-- ===== src/Tests/RelatedTests.antt =====
-- packages/plugin-rest-cache/server/src/utils/config/getRelatedModelsUid.ts: a schema with a chain.
use plugin_rest_cache.Prelude.{
  ◌≡◌, refl, ◌↔◌, true, false, none, some, List, [], ◌∷◌, Text, lit, text_eq,
}
use plugin_rest_cache.Store.Listing.{has}
use plugin_rest_cache.Related.{TraversableAttribute, TraversableSchema, get_related_models_uid}
use plugin_rest_cache.Related.Graph.{Related, content_type}
use plugin_rest_cache.Related.Exact.{get_related_models_uid_lem}

abbrev to_author : TraversableAttribute
to_author = record {
  type = lit "relation";
  target = some (lit "author");
  component = none;
  components = none;
  private = false;
}

abbrev to_card : TraversableAttribute
to_card = record {
  type = lit "dynamiczone";
  target = none;
  component = none;
  components = some (lit "card" ∷ []);
  private = false;
}

abbrev card : TraversableSchema
card = record { uid = lit "card"; attributes = to_author ∷ [] }

abbrev page : TraversableSchema
page = record { uid = lit "page"; attributes = to_card ∷ [] }

abbrev tag : TraversableSchema
tag = record { uid = lit "tag"; attributes = [] }

-- A page reaches the author through the card in its dynamic zone.
author_pages :
    get_related_models_uid false (card ∷ []) (tag ∷ page ∷ []) (lit "author")
    ≡ some (lit "author" ∷ lit "page" ∷ [])
unfolding get_related_models_uid text_eq
author_pages = refl

get_related_models_uid_lem_example :
    (uids : List Text) × (get_related_models_uid false (card ∷ []) (tag ∷ page ∷ []) (lit "author")
      ≡ some uids)
    × ((u : Text)
        → (has uids u ≡ true)
          ↔ Related false (card ∷ []) (tag ∷ page ∷ []) (lit "author") (content_type u))
get_related_models_uid_lem_example =
    get_related_models_uid_lem false (card ∷ []) (tag ∷ page ∷ []) (lit "author") (λ e. cc)
