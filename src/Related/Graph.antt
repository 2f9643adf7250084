-- ===== src/Related/Graph.antt =====
-- packages/plugin-rest-cache/server/src/utils/config/getRelatedModelsUid.ts: what related means.
use mathlib.Core.List.{Memᴰ}
use plugin_rest_cache.Prelude.{◌≡◌, Bool, false, ◌&&◌, some, List, Text, lit}
use plugin_rest_cache.Related.{TraversableAttribute, TraversableSchema}

pub data Node : Type 0 where
  content_type : Text → Node
  component : Text → Node

-- What an attribute refers to.
pub data Points (a : TraversableAttribute) : Node → Type 0 where
  relation :
      (uid : Text) → a.type ≡ lit "relation" → a.target ≡ some uid → Points a (content_type uid)
  embedded :
      (uid : Text) → a.type ≡ lit "component" → a.component ≡ some uid → Points a (component uid)
  zone :
      (uid : Text) (uids : List Text)
      → a.type ≡ lit "dynamiczone"
      → a.components ≡ some uids
      → Memᴰ uid uids
      → Points a (component uid)

module _ (ignore_private : Bool) (components content_types : List TraversableSchema)
    (uid : Text) where
  -- A model with an attribute, not left out as private, that refers to a related one.
  pub data Related : Node → Type 0 where
    self : Related (content_type uid)
    type_refers :
        (s : TraversableSchema) (a : TraversableAttribute) (n : Node)
        → Memᴰ s content_types
        → Memᴰ a s.attributes
        → (ignore_private && a.private) ≡ false
        → Points a n
        → Related n
        → Related (content_type s.uid)
    component_refers :
        (s : TraversableSchema) (a : TraversableAttribute) (n : Node)
        → Memᴰ s components
        → Memᴰ a s.attributes
        → (ignore_private && a.private) ≡ false
        → Points a n
        → Related n
        → Related (component s.uid)
