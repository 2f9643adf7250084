-- ===== src/Tests/ProviderTests.antt =====
-- The providers and the route table at concrete inputs.
use plugin_rest_cache.Prelude.{
  ◌≡◌, refl, ◌∙◌, true, false, none, some, List, [], ◌∷◌, map, arith, if◌then◌else◌, Text, lit,
  text_eq,
}
use plugin_rest_cache.Outcome.{fulfils}
use plugin_rest_cache.Response.Decisions.{get}
use plugin_rest_cache.Store.Table.{Table, table_api, held, held-without}
use plugin_rest_cache.Providers.Base.{default_del_many}
use plugin_rest_cache.Providers.Batches.{Deleted, default_del_many_lem}
use plugin_rest_cache.Routes.{FlattenedRoute, array, Containers, nil, cons, Plugin, flatten_routes}
use plugin_rest_cache.Routes.Mounted.{Mounted}

abbrev table : Table
table = (lit "a", lit "1") ∷ (lit "b", lit "2") ∷ (lit "c", lit "3") ∷ []

deletes_one :
    (k : Text) (p : Table)
    → true ≡ true
    → ((table_api.del k p).0 ≡ fulfils tt)
      × (true ≡ true)
      × ((j : Text) → held (table_api.del k p).1 j ≡ (if text_eq j k then none else held p j))
deletes_one k p r = (refl, refl, λ j. held-without (k ∷ []) p j ∙ ground arith)

default_del_many_lem_example :
    Deleted table_api.del held
      (λ p. true)
      deletes_one
      (lit "a" ∷ lit "c" ∷ [])
      table
      (default_del_many table_api.del (lit "a" ∷ lit "c" ∷ []) table)
default_del_many_lem_example =
    default_del_many_lem table_api.del held (λ p. true) deletes_one (lit "a" ∷ lit "c" ∷ []) table
      refl

abbrev users : FlattenedRoute
users = record {
  method = get;
  path = lit "/users";
  global_path = none;
  own_prefix = true;
  middlewares = none;
}

abbrev articles : FlattenedRoute
articles = record {
  method = get;
  path = lit "/articles";
  global_path = none;
  own_prefix = false;
  middlewares = none;
}

abbrev apis : Containers
apis = cons (array (articles ∷ [])) nil

abbrev plugins : List Plugin
plugins =
    record {
      name = lit "users-permissions";
      routers =
          record { routes = some (users ∷ []); type = some (lit "content-api"); prefix = none }
          ∷ [];
    }
    ∷ []

mounted_paths :
    map (λ (r : FlattenedRoute). r.global_path) (flatten_routes (lit "/api") apis plugins)
    ≡ some (lit "/api/articles") ∷ some (lit "/api/users") ∷ []
unfolding flatten_routes text_eq
mounted_paths = refl
