-- ===== src/Tests/PurgeTests.antt =====
-- packages/plugin-rest-cache/server/src: purges of a content type, and the writes that cause them.
use plugin_rest_cache.Prelude.{
  inl, inr, Option-cases, map, ◌⊎◌, ◌≡◌, refl, true, false, not, Option, none, some, List, [], ◌∷◌,
  ◌==◌, drop, filter, Text, lit, text_eq, starts_with,
}
use plugin_rest_cache.Outcome.{resolved}
use plugin_rest_cache.Keys.Config.{all_params}
use plugin_rest_cache.Patterns.{get_route_reg_exp}
use plugin_rest_cache.Purging.{
  CacheContentTypeConfig, CachePluginStrategy, get, get_cache_keys_regexp, uid_regexps, compile_all,
  route_sources, get_routes, clear_by_uid,
}
use plugin_rest_cache.Purging.Cleared.{after_clear, clear_by_uid_lem}
use plugin_rest_cache.Purging.Scope.{created, document, creating, updating}
use plugin_rest_cache.Purging.Triggers.{
  DocumentServiceContext, State, LifecycleEvent, resolve_document_id, Call, embedding, lookup,
  document_service_middleware, lifecycle_purge,
}
use plugin_rest_cache.Purging.Requests.{not_found, content_api}
use plugin_rest_cache.Purging.Written.{Holds, document_service_middleware-cached}
use plugin_rest_cache.Purging.Embedded.{
  Embedders, IsConsistent, after_related, document_service_middleware-uncached,
}
use plugin_rest_cache.Purging.Lifecycle.{Ignored, lifecycle_purge_lem}
use plugin_rest_cache.Related.{TraversableAttribute, TraversableSchema, get_related_models_uid}
use plugin_rest_cache.Response.Decisions.{CacheRouteConfig, is_get}
use plugin_rest_cache.Response.Decisions as Decisions
use plugin_rest_cache.Store.{CacheStore, clear_by_regexp}
use plugin_rest_cache.Store.Clearing.{Leaves}
use plugin_rest_cache.Store.Log.{RegExp, no_purges, record_purge}
use plugin_rest_cache.Store.Table.{Table, table_api, table_lawful, held}

-- A pattern with no special unit but `^` at its start and escapes.
unescaped : Text → Text
unescaped s = filter (λ c. not (c == b'\\')) s

abbrev literal : Text → RegExp
literal source key = starts_with key (drop 1 (unescaped source))

abbrev compile : Text → Option RegExp
compile source = some (literal source)

abbrev route : Text → CacheRouteConfig
route path = record {
  max_age = 1000;
  path = path;
  method = Decisions.get;
  param_names = [];
  keys = record { use_headers = []; use_query_params = all_params; use_auth = false };
  hitpass = Decisions.fixed false;
}

abbrev article : CacheContentTypeConfig
article = record {
  content_type = lit "api::article";
  routes = route (lit "/api/articles") ∷ [];
  related_content_type_uid = lit "api::page" ∷ lit "api::tag" ∷ [];
}

abbrev page : CacheContentTypeConfig
page = record {
  content_type = lit "api::page";
  routes = route (lit "/api/pages") ∷ [];
  related_content_type_uid = [];
}

abbrev strategy : CachePluginStrategy
strategy = record {
  content_types = article ∷ page ∷ [];
  clear_related_cache = true;
  enable_content_api_purge = false;
  enable_admin_ctb_middleware = true;
  enable_document_service_middleware = true;
}

abbrev prefix : Text
prefix = lit "cms:"

abbrev table : Table
table =
    (lit "cms:/api/articles?&", lit "{\"data\":1}")
    ∷ (lit "cms:/api/pages?&", lit "{\"data\":2}")
    ∷ (lit "cms:/api/posts?&", lit "{\"data\":3}")
    ∷ []

abbrev store : CacheStore Table
store = record { provider = some table; purges = no_purges }

abbrev articles : RegExp
articles = literal (lit "^/api/articles\\?")

abbrev pages : RegExp
pages = literal (lit "^/api/pages\\?")

article_found : get strategy (lit "api::article") ≡ some article
unfolding get text_eq
article_found = refl

both_patterns :
    uid_regexps compile strategy article (lit "api::article") (some []) true
    ≡ some (articles ∷ pages ∷ [])
unfolding uid_regexps get_route_reg_exp text_eq is_get
both_patterns = refl

clear_by_uid_lem_example :
    Leaves table_api table_lawful prefix
      (record_purge (some (articles ∷ pages ∷ [])) no_purges)
      (after_clear table_api table_lawful prefix compile strategy article
        (some [])
        true
        (held table))
      (clear_by_uid compile strategy table_api prefix (lit "api::article") (some []) true store)
clear_by_uid_lem_example =
    clear_by_uid_lem table_api table_lawful prefix compile strategy article (lit "api::article")
      (some []) true (articles ∷ pages ∷ []) table no_purges article_found both_patterns refl

abbrev state : State Table (Unit {0})
state = record { store = store; embedded_in = []; world = tt }

-- A write that gives a documentId.
abbrev write : Call Table (Unit {0})
write in_progress s = (resolved (some (lit "d1")), s)

abbrev creation : DocumentServiceContext
creation = record { action = lit "create"; uid = lit "api::article"; document_id = none }

creation_patterns :
    uid_regexps compile strategy article
      (lit "api::article")
      (some ((lit "id", lit "d1") ∷ []))
      false
    ≡ some (articles ∷ pages ∷ [])
unfolding uid_regexps get_route_reg_exp resolve_document_id text_eq is_get
creation_patterns = refl

document_service_middleware-cached_example :
    ((document_service_middleware compile strategy [] [] table_api prefix creation write [] state).0
      ≡ resolved (some (lit "d1")))
    × Holds table_api table_lawful prefix
        (after_clear table_api table_lawful prefix compile strategy article
          (some ((lit "id", lit "d1") ∷ []))
          false
          (held table))
        (document_service_middleware compile strategy [] [] table_api prefix creation write []
          state).1.store
unfolding text_eq
document_service_middleware-cached_example =
    document_service_middleware-cached table_api table_lawful prefix compile strategy [] [] creation
      write [] state state (some (lit "d1")) (some (lit "d1")) (some ((lit "id", lit "d1") ∷ []))
      false article table no_purges (articles ∷ pages ∷ []) creating article_found (created refl)
      (document (lit "d1") (λ e. cc)) refl refl refl creation_patterns

-- Pages embed writers, which are not cached.
abbrev to_writer : TraversableAttribute
to_writer = record {
  type = lit "relation";
  target = some (lit "api::writer");
  component = none;
  components = none;
  private = false;
}

abbrev schemas : List TraversableSchema
schemas = record { uid = lit "api::page"; attributes = to_writer ∷ [] } ∷ []

abbrev update : DocumentServiceContext
update = record { action = lit "update"; uid = lit "api::writer"; document_id = some (lit "w1") }

writers_uncached : get strategy (lit "api::writer") ≡ none
unfolding get text_eq
writers_uncached = refl

pages_embed : embedding compile strategy [] schemas (lit "api::writer") ≡ lit "api::page" ∷ []
unfolding embedding get_related_models_uid text_eq
pages_embed = refl

all_compile : (sources : List Text) → compile_all compile sources ≡ some (map literal sources)
unfolding compile_all
all_compile [] = refl
all_compile (s ∷ sources) = rw (all_compile sources) refl

patterns_compile :
    (u : Text)
    → (rs : List RegExp) × (get_cache_keys_regexp compile strategy u (some []) true ≡ some rs)
unfolding get_cache_keys_regexp
patterns_compile u = elim (Option-cases (get strategy u)) [
  | inl absent ↦ ([], rw (absent, get_cache_keys_regexp) refl)
  | inr (conf, found) ↦ (
    map literal (route_sources (get_routes conf) (some []) true),
    rw (found, get_cache_keys_regexp)
        (all_compile (route_sources (get_routes conf) (some []) true)),
  )
]

nothing_remembered : IsConsistent compile strategy [] schemas []
unfolding lookup
nothing_remembered uid uids e = cc

document_service_middleware-uncached_example :
    ((document_service_middleware compile strategy [] schemas table_api prefix update write []
        state).0
      ≡ resolved (some (lit "d1")))
    × (uids : List Text) × Embedders compile strategy [] schemas (lit "api::writer") uids
    × Holds table_api table_lawful prefix
        (after_related compile strategy prefix uids (held table))
        (document_service_middleware compile strategy [] schemas table_api prefix update write []
          state).1.store
    × IsConsistent compile strategy [] schemas
        (document_service_middleware compile strategy [] schemas table_api prefix update write []
          state).1.embedded_in
document_service_middleware-uncached_example =
    document_service_middleware-uncached table_api table_lawful prefix compile strategy [] schemas
      update write [] state state (some (lit "d1")) table no_purges updating (λ e. cc)
      writers_uncached refl refl nothing_remembered refl refl (λ u c. patterns_compile u)

abbrev removal : LifecycleEvent
removal = record { action = lit "afterDelete"; uid = lit "api::article"; count = none }

lifecycle_purge_lem_example :
    (Ignored strategy [] removal
      × (lifecycle_purge compile strategy [] [] table_api prefix [] removal state ≡ state))
    ⊎ ((¬ Ignored strategy [] removal)
        × Holds table_api table_lawful prefix
            (after_clear table_api table_lawful prefix compile strategy article
              (some [])
              true
              (held table))
            (lifecycle_purge compile strategy [] [] table_api prefix [] removal state).store)
lifecycle_purge_lem_example =
    lifecycle_purge_lem table_api table_lawful prefix compile strategy [] [] [] removal state
      article table no_purges (articles ∷ pages ∷ []) (λ c. article_found) refl refl both_patterns

-- It is one that counts.
removal_purges :
    (lifecycle_purge compile strategy [] [] table_api prefix [] removal state).store.provider
    ≡ some ((lit "cms:/api/posts?&", lit "{\"data\":3}") ∷ [])
unfolding lifecycle_purge clear_by_uid uid_regexps get_route_reg_exp text_eq is_get clear_by_regexp
    starts_with unescaped
removal_purges = refl

endpoint_off :
    content_api compile strategy table_api prefix
      (record { content_type = some (lit "api::article"); params = none; wildcard = none })
      store
    ≡ (not_found, store)
unfolding content_api
endpoint_off = refl
