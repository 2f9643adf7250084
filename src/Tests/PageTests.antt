-- ===== src/Tests/PageTests.antt =====
-- A write, and the requests that are not answered from the cache after it.
use mathlib.Core.List.{Memᴰ}
use plugin_rest_cache.Tests.RecvTests.{koa, koa_laws, md5, unanswered}
use plugin_rest_cache.Tests.RecvTests as RecvTests
use plugin_rest_cache.Json.{Json, str}
use plugin_rest_cache.Response.{value, Response}
use plugin_rest_cache.Response.Cacheable.{is_cacheable, cacheable}
use plugin_rest_cache.Response.Decisions.{should_lookup}
use plugin_rest_cache.Recv.{Server, pending, returned}
use plugin_rest_cache.Recv.Handler.{recv}
use plugin_rest_cache.Recv.Endings.{set_x_cache}
use plugin_rest_cache.Recv.Quiet.{quiet, answering}
use plugin_rest_cache.Recv.Settled.{missed}
use plugin_rest_cache.Recv.Renewed.{document_service_middleware-recv}
use plugin_rest_cache.Prelude.{
  ◌≢◌, text_eq_iff, ◌≡◌, refl, true, false, Option, none, some, List, [], ◌∷◌, arith, Text, lit,
  text_eq, starts_with, Free-of_every,
}
use plugin_rest_cache.Context.{Request, to_lower_case}
use plugin_rest_cache.Keys.{generate_cache_key}
use plugin_rest_cache.Keys.Config.{all_params}
use plugin_rest_cache.Keys.Path.{request_path}
use plugin_rest_cache.Outcome.{resolved}
use plugin_rest_cache.Patterns.{get_route_reg_exp}
use plugin_rest_cache.Patterns.Given.{filled}
use plugin_rest_cache.Patterns.Matcher.{reg_exp}
use plugin_rest_cache.Patterns.Pieces.{pieces}
use plugin_rest_cache.Patterns.Sources.{has_empty_segment}
use plugin_rest_cache.Patterns.Values.{is_special, is_path_literal, is_sent_either_way, array_from}
use plugin_rest_cache.Purging.{
  CacheContentTypeConfig, CachePluginStrategy, get, uid_regexps, clear_by_uid,
}
use plugin_rest_cache.Purging.Pages.{Shows, page, document_service_middleware-Shows}
use plugin_rest_cache.Purging.Scope.{Writes, Scopes, named, document, updating}
use plugin_rest_cache.Purging.Triggers.{
  DocumentServiceContext, resolve_document_id, State, Call, document_service_middleware,
}
use plugin_rest_cache.Response.Decisions.{CacheRouteConfig, is_get}
use plugin_rest_cache.Response.Decisions as Decisions
use plugin_rest_cache.Store.{read_entry, clear_by_regexp}
use plugin_rest_cache.Store.Log.{RegExp, no_purges}
use plugin_rest_cache.Store.Table.{Table, table_api, table_lawful}

abbrev refused : Text → Option RegExp
refused source = none

abbrev one : CacheRouteConfig
one = record {
  max_age = 1000;
  path = lit "/api/articles/:id";
  method = Decisions.get;
  param_names = lit "id" ∷ [];
  keys = record { use_headers = []; use_query_params = all_params; use_auth = false };
  hitpass = Decisions.fixed false;
}

abbrev article : CacheContentTypeConfig
article = record {
  content_type = lit "api::article";
  routes = one ∷ [];
  related_content_type_uid = [];
}

abbrev strategy : CachePluginStrategy
strategy = record {
  content_types = article ∷ [];
  clear_related_cache = true;
  enable_content_api_purge = false;
  enable_admin_ctb_middleware = true;
  enable_document_service_middleware = true;
}

abbrev table : Table
table =
    (lit "cms:/api/articles/d1?&&", lit "{\"data\":1}")
    ∷ (lit "cms:/api/articles/d2?&&", lit "{\"data\":2}")
    ∷ []

abbrev state : State Table (Unit {0})
state = record {
  store = record { provider = some table; purges = no_purges };
  embedded_in = [];
  world = tt;
}

abbrev update : DocumentServiceContext
update = record { action = lit "update"; uid = lit "api::article"; document_id = some (lit "D1") }

abbrev write : Call Table (Unit {0})
write in_progress s = (resolved (some (lit "D1")), s)

abbrev patterns : List RegExp
patterns =
    elim (uid_regexps (reg_exp refused) strategy article (lit "api::article")
      (some ((lit "id", lit "D1") ∷ [])) false) [ none ↦ [] | some rs ↦ rs ]

update_compiles :
    uid_regexps
      (reg_exp refused)
      strategy
      article
      (lit "api::article")
      (some ((lit "id", lit "D1") ∷ []))
      false
    ≡ some patterns
unfolding uid_regexps get_route_reg_exp resolve_document_id text_eq is_get reg_exp
update_compiles = refl

unequal : (s t : Text) → text_eq s t ≡ false → s ≢ t
unequal s t h e = cc ((text_eq_iff s t).1 e, h)

update_Writes : Writes update (some (lit "D1")) (some (lit "D1"))
unfolding text_eq
update_Writes =
    named (unequal (lit "update") (lit "create") refl) (unequal (lit "update") (lit "clone") refl)

d1_Scopes : Scopes (some (lit "D1")) (some ((lit "id", lit "D1") ∷ [])) false
d1_Scopes = document (lit "D1") (λ e. cc)

abbrev asking : Request
asking = record { path = lit "/api/articles/D1"; query = []; header = []; auth = none }

one-Shows : Shows one (request_path asking.path) (some (lit "D1"))
unfolding resolve_document_id text_eq filled pieces array_from is_path_literal is_sent_either_way
    is_special has_empty_segment request_path to_lower_case
one-Shows =
    page (lit "D1")
      (
        omega arith,
        (
          (omega arith, refl, λ e. absurd (omega arith)),
          ((omega arith, refl, λ e. absurd (omega arith)), tt),
        ),
      )
      (omega arith)
      (
        refl,
        (
          refl,
          (
            refl,
            (
              refl,
              (
                refl,
                (refl, (refl, (refl, (refl, (refl, (refl, (refl, (refl, ((refl, refl), tt))))))))),
              ),
            ),
          ),
        ),
      )
      refl refl

-- The entry of the document is gone, that of another one is left.
page_gone :
    (document_service_middleware
      (reg_exp refused)
      strategy
      []
      []
      table_api
      (lit "cms:")
      update
      write
      []
      state).1.store.provider
    ≡ some ((lit "cms:/api/articles/d2?&&", lit "{\"data\":2}") ∷ [])
unfolding document_service_middleware get_route_reg_exp text_eq is_get reg_exp clear_by_uid
    clear_by_regexp starts_with
page_gone = refl

document_service_middleware-Shows_example :
    (read_entry table_api
      (lit "cms:")
      (generate_cache_key asking one.keys)
      (document_service_middleware
        (reg_exp refused)
        strategy
        []
        []
        table_api
        (lit "cms:")
        update
        write
        []
        state).1.store).0
    ≡ none
unfolding text_eq get is_get
document_service_middleware-Shows_example =
    document_service_middleware-Shows table_api table_lawful (lit "cms:") refused strategy [] []
      update write [] state state (some (lit "D1")) (some (lit "D1"))
      (some ((lit "id", lit "D1") ∷ [])) false article table no_purges patterns one asking one.keys
      updating refl update_Writes d1_Scopes refl refl refl update_compiles (Memᴰ.head refl) refl
      (Free-of_every b'?' asking.path refl) one-Shows

-- The server that the update leaves, and what the origin answers from then on.
abbrev updated : Server Table
updated = record {
  store =
      (document_service_middleware (reg_exp refused) strategy [] [] table_api (lit "cms:") update
        write [] state).1.store;
  in_flight = λ key. none;
  promises = λ i. pending;
  created = 0;
}

abbrev new_version : Response → Response
new_version ctx = record {
  respond = true;
  status = 200;
  body = value (str (lit "new"));
  headers = [];
}

new_version_cacheable :
    is_cacheable (missed koa RecvTests.strategy one (new_version unanswered)) ≡ cacheable
unfolding is_cacheable text_eq set_x_cache
new_version_cacheable = refl

asking_looked_up : should_lookup asking one.hitpass ≡ resolved true
unfolding should_lookup
asking_looked_up = refl

document_service_middleware-recv_example :
    (v : Json) × ((missed koa RecvTests.strategy one (new_version unanswered)).body ≡ value v)
    × ((recv table_api
          (lit "cms:")
          koa
          md5
          RecvTests.strategy
          one
          quiet
          (answering new_version)
          asking
          unanswered
          updated).ended
        ≡ returned)
    × ((recv table_api
          (lit "cms:")
          koa
          md5
          RecvTests.strategy
          one
          quiet
          (answering new_version)
          asking
          unanswered
          updated).response.body
        ≡ value v)
unfolding text_eq get is_get
document_service_middleware-recv_example =
    document_service_middleware-recv table_api table_lawful (lit "cms:") refused strategy [] []
      koa_laws md5 RecvTests.strategy one new_version update write [] state state (some (lit "D1"))
      (some (lit "D1")) (some ((lit "id", lit "D1") ∷ [])) false article table no_purges patterns
      asking unanswered updated updating refl update_Writes d1_Scopes refl refl refl update_compiles
      (Memᴰ.head refl) refl (Free-of_every b'?' asking.path refl) one-Shows refl refl
      asking_looked_up new_version_cacheable
