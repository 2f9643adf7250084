-- ===== src/Tests/RecvTests.antt =====
-- packages/plugin-rest-cache/server/src/middlewares/recv.ts: runs of the handler.
use plugin_rest_cache.Prelude.{
  ℕ, ◌≡◌, refl, true, false, none, some, [], ◌∷◌, arith, ◌==◌, if◌then◌else◌, Text, lit, text_eq,
  starts_with,
}
use plugin_rest_cache.Outcome.{resolved, rejected}
use plugin_rest_cache.Context.{Request, to_lower_case}
use plugin_rest_cache.Json.{Json, null, bool, num, str, arr, obj, stringify}
use plugin_rest_cache.Json.Parse.{parse}
use plugin_rest_cache.Json.Cost.{IsPrintable}
use plugin_rest_cache.Keys.{generate_cache_key}
use plugin_rest_cache.Keys.Config.{no_params}
use plugin_rest_cache.Response.{value, Response, get_header}
use plugin_rest_cache.Response.Cacheable.{is_cacheable, cacheable}
use plugin_rest_cache.Response.Decisions as Decisions
use plugin_rest_cache.Response.Decisions.{CacheRouteConfig, get, should_lookup}
use plugin_rest_cache.Response.Etags.{etag_generate}
use plugin_rest_cache.Store.Log.{no_purges}
use plugin_rest_cache.Store.Table.{Table, table_api, table_lawful}
use plugin_rest_cache.Recv.{
  Promise, pending, settled, Server, RecvStrategy, Koa, returned, waiting, Visit, register,
}
use plugin_rest_cache.Recv.Settled.{missed, IsDone, outcome_of, answer, fetch-IsDone}
use plugin_rest_cache.Recv.Quiet.{quiet, answering, KoaLaws}
use plugin_rest_cache.Recv.Answered.{Answers}
use plugin_rest_cache.Recv.Missed.{recv-recv}
use plugin_rest_cache.Recv.Handler.{fetch, recv}
use plugin_rest_cache.Recv.Endings.{set_x_cache}

-- Assignments that do as Koa documents; a status of 404 is the one that nobody has set.
abbrev pub koa : Koa
koa = record {
  set = λ name v r. record r { headers = (to_lower_case name, v) ∷ r.headers };
  set_status = λ n r. record r { status = n; body = if n == 304 then value null else r.body };
  set_body = λ body r. record r { status = if r.status == 404 then 200 else r.status; body = body };
}

still_200 : (n : ℕ) → n ≡ 200 → (if n == 404 then 200 else n) ≡ 200
still_200 n e = ground arith

pub koa_laws : KoaLaws koa
koa_laws = record {
  set-body = λ name v r. refl;
  set-status = λ name v r. refl;
  set_status-status = λ n r. refl;
  set_status-empty = λ r. refl;
  set_body-body = λ body r. refl;
  set_body-status = λ v r ok e. still_200 r.status e;
}

-- A hash that is never empty.
abbrev pub md5 : Text → Text
md5 content = b'h' ∷ content

abbrev pub strategy : RecvStrategy
strategy = record { enable_etag = true; enable_x_cache_headers = true; cache_control = none }

abbrev route : CacheRouteConfig
route = record {
  max_age = 1000;
  path = lit "/api/articles";
  method = get;
  param_names = [];
  keys = record { use_headers = []; use_query_params = no_params; use_auth = false };
  hitpass = Decisions.fixed false;
}

abbrev request : Request
request = record { path = lit "/api/articles"; query = []; header = []; auth = none }

-- The same, naming the ETag of the body below.
abbrev conditional : Request
conditional = record request { header = (lit "if-none-match", lit "\"hA\"") ∷ [] }

abbrev pub unanswered : Response
unanswered = record { respond = true; status = 404; body = value null; headers = [] }

abbrev article : Response → Response
article ctx = record { respond = true; status = 200; body = value (str (lit "A")); headers = [] }

abbrev cold : Server Table
cold = record {
  store = record { provider = some []; purges = no_purges };
  in_flight = λ key. none;
  promises = λ i. pending;
  created = 0;
}

abbrev visit : (Response → Response) → Request → Server Table → Visit Table
visit origin request s =
    recv table_api [] koa md5 strategy route quiet (answering origin) request unanswered s

-- A miss, a hit, and a request whose ETag matches.
first_body : (visit article request cold).response.body ≡ value (str (lit "A"))
unfolding recv text_eq
first_body = refl

second_header :
    get_header
      (lit "X-Cache")
      (visit (λ ctx. ctx) request (visit article request cold).server).response
    ≡ lit "HIT"
unfolding recv text_eq stringify parse
second_header = refl

matched_status :
    (visit (λ ctx. ctx) conditional (visit article request cold).server).response.status ≡ 304
unfolding recv text_eq stringify parse starts_with
matched_status = refl

-- A request that joins one whose promise is settled, and one whose promise is not.
abbrev joining : Promise → Server Table
joining promise = record cold {
  in_flight = λ key. some (record { shared = 0; generation = 0 });
  promises = λ i. promise;
}

joined_body :
    (visit
      (λ ctx. ctx)
      request
      (joining (
        settled (
          resolved
            (record { body = value (str (lit "B")); status = 201; type = none }))))).response.status
    ≡ 201
unfolding recv text_eq
joined_body = refl

still_waiting : (visit article request (joining pending)).ended ≡ waiting
unfolding recv text_eq
still_waiting = refl

-- A failure of the read that was joined sends the request to the origin.
abandoned_body :
    (visit article request (joining (settled rejected))).response.body ≡ value (str (lit "A"))
unfolding recv text_eq
abandoned_body = refl

-- The response of an origin that keeps it private is not stored, and not shared.
abbrev secret : Response → Response
secret ctx = record (article ctx) { headers = (lit "cache-control", lit "private") ∷ [] }

secret_unstored : (visit secret request cold).server.store.provider ≡ some []
unfolding recv text_eq
secret_unstored = refl

secret_unshared : (visit secret request cold).server.promises 0 ≡ settled rejected
unfolding recv text_eq
secret_unshared = refl

literal-IsPrintable : (v : Json) (s : Text) → value (str s) ≡ value v → IsPrintable v
literal-IsPrintable (str t) s e = tt
literal-IsPrintable null s e = cc
literal-IsPrintable (bool b) s e = cc
literal-IsPrintable (num t) s e = cc
literal-IsPrintable (arr vs) s e = cc
literal-IsPrintable (obj fs) s e = cc

request_looked_up : should_lookup request route.hitpass ≡ resolved true
unfolding should_lookup
request_looked_up = refl

conditional_looked_up : should_lookup conditional route.hitpass ≡ resolved true
unfolding should_lookup
conditional_looked_up = refl

same_key : generate_cache_key conditional route.keys ≡ generate_cache_key request route.keys
unfolding generate_cache_key
same_key = refl

article_cacheable : is_cacheable (missed koa strategy route (article unanswered)) ≡ cacheable
unfolding is_cacheable text_eq set_x_cache
article_cacheable = refl

article-IsPrintable :
    (v : Json) → (missed koa strategy route (article unanswered)).body ≡ value v → IsPrintable v
unfolding set_x_cache
article-IsPrintable v e = literal-IsPrintable v (lit "A") e

-- The key of the request.
abbrev key : Text
key = generate_cache_key request route.keys

recv-recv_example :
    (v : Json) × ((missed koa strategy route (article unanswered)).body ≡ value v)
    × ((recv table_api [] koa md5 strategy route quiet
          (answering article)
          request
          unanswered
          cold).ended
        ≡ returned)
    × ((recv table_api [] koa md5 strategy route quiet
          (answering article)
          request
          unanswered
          cold).response.body
        ≡ value v)
    × Answers table_api table_lawful [] koa md5 strategy route
        (answering secret)
        conditional
        v
        (etag_generate md5 v)
        (recv table_api [] koa md5 strategy route quiet
          (answering secret)
          conditional
          unanswered
          (recv table_api [] koa md5 strategy route quiet
            (answering article)
            request
            unanswered
            cold).server)
recv-recv_example =
    recv-recv table_api table_lawful [] koa_laws md5 strategy route article (answering secret)
      request conditional unanswered unanswered cold (λ t. (b'h', t, refl)) same_key
      request_looked_up conditional_looked_up
      (record {
        provider = [];
        purges = no_purges;
        store = refl;
        ready = refl;
        no_entry = refl;
        no_etag = refl;
        no_read = refl;
      })
      article_cacheable article-IsPrintable

article_waits :
    (answer table_api [] koa md5 strategy route quiet
        (answering article)
        key
        unanswered
        cold).2.promises
      0
    ≡ pending
unfolding register
article_waits = refl

fetch-IsDone_example :
    IsDone key 0
      (outcome_of koa strategy route (resolved tt) (article unanswered))
      (fetch table_api [] koa md5 strategy route quiet
        (answering article)
        true
        key
        unanswered
        cold).server
fetch-IsDone_example =
    fetch-IsDone table_api [] koa md5 strategy route quiet (answering article)
      (λ key i outcome a s done. done) key unanswered cold article_waits
