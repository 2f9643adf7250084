-- ===== src/Recv/Missed.antt =====
-- packages/plugin-rest-cache/server/src/middlewares/recv.ts: a request for which nothing is stored, and
-- the next one for the same key.
use mathlib.Core.Path.{subst}
use plugin_rest_cache.Prelude.{
  ℕ, ◌≡◌, refl, sym, ap, ◌∙◌, inl, inr, true, Option, none, some, ◌∷◌, ◌++◌, Bool-cases, if_true,
  if_false, Text,
}
use plugin_rest_cache.Outcome.{Outcome, resolved}
use plugin_rest_cache.Context.{Request}
use plugin_rest_cache.Json.{Json}
use plugin_rest_cache.Json.Cost.{IsPrintable}
use plugin_rest_cache.Keys.{generate_cache_key}
use plugin_rest_cache.Response.{value, truthy, Response}
use plugin_rest_cache.Response.Cacheable.{is_cacheable, cacheable, shareable}
use plugin_rest_cache.Response.Decisions.{CacheRouteConfig, should_lookup}
use plugin_rest_cache.Response.Etags.{etag_content, etag_generate, etag_key, etag_lookup, as_etag}
use plugin_rest_cache.Response.Replay.{type_to_keep}
use plugin_rest_cache.Store.{CacheStore, read_entry, get, settle_read}
use plugin_rest_cache.Store.Entry.{deserialize_entry}
use plugin_rest_cache.Store.Contract.{Provider}
use plugin_rest_cache.Store.Lawful.{Lawful}
use plugin_rest_cache.Store.Log.{Purges}
use plugin_rest_cache.Store.Reading.{read_entry_run}
use plugin_rest_cache.Recv.{Server, RecvStrategy, Koa, with_store, returned, Visit}
use plugin_rest_cache.Recv.Settled.{missed}
use plugin_rest_cache.Recv.Filled.{IsFilled, filled-fetch}
use plugin_rest_cache.Recv.Quiet.{quiet, answering, KoaLaws}
use plugin_rest_cache.Recv.Answered.{Answers, look_up-Answers}
use plugin_rest_cache.Recv.Handler.{
  hit_of, etag_matches, fetch, miss, look_up_entry, look_up_with, look_up, recv,
}

module _ {P : Type 0} (api : Provider P) (lawful : Lawful api) (prefix : Text) (koa : Koa)
    (md5 : Text → Text) (strategy : RecvStrategy) (route : CacheRouteConfig)
    (next : Response → Server P → Outcome (Unit {0}) × Response × Server P) where
  open lawful use {view, get-view}

  -- A state in which a read goes to the origin.
  IsLed : Text → Response → Visit P → Type 0
  IsLed key ctx visit =
      (s : Server P) × (p : P) × (g : Purges) × (s.store ≡ record { provider = some p; purges = g })
      × (api.ready p ≡ true)
      × (visit ≡ fetch api prefix koa md5 strategy route quiet next true key ctx s)

  read_nothing :
      (key : Text) (st : CacheStore P) (p : P) (g : Purges)
      → st ≡ record { provider = some p; purges = g }
      → api.ready p ≡ true
      → view p (prefix ++ key) ≡ none
      → read_entry api prefix key st
        ≡ (none, record { provider = some (api.get (prefix ++ key) p).1; purges = g })
  unfolding settle_read deserialize_entry
  read_nothing key st p g store r absent =
      rw store (read_entry_run api lawful prefix key p g r ∙ rw absent refl)

  look_up_entry-miss :
      (etag : Option Text) (key : Text) (ctx : Response) (s : Server P) (p : P) (g : Purges)
      → s.store ≡ record { provider = some p; purges = g }
      → api.ready p ≡ true
      → view p (prefix ++ key) ≡ none
      → s.in_flight key ≡ none
      → IsLed key ctx (look_up_entry api prefix koa md5 strategy route quiet next etag key ctx s)
  unfolding look_up_entry hit_of miss with_store IsLed
  look_up_entry-miss etag key ctx s p g store r absent alone =
      let run = read_nothing key s.store p g store r absent in
      let (reply, still, after) = get-view (prefix ++ key) p r in
      (
        with_store (read_entry api prefix key s.store).1 s,
        (api.get (prefix ++ key) p).1,
        g,
        ap (λ x. x.1) run,
        still,
        rw (ap (λ x. x.0) run, look_up_entry) (rw (alone, miss) refl),
      )

  no_etag_found :
      (key : Text) (st : CacheStore P) (p : P) (g : Purges)
      → st ≡ record { provider = some p; purges = g }
      → api.ready p ≡ true
      → view p (prefix ++ etag_key key) ≡ none
      → etag_lookup api prefix key st
        ≡ (none, record { provider = some (api.get (prefix ++ etag_key key) p).1; purges = g })
  unfolding etag_lookup get as_etag
  no_etag_found key st p g store r absent =
      rw (read_nothing (etag_key key) st p g store r absent, get, etag_lookup) refl

  look_up-miss :
      (request : Request) (key : Text) (ctx : Response) (s : Server P) (p : P) (g : Purges)
      → s.store ≡ record { provider = some p; purges = g }
      → api.ready p ≡ true
      → view p (prefix ++ key) ≡ none
      → view p (prefix ++ etag_key key) ≡ none
      → s.in_flight key ≡ none
      → IsLed key ctx (look_up api prefix koa md5 strategy route quiet next request key ctx s)
  unfolding look_up look_up_with etag_matches with_store
  look_up-miss request key ctx s p g store r absent no_etag alone =
      elim (Bool-cases strategy.enable_etag) [
        | inl on ↦ subst (IsLed key ctx) (sym (if_true strategy.enable_etag _ _ on)) (
            let run : etag_lookup api prefix key s.store ≡ (
              none,
              record { provider = some (api.get (prefix ++ etag_key key) p).1; purges = g },
            ) =
              no_etag_found key s.store p g store r no_etag in
            let (reply, still, after) = get-view (prefix ++ etag_key key) p r in
            subst
              (λ (x : Option Text × CacheStore P). IsLed key ctx (
                look_up_with api prefix koa md5 strategy route quiet next request key ctx x.0
                  (with_store x.1 s)))
              (sym run)
              (look_up_entry-miss none key ctx
                (with_store
                  (record { provider = some (api.get (prefix ++ etag_key key) p).1; purges = g }) s)
                (api.get (prefix ++ etag_key key) p).1 g refl still (after (prefix ++ key) ∙ absent)
                alone))
        | inr off ↦
            subst (IsLed key ctx) (sym (if_false strategy.enable_etag _ _ off))
              (look_up_entry-miss none key ctx s p g store r absent alone)
      ]

  recv_lem :
      (request : Request) (ctx : Response) (s : Server P)
      → should_lookup request route.hitpass ≡ resolved true
      → recv api prefix koa md5 strategy route quiet next request ctx s
        ≡ look_up api prefix koa md5 strategy route quiet next request
            (generate_cache_key request route.keys)
            ctx
            s
  unfolding recv
  recv_lem request ctx s looked = rw (looked, recv) refl

module _ {P : Type 0} (api : Provider P) (lawful : Lawful api) (prefix : Text) {koa : Koa}
    (laws : KoaLaws koa) (md5 : Text → Text) (strategy : RecvStrategy) (route : CacheRouteConfig)
    (origin : Response → Response) where
  open lawful use {view}

  -- Nothing is stored for the key, and nobody is fetching it.
  pub record IsCold (key : Text) (s : Server P) : Type 0 where
    pub provider : P
    pub purges : Purges
    pub store : s.store ≡ record { provider = some provider; purges = purges }
    pub ready : api.ready provider ≡ true
    pub no_entry : view provider (prefix ++ key) ≡ none
    pub no_etag : view provider (prefix ++ etag_key key) ≡ none
    pub no_read : s.in_flight key ≡ none

  -- What a request that misses returns and leaves.
  pub recv-IsFilled :
      (request : Request) (ctx : Response) (s : Server P)
      → should_lookup request route.hitpass ≡ resolved true
      → IsCold (generate_cache_key request route.keys) s
      → is_cacheable (missed koa strategy route (origin ctx)) ≡ cacheable
      → (v : Json) × ((missed koa strategy route (origin ctx)).body ≡ value v)
        × (truthy v ≡ true)
        × IsFilled api lawful prefix laws md5 strategy route origin
            (generate_cache_key request route.keys)
            v
            (type_to_keep (missed koa strategy route (origin ctx)))
            (recv api prefix koa md5 strategy route quiet (answering origin) request ctx s)
  unfolding IsLed
  recv-IsFilled request ctx s looked cold ok =
      let key = generate_cache_key request route.keys in
      let (v, shared) = shareable (missed koa strategy route (origin ctx)) ok in
      let (s', p', g', store, ready, led) =
        look_up-miss api lawful prefix koa md5 strategy route (answering origin) request key ctx s
          cold.provider cold.purges cold.store cold.ready cold.no_entry cold.no_etag cold.no_read in
      let type = type_to_keep (missed koa strategy route (origin ctx)) in
      (
        v,
        shared.body,
        shared.not_empty,
        subst (IsFilled api lawful prefix laws md5 strategy route origin key v type)
            (sym (
              recv_lem api lawful prefix koa md5 strategy route (answering origin) request ctx s
                looked
              ∙ led))
            (filled-fetch api lawful prefix laws md5 strategy route origin key v ctx s' p' g' store
              ready ok shared.body),
      )

  -- A request that is looked up, where nothing is stored and nobody fetches the key, returns the body
  -- that the origin answers; the next one that is looked up under the same key is answered from the
  -- store, whatever its own call of the origin would do: with status 304 and no body if ETags are on
  -- and it names the one of that response, and else with status 200 and the same body. No other
  -- request is at work, the response is cacheable and its numbers are printed ones, a hash is never
  -- empty, the provider keeps its laws and is ready, and Koa does what it documents.
  pub recv-recv :
      (next : Response → Server P → Outcome (Unit {0}) × Response × Server P)
      (request request' : Request) (ctx ctx' : Response) (s : Server P)
      → ((t : Text) → (c : ℕ) × (hash : Text) × (md5 t ≡ c ∷ hash))
      → generate_cache_key request' route.keys ≡ generate_cache_key request route.keys
      → should_lookup request route.hitpass ≡ resolved true
      → should_lookup request' route.hitpass ≡ resolved true
      → IsCold (generate_cache_key request route.keys) s
      → is_cacheable (missed koa strategy route (origin ctx)) ≡ cacheable
      → ((v : Json) → (missed koa strategy route (origin ctx)).body ≡ value v → IsPrintable v)
      → (v : Json) × ((missed koa strategy route (origin ctx)).body ≡ value v)
        × ((recv api prefix koa md5 strategy route quiet (answering origin) request ctx s).ended
            ≡ returned)
        × ((recv api prefix koa md5 strategy route quiet
              (answering origin)
              request
              ctx
              s).response.body
            ≡ value v)
        × Answers api lawful prefix koa md5 strategy route next request' v (etag_generate md5 v) (
            recv api prefix koa md5 strategy route quiet next request' ctx'
              (recv api prefix koa md5 strategy route quiet
                (answering origin)
                request
                ctx
                s).server)
  unfolding etag_generate
  recv-recv next request request' ctx ctx' s hashes same looked looked' cold ok printable =
      let key = generate_cache_key request route.keys in
      let (v, body, not_empty, filled) = recv-IsFilled request ctx s looked cold ok in
      let first = recv api prefix koa md5 strategy route quiet (answering origin) request ctx s in
      let type = type_to_keep (missed koa strategy route (origin ctx)) in
      let (c, hash, hashed) = hashes (etag_content v) in
      let again =
        look_up-Answers api lawful prefix koa md5 strategy route next laws origin first request' key
          c hash v type ctx' filled hashed not_empty (printable v body) in
      (
        v,
        body,
        filled.ended,
        filled.body,
        subst
            (λ etag.
              Answers api lawful prefix koa md5 strategy route next request' v etag
                (recv api prefix koa md5 strategy route quiet next request' ctx' first.server))
            (sym hashed)
            (subst (Answers api lawful prefix koa md5 strategy route next request' v (c ∷ hash))
              (sym (
                recv_lem api lawful prefix koa md5 strategy route next request' ctx' first.server
                  looked'
                ∙ ap
                    (λ k.
                      look_up api prefix koa md5 strategy route quiet next request' k ctx'
                        first.server)
                    same))
              again),
      )
