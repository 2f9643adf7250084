-- ===== src/Recv/Filled.antt =====
-- packages/plugin-rest-cache/server/src/middlewares/recv.ts: what a miss leaves in the store when no
-- other request is at work.
use mathlib.Core.Path.{subst}
use plugin_rest_cache.Prelude.{
  ◌≡◌, refl, sym, ap, ◌∙◌, inl, inr, true, false, Option, none, some, ◌++◌, Bool-cases, Text, lit,
  text_eq_refl,
}
use plugin_rest_cache.Outcome.{resolved}
use plugin_rest_cache.Json.{Json, str}
use plugin_rest_cache.Response.{value, Response}
use plugin_rest_cache.Response.Cacheable.{is_cacheable, cacheable}
use plugin_rest_cache.Response.Decisions.{CacheRouteConfig, quoted}
use plugin_rest_cache.Response.Etags.{etag_generate, etag_key}
use plugin_rest_cache.Response.Replay.{type_to_keep}
use plugin_rest_cache.Store.{CacheStore, set}
use plugin_rest_cache.Store.Entry.{CacheEntryMeta, serialize}
use plugin_rest_cache.Store.Contract.{Provider}
use plugin_rest_cache.Store.Lawful.{Lawful}
use plugin_rest_cache.Store.Listing.{text_eq-append}
use plugin_rest_cache.Store.Log.{Purges}
use plugin_rest_cache.Store.Reading.{set_lem}
use plugin_rest_cache.Recv.{
  InFlightRead, Server, RecvStrategy, Koa, put_read, put_promise, register, settle, release,
  with_store, returned, Visit,
}
use plugin_rest_cache.Recv.Settled.{missed}
use plugin_rest_cache.Recv.Handler.{
  raced, shared_response, write_etag, write_body, finish, write, deliver, fetched, fetch, own_read,
}
use plugin_rest_cache.Recv.Endings.{set_cache_control}
use plugin_rest_cache.Recv.Quiet.{
  quiet, answering, KoaLaws, longer, settle-store, release-store, raced_now, set_cache_control-body,
}

module _ {P : Type 0} (api : Provider P) (lawful : Lawful api) (prefix : Text) {koa : Koa}
    (laws : KoaLaws koa) (md5 : Text → Text) (strategy : RecvStrategy) (route : CacheRouteConfig)
    (origin : Response → Response) where
  open lawful use {view, set-view}

  -- The body and, if ETags are on, the ETag are stored, and the call has returned with the body.
  pub record IsFilled (key : Text) (v : Json) (type : Option Text) (visit : Visit P) : Type 0 where
    pub provider : P
    pub purges : Purges
    pub store : visit.server.store ≡ record { provider = some provider; purges = purges }
    pub ready : api.ready provider ≡ true
    pub entry : view provider (prefix ++ key) ≡ some (serialize v (record { type = type }))
    pub etag :
        strategy.enable_etag ≡ true
        → view provider (prefix ++ etag_key key)
          ≡ some (serialize (str (etag_generate md5 v)) (record { type = none }))
    pub ended : visit.ended ≡ returned
    pub body : visit.response.body ≡ value v

  finish-quiet :
      (key : Text) (own : InFlightRead) (ctx : Response) (s : Server P)
      → raced s own.generation key ≡ false
      → finish api prefix koa md5 strategy route quiet (answering origin) key own ctx s
        ≡ record { ended = returned; response = ctx; server = s }
  unfolding finish
  finish-quiet key own ctx s h = rw (h, finish) refl

  filled :
      (key : Text) (v : Json) (own : InFlightRead) (type : Option Text) (ctx : Response)
      (s : Server P) (p : P) (g : Purges)
      → s.store ≡ record { provider = some p; purges = g }
      → api.ready p ≡ true
      → own.generation ≡ g.generation
      → ctx.body ≡ value v
      → (strategy.enable_etag ≡ true
          → view p (prefix ++ etag_key key)
            ≡ some (serialize (str (etag_generate md5 v)) (record { type = none })))
      → IsFilled key v type (
          finish api prefix koa md5 strategy route quiet
            (answering origin)
            key
            own
            ctx
            (write_body api prefix koa md5 strategy route quiet (answering origin) key v type s))
  unfolding write_body with_store
  filled key v own type ctx s p g store r now body etag =
      let meta : CacheEntryMeta = record { type = type } in
      let w = write_body api prefix koa md5 strategy route quiet (answering origin) key v type s in
      let (reply, still, after) = set-view (prefix ++ key) (serialize v meta) route.max_age p r in
      let e =
        ap (λ st. (set api prefix key v route.max_age meta st).1) store
        ∙ ap (λ x. x.1) (set_lem api lawful prefix key v route.max_age meta p g r) in
      let current : raced w own.generation key ≡ false =
        rw now (raced_now w g key (ap (λ (st : CacheStore P). st.purges) e)) in
      subst (IsFilled key v type) (sym (finish-quiet key own ctx w current)) (record {
        provider = (api.set (prefix ++ key) (serialize v meta) route.max_age p).1;
        purges = g;
        store = e;
        ready = still;
        entry = after (prefix ++ key) ∙ rw (text_eq_refl (prefix ++ key)) refl;
        etag = λ on.
            after (prefix ++ etag_key key)
            ∙ rw (text_eq-append prefix (etag_key key) key)
                (rw (longer key b'_' (lit "etag")) (etag on));
        ended = refl;
        body = body;
      })

  write_etag_on :
      (key : Text) (v : Json) (ctx : Response) (s : Server P)
      → strategy.enable_etag ≡ true
      → write_etag api prefix koa md5 strategy route quiet (answering origin) key v ctx s ≡ (
        koa.set (lit "ETag") (quoted (etag_generate md5 v)) ctx,
        with_store
            (set api prefix
              (etag_key key)
              (str (etag_generate md5 v))
              route.max_age
              (record { type = none })
              s.store).1
            s,
      )
  unfolding write_etag
  write_etag_on key v ctx s on = rw (on, write_etag) refl

  write_etag_off :
      (key : Text) (v : Json) (ctx : Response) (s : Server P)
      → strategy.enable_etag ≡ false
      → write_etag api prefix koa md5 strategy route quiet (answering origin) key v ctx s ≡ (ctx, s)
  unfolding write_etag
  write_etag_off key v ctx s off = rw (off, write_etag) refl

  filled-write :
      (key : Text) (v : Json) (own : InFlightRead) (type : Option Text) (ctx : Response)
      (s : Server P) (p : P) (g : Purges)
      → s.store ≡ record { provider = some p; purges = g }
      → api.ready p ≡ true
      → own.generation ≡ g.generation
      → ctx.body ≡ value v
      → IsFilled key v type (
          write api prefix koa md5 strategy route quiet
            (answering origin)
            (value v)
            key
            own
            type
            ctx
            s)
  unfolding write with_store
  filled-write key v own type ctx s p g store r now body =
      let meta : CacheEntryMeta = record { type = none } in
      let etag = str (etag_generate md5 v) in
      let (reply, still, after) =
        set-view (prefix ++ etag_key key) (serialize etag meta) route.max_age p r in
      let e =
        ap (λ st. (set api prefix (etag_key key) etag route.max_age meta st).1) store
        ∙ ap (λ x. x.1) (set_lem api lawful prefix (etag_key key) etag route.max_age meta p g r) in
      let wrote = λ (x : Response × Server P). IsFilled key v type (
        finish api prefix koa md5 strategy route quiet (answering origin) key own x.0
          (write_body api prefix koa md5 strategy route quiet (answering origin) key v type x.1)) in
      elim (Bool-cases strategy.enable_etag) [
        | inl on ↦ subst wrote (sym (write_etag_on key v ctx s on)) (
            filled key v own type (koa.set (lit "ETag") (quoted (etag_generate md5 v)) ctx)
              (with_store (set api prefix (etag_key key) etag route.max_age meta s.store).1 s)
              (api.set (prefix ++ etag_key key) (serialize etag meta) route.max_age p).1 g e still
              now (laws.set-body (lit "ETag") (quoted (etag_generate md5 v)) ctx ∙ body)
              (λ h.
                after (prefix ++ etag_key key) ∙ rw (text_eq_refl (prefix ++ etag_key key)) refl))
        | inr off ↦
            subst wrote (sym (write_etag_off key v ctx s off))
              (filled key v own type ctx s p g store r now body (λ on. cc (on, off)))
      ]

  filled-deliver :
      (key : Text) (v : Json) (own : InFlightRead) (ctx : Response) (s : Server P) (p : P)
      (g : Purges)
      → s.store ≡ record { provider = some p; purges = g }
      → api.ready p ≡ true
      → own.generation ≡ g.generation
      → ctx.body ≡ value v
      → IsFilled key v (type_to_keep ctx) (
          deliver api prefix koa md5 strategy route quiet
            (answering origin)
            cacheable
            key
            own
            ctx
            s)
  unfolding deliver
  filled-deliver key v own ctx s p g store r now body =
      let s' = settle own.shared (resolved (shared_response ctx)) s in
      let ctx' = set_cache_control koa strategy route ctx in
      let e =
        settle-store own.shared (resolved (shared_response ctx)) s (s.promises own.shared) refl
        ∙ store in
      let body' = set_cache_control-body laws strategy route ctx ∙ body in
      let current : raced s' own.generation key ≡ false =
        rw now (raced_now s' g key (ap (λ (st : CacheStore P). st.purges) e)) in
      rw (current, deliver)
        (rw body' (filled-write key v own (type_to_keep ctx) ctx' s' p g e r now body'))

  -- A miss that the origin answers with a cacheable response.
  pub filled-fetch :
      (key : Text) (v : Json) (ctx : Response) (s : Server P) (p : P) (g : Purges)
      → s.store ≡ record { provider = some p; purges = g }
      → api.ready p ≡ true
      → is_cacheable (missed koa strategy route (origin ctx)) ≡ cacheable
      → (missed koa strategy route (origin ctx)).body ≡ value v
      → IsFilled key v
          (type_to_keep (missed koa strategy route (origin ctx)))
          (fetch api prefix koa md5 strategy route quiet (answering origin) true key ctx s)
  unfolding fetch fetched register put_read put_promise
  filled-fetch key v ctx s p g store r ok body =
      let s' = register key (own_read s) s in
      let e = release-store key (own_read s) s' ∙ store in
      rw (ok, fetch, fetched)
        (filled-deliver key v (own_read s) (missed koa strategy route (origin ctx))
          (release key (own_read s) s') p g e r
          (ap (λ (st : CacheStore P). st.purges.generation) store) body)
