-- ===== src/Recv/Answered.antt =====
-- packages/plugin-rest-cache/server/src/middlewares/recv.ts: what the next request gets after a miss.
use mathlib.Core.Path.{subst}
use plugin_rest_cache.Prelude.{
  ℕ, ◌≡◌, refl, sym, ap, ◌∙◌, ◌⊎◌, inl, inr, true, false, ◌&&◌, Option, none, some, ◌∷◌, ◌++◌,
  if◌then◌else◌, Bool-cases, if_true, if_false, Text, lit,
}
use plugin_rest_cache.Outcome.{Outcome}
use plugin_rest_cache.Context.{Request}
use plugin_rest_cache.Json.{Json, null, str}
use plugin_rest_cache.Json.Cost.{IsPrintable}
use plugin_rest_cache.Response.{value, Response, truthy}
use plugin_rest_cache.Response.Decisions.{CacheRouteConfig, etag_match}
use plugin_rest_cache.Response.Etags.{etag_generate, etag_key, etag_lookup, as_etag}
use plugin_rest_cache.Response.Replay.{replayed_type}
use plugin_rest_cache.Store.{CacheStore, get_entry, read_entry, get}
use plugin_rest_cache.Store.Entry.{CacheEntryMeta, serialize, kept_type}
use plugin_rest_cache.Store.Contract.{Provider}
use plugin_rest_cache.Store.Lawful.{Lawful}
use plugin_rest_cache.Store.Log.{Purges}
use plugin_rest_cache.Store.Reading.{stored, read_entry_run, settle_read-serialize}
use plugin_rest_cache.Recv.{Server, RecvStrategy, Koa, with_store, returned, Visit}
use plugin_rest_cache.Recv.Filled.{IsFilled}
use plugin_rest_cache.Recv.Quiet.{quiet, KoaLaws}
use plugin_rest_cache.Recv.Handler.{etag_matches, look_up_entry, look_up_with, look_up}
use plugin_rest_cache.Recv.Endings.{hit, not_modified, set_type, replay}

-- The response of a hit, and of a request that names the ETag.
module _ {koa : Koa} (laws : KoaLaws koa) (strategy : RecvStrategy) (route : CacheRouteConfig) where
  set_type-status :
      (type : Option Text) (ctx : Response)
      → (set_type koa strategy route type ctx).status ≡ ctx.status
  unfolding set_type
  set_type-status none ctx = refl
  set_type-status (some type) ctx = laws.set-status (lit "Content-Type") type ctx

  hit_lem :
      (etag : Option Text) (v : Json) (type : Option Text) (ctx : Response)
      → truthy v ≡ true
      → ((hit koa strategy route etag v type ctx).status ≡ 200)
        × ((hit koa strategy route etag v type ctx).body ≡ value v)
  unfolding hit replay
  hit_lem etag v type ctx h = (
    laws.set_body-status v _ h
        (set_type-status (replayed_type v type) _ ∙ laws.set_status-status 200 _),
    laws.set_body-body (value v) _,
  )

  not_modified_lem :
      (ctx : Response)
      → ((not_modified koa strategy route ctx).status ≡ 304)
        × ((not_modified koa strategy route ctx).body ≡ value null)
  unfolding not_modified
  not_modified_lem ctx = (laws.set_status-status 304 _, laws.set_status-empty _)

module _ {P : Type 0} (api : Provider P) (lawful : Lawful api) (prefix : Text) (koa : Koa)
    (md5 : Text → Text) (strategy : RecvStrategy) (route : CacheRouteConfig)
    (next : Response → Server P → Outcome (Unit {0}) × Response × Server P) where
  open lawful use {view, get-view}

  IsHit : Response → Visit P → Type 0
  IsHit response visit = (visit.ended ≡ returned) × (visit.response ≡ response)

  look_up_entry-hit :
      (etag : Option Text) (key : Text) (v : Json) (meta : CacheEntryMeta) (ctx : Response)
      (s : Server P) (p : P) (g : Purges)
      → s.store ≡ record { provider = some p; purges = g }
      → api.ready p ≡ true
      → view p (prefix ++ key) ≡ some (serialize v meta)
      → truthy v ≡ true
      → IsPrintable v
      → IsHit
          (hit koa strategy route etag v (kept_type meta.type) ctx)
          (look_up_entry api prefix koa md5 strategy route quiet next etag key ctx s)
  unfolding look_up_entry with_store IsHit
  look_up_entry-hit etag key v meta ctx s p g store r found ok printable =
      let run : get_entry api prefix key s.store ≡ (
        some (stored v meta),
        record { provider = some (api.get (prefix ++ key) p).1; purges = g },
      ) =
        rw store (
          read_entry_run api lawful prefix key p g r
          ∙ rw found (rw (settle_read-serialize v meta printable) refl)) in
      rw (ap (λ x. x.0) run, look_up_entry) (rw ok (refl, refl))

  etag_lookup-stored :
      (key : Text) (c : ℕ) (etag : Text) (st : CacheStore P) (p : P) (g : Purges)
      → st ≡ record { provider = some p; purges = g }
      → api.ready p ≡ true
      → view p (prefix ++ etag_key key) ≡ some (serialize (str (c ∷ etag)) (record { type = none }))
      → etag_lookup api prefix key st ≡ (
        some (c ∷ etag),
        record { provider = some (api.get (prefix ++ etag_key key) p).1; purges = g },
      )
  unfolding etag_lookup get as_etag
  etag_lookup-stored key c etag st p g store r found =
      let run : read_entry api prefix (etag_key key) st ≡ (
        some (stored (str (c ∷ etag)) (record { type = none })),
        record { provider = some (api.get (prefix ++ etag_key key) p).1; purges = g },
      ) =
        rw store (
          read_entry_run api lawful prefix (etag_key key) p g r
          ∙ rw found
              (rw (settle_read-serialize (str (c ∷ etag)) (record { type = none }) tt) refl)) in
      rw (run, get, etag_lookup) refl

  look_up_on :
      (request : Request) (key : Text) (ctx : Response) (s : Server P) (etag : Text)
      (st : CacheStore P)
      → strategy.enable_etag ≡ true
      → etag_lookup api prefix key s.store ≡ (some etag, st)
      → look_up api prefix koa md5 strategy route quiet next request key ctx s ≡ (
          if etag_match request etag
          then record {
            ended = returned;
            response = not_modified koa strategy route ctx;
            server = with_store st s;
          }
          else look_up_entry api prefix koa md5 strategy route quiet next
              (some etag)
              key
              ctx
              (with_store st s))
  unfolding look_up look_up_with etag_matches
  look_up_on request key ctx s etag st on run =
      if_true strategy.enable_etag _ _ on
      ∙ ap
          (λ (x : Option Text × CacheStore P).
            look_up_with api prefix koa md5 strategy route quiet next request key ctx x.0
              (with_store x.1 s))
          run

  -- What a look-up of a stored response answers.
  pub Answers : Request → Json → Text → Visit P → Type 0
  Answers request v etag visit =
      (visit.ended ≡ returned)
      × (((strategy.enable_etag && etag_match request etag) ≡ true)
            × (visit.response.status ≡ 304)
            × (visit.response.body ≡ value null)
          ⊎ ((strategy.enable_etag && etag_match request etag) ≡ false)
            × (visit.response.status ≡ 200)
            × (visit.response.body ≡ value v))

  hit-Answers :
      (laws : KoaLaws koa) (request : Request) (etag : Text) (held : Option Text) (v : Json)
      (type : Option Text) (ctx : Response) (visit : Visit P)
      → (strategy.enable_etag && etag_match request etag) ≡ false
      → truthy v ≡ true
      → IsHit (hit koa strategy route held v type ctx) visit
      → Answers request v etag visit
  unfolding Answers IsHit
  hit-Answers laws request etag held v type ctx visit unmatched ok (ended, response) =
      let (status, body) = hit_lem laws strategy route held v type ctx ok in
      (
        ended,
        inr (
          unmatched,
          ap (λ (r : Response). r.status) response ∙ status,
          ap (λ (r : Response). r.body) response ∙ body,
        ),
      )

  pub look_up-Answers :
      (laws : KoaLaws koa) (origin : Response → Response) (filled : Visit P) (request : Request)
      (key : Text) (c : ℕ) (etag : Text) (v : Json) (type : Option Text) (ctx : Response)
      → IsFilled api lawful prefix laws md5 strategy route origin key v type filled
      → etag_generate md5 v ≡ c ∷ etag
      → truthy v ≡ true
      → IsPrintable v
      → Answers request v
          (c ∷ etag)
          (look_up api prefix koa md5 strategy route quiet next request key ctx filled.server)
  unfolding Answers look_up with_store
  look_up-Answers laws origin filled request key c etag v type ctx f hashed ok printable =
      let meta : CacheEntryMeta = record { type = type } in
      elim (Bool-cases strategy.enable_etag) [
        | inl on ↦
            let st : CacheStore P = record {
              provider = some (api.get (prefix ++ etag_key key) f.provider).1;
              purges = f.purges;
            } in
            let (reply, still, after) = get-view (prefix ++ etag_key key) f.provider f.ready in
            let run =
              etag_lookup-stored key c etag filled.server.store f.provider f.purges f.store f.ready
                (f.etag on ∙ ap (λ t. some (serialize (str t) (record { type = none }))) hashed) in
            subst (Answers request v (c ∷ etag))
              (sym (look_up_on request key ctx filled.server (c ∷ etag) st on run))
              (elim (Bool-cases (etag_match request (c ∷ etag))) [
                | inl m ↦
                    subst (Answers request v (c ∷ etag))
                      (sym (if_true (etag_match request (c ∷ etag)) _ _ m))
                      (
                        refl,
                        inl (
                          rw (on, m) refl,
                          (not_modified_lem laws strategy route ctx).0,
                          (not_modified_lem laws strategy route ctx).1,
                        ),
                      )
                | inr n ↦
                    subst (Answers request v (c ∷ etag))
                      (sym (if_false (etag_match request (c ∷ etag)) _ _ n))
                      (hit-Answers laws request (c ∷ etag) (some (c ∷ etag)) v (kept_type type) ctx
                        _ (rw (on, n) refl) ok
                        (look_up_entry-hit (some (c ∷ etag)) key v meta ctx
                          (with_store st filled.server)
                          (api.get (prefix ++ etag_key key) f.provider).1 f.purges refl still
                          (after (prefix ++ key) ∙ f.entry) ok printable))
              ])
        | inr off ↦
            subst (Answers request v (c ∷ etag)) (sym (if_false strategy.enable_etag _ _ off)) (
              hit-Answers laws request (c ∷ etag) none v (kept_type type) ctx _ (rw off refl) ok (
                look_up_entry-hit none key v meta ctx filled.server f.provider f.purges f.store
                  f.ready f.entry ok printable))
      ]
