-- ===== src/Recv/Quiet.antt =====
-- packages/plugin-rest-cache/server/src/middlewares/recv.ts: a request with no other at work, and what
-- Koa documents.
use plugin_rest_cache.Prelude.{
  ℕ, ◌≡◌, refl, inl, inr, true, false, [], ◌∷◌, ◌++◌, arith, ◌==◌, ==_refl, Bool-cases,
  Option-cases, Text, lit, text_eq,
}
use plugin_rest_cache.Outcome.{Outcome, resolved}
use plugin_rest_cache.Json.{Json, null}
use plugin_rest_cache.Response.{Body, value, Response, get_header, truthy}
use plugin_rest_cache.Response.CacheControl.{build_cache_control}
use plugin_rest_cache.Response.Decisions.{CacheRouteConfig}
use plugin_rest_cache.Store.Log.{Purges, purged_since}
use plugin_rest_cache.Recv.{
  InFlightRead, Promise, pending, settled, Server, RecvStrategy, Koa, Await, SharedResponse,
  put_read, put_promise, settle, release,
}
use plugin_rest_cache.Recv.Handler.{raced}
use plugin_rest_cache.Recv.Endings.{set_cache_control}

-- Nothing happens at the other awaits.
abbrev pub quiet : {P : Type 0} → Await → Server P → Server P
quiet a s = s

-- An origin that answers.
abbrev pub answering :
    {P : Type 0}
    → (Response → Response)
    → Response
    → Server P
    → Outcome (Unit {0}) × Response × Server P
answering origin ctx s = (resolved tt, origin ctx, s)

-- What Koa documents of its assignments: the header methods leave body and status alone, a body is
-- as assigned and comes with status 200 unless another was set, and a 304 has no body.
pub record KoaLaws (koa : Koa) : Type 0 where
  pub set-body : (name v : Text) (r : Response) → (koa.set name v r).body ≡ r.body
  pub set-status : (name v : Text) (r : Response) → (koa.set name v r).status ≡ r.status
  pub set_status-status : (n : ℕ) (r : Response) → (koa.set_status n r).status ≡ n
  pub set_status-empty : (r : Response) → (koa.set_status 304 r).body ≡ value null
  pub set_body-body : (body : Body) (r : Response) → (koa.set_body body r).body ≡ body
  pub set_body-status :
      (v : Json) (r : Response)
      → truthy v ≡ true
      → r.status ≡ 200
      → (koa.set_body (value v) r).status ≡ 200

pub longer : (s : Text) (c : ℕ) (t : Text) → text_eq (s ++ c ∷ t) s ≡ false
unfolding text_eq
longer [] c t = refl
longer (a ∷ s) c t = ground (arith, longer s c t)

module _ {P : Type 0} where
  pub settle-store :
      (i : ℕ) (o : Outcome SharedResponse) (s : Server P) (p : Promise)
      → s.promises i ≡ p
      → (settle i o s).store ≡ s.store
  unfolding settle put_promise
  settle-store i o s pending h = rw (h, settle) refl
  settle-store i o s (settled x) h = rw (h, settle) refl

  pub release-store :
      (key : Text) (own : InFlightRead) (s : Server P) → (release key own s).store ≡ s.store
  unfolding release put_read
  release-store key own s = elim (Option-cases (s.in_flight key)) [
    | inl e ↦ rw (e, release) refl
    | inr (read, e) ↦
        rw (e, release)
          (elim (Bool-cases (read.shared == own.shared)) [
            | inl same ↦ rw same refl
            | inr other ↦ rw other refl
          ])
  ]

  -- No purge has started since the generation that is now.
  pub raced_now :
      (s : Server P) (g : Purges) (key : Text)
      → s.store.purges ≡ g
      → raced s g.generation key ≡ false
  unfolding raced purged_since
  raced_now s g key e = rw (e, raced) (rw (==_refl g.generation) refl)

module _ {koa : Koa} (laws : KoaLaws koa) (strategy : RecvStrategy) (route : CacheRouteConfig) where
  pub set_cache_control-body :
      (ctx : Response) → (set_cache_control koa strategy route ctx).body ≡ ctx.body
  unfolding set_cache_control
  set_cache_control-body ctx =
      elim (Option-cases
        (build_cache_control strategy.cache_control route.max_age route.keys.use_auth)) [
          | inl e ↦ rw (e, set_cache_control) refl
          | inr (control, e) ↦
              rw (e, set_cache_control)
                (elim (Bool-cases (text_eq (get_header (lit "Cache-Control") ctx) [])) [
                  | inl absent ↦ rw absent (laws.set-body (lit "Cache-Control") control ctx)
                  | inr present ↦ rw present refl
                ])
        ]
