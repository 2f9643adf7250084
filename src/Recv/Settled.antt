-- ===== src/Recv/Settled.antt =====
-- packages/plugin-rest-cache/server/src/middlewares/recv.ts: the promise that waiters hold.
use plugin_rest_cache.Prelude.{
  none≢some, ℕ, ◌≡◌, refl, sym, ap, ◌∙◌, ◌≢◌, ◌⊎◌, inl, inr, true, Option, some, [], ◌∷◌, ◌==◌,
  ==_refl, Bool-cases, Option-cases, Text, lit, text_eq_refl,
}
use plugin_rest_cache.Outcome.{Outcome, resolved, rejected}
use plugin_rest_cache.Json.{Json}
use plugin_rest_cache.Response.{Body, value, stream, buffer, Response}
use plugin_rest_cache.Response.Cacheable.{CacheabilityVerdict, is_cacheable, cacheable, refused}
use plugin_rest_cache.Response.Decisions.{CacheRouteConfig}
use plugin_rest_cache.Response.Etags.{etag_key}
use plugin_rest_cache.Store.{del_many}
use plugin_rest_cache.Store.Contract.{Provider}
use plugin_rest_cache.Recv.{
  SharedResponse, InFlightRead, Promise, pending, settled, Server, RecvStrategy, Koa, Await,
  for_writes, for_removal, put_read, put_promise, register, settle, release, with_store,
}
use plugin_rest_cache.Recv.Handler.{
  raced, shared_response, write_etag, write_body, remove, finish, write, deliver, fetched, fetch,
  own_read,
}
use plugin_rest_cache.Recv.Endings.{set_x_cache}

-- No read in flight under the key has this promise.
abbrev pub IsReleased : {P : Type 0} → Text → ℕ → Server P → Type 0
IsReleased key i s = (read : InFlightRead) → s.in_flight key ≡ some read → read.shared ≢ i

-- The promise is settled, and the read is no longer offered to others.
abbrev pub IsDone : {P : Type 0} → Text → ℕ → Outcome SharedResponse → Server P → Type 0
IsDone key i outcome s = (s.promises i ≡ settled outcome) × IsReleased key i s

-- The response as isCacheable and the waiters see it.
abbrev pub missed : Koa → RecvStrategy → CacheRouteConfig → Response → Response
missed koa strategy route ctx = set_x_cache koa strategy route (lit "MISS") ctx

abbrev pub if_cacheable : CacheabilityVerdict → Response → Outcome SharedResponse
if_cacheable (refused reason) ctx = rejected
if_cacheable cacheable ctx = resolved (shared_response ctx)

-- What a read has for those who wait: the response if the origin gives one that is cacheable.
abbrev pub outcome_of :
    Koa → RecvStrategy → CacheRouteConfig → Outcome (Unit {0}) → Response → Outcome SharedResponse
outcome_of koa strategy route rejected ctx = rejected
outcome_of koa strategy route (resolved _) ctx =
    if_cacheable (is_cacheable (missed koa strategy route ctx)) (missed koa strategy route ctx)

Outcome-cases : {A : Type 0} (o : Outcome A) → (o ≡ rejected) ⊎ ((a : A) × (o ≡ resolved a))
Outcome-cases rejected = inl refl
Outcome-cases (resolved a) = inr (a, refl)

module _ {P : Type 0} where
  settle-settled :
      (i : ℕ) (o : Outcome SharedResponse) (s : Server P)
      → s.promises i ≡ pending
      → (settle i o s).promises i ≡ settled o
  unfolding settle put_promise
  settle-settled i o s h = rw (h, settle) (rw (==_refl i) refl)

  settle-in_flight :
      (i : ℕ) (o : Outcome SharedResponse) (s : Server P) (p : Promise)
      → s.promises i ≡ p
      → (settle i o s).in_flight ≡ s.in_flight
  unfolding settle put_promise
  settle-in_flight i o s pending h = rw (h, settle) refl
  settle-in_flight i o s (settled x) h = rw (h, settle) refl

  settle-IsDone :
      (key : Text) (i : ℕ) (o : Outcome SharedResponse) (s : Server P)
      → s.promises i ≡ pending
      → IsReleased key i s
      → IsDone key i o (settle i o s)
  settle-IsDone key i o s h free = (
    settle-settled i o s h,
    λ read e. free read (sym (ap (λ f. f key) (settle-in_flight i o s pending h)) ∙ e),
  )

  release-promises :
      (key : Text) (own : InFlightRead) (s : Server P) → (release key own s).promises ≡ s.promises
  unfolding release put_read
  release-promises key own s = elim (Option-cases (s.in_flight key)) [
    | inl e ↦ rw (e, release) refl
    | inr (read, e) ↦
        rw (e, release)
          (elim (Bool-cases (read.shared == own.shared)) [
            | inl same ↦ rw same refl
            | inr other ↦ rw other refl
          ])
  ]

  release-IsReleased :
      (key : Text) (own : InFlightRead) (s : Server P)
      → IsReleased key own.shared (release key own s)
  unfolding release put_read
  release-IsReleased key own s = elim (Option-cases (s.in_flight key)) [
    | inl e ↦ rw (e, release) (λ read h same. absurd (none≢some (sym e ∙ h)))
    | inr (read, e) ↦
        rw (e, release)
          (elim (Bool-cases (read.shared == own.shared)) [
            | inl same ↦ rw (same, text_eq_refl key) (λ r h. absurd (none≢some h))
            | inr other ↦ rw other (λ r h same. cc (e, h, other, ==_refl own.shared))
          ])
  ]

module _ {P : Type 0} (api : Provider P) (keys_prefix : Text) (koa : Koa) (md5 : Text → Text)
    (strategy : RecvStrategy) (route : CacheRouteConfig) (meanwhile : Await → Server P → Server P)
    (next : Response → Server P → Outcome (Unit {0}) × Response × Server P) where
  -- What others do while a request waits for the store keeps what is settled and released.
  abbrev pub AreOthers : Type 0
  AreOthers =
      (key : Text) (i : ℕ) (outcome : Outcome SharedResponse) (a : Await) (s : Server P)
      → IsDone key i outcome s
      → IsDone key i outcome (meanwhile a s)

  module _ (others : AreOthers) (key : Text) (own : InFlightRead)
      (outcome : Outcome SharedResponse) where
    abbrev Done : Server P → Type 0
    Done s = IsDone key own.shared outcome s

    remove-Done :
        (ctx : Response) (s : Server P)
        → Done s
        → Done (remove api keys_prefix koa md5 strategy route meanwhile next key ctx s).server
    unfolding remove with_store
    remove-Done ctx s done =
        let after =
          others key own.shared outcome for_removal
            (with_store (del_many api keys_prefix (key ∷ etag_key key ∷ []) s.store).1 s) done in
        elim (Outcome-cases (del_many api keys_prefix (key ∷ etag_key key ∷ []) s.store).0) [
          | inl e ↦ rw (e, remove) after
          | inr (x, e) ↦ rw (e, remove) after
        ]

    finish-Done :
        (ctx : Response) (s : Server P)
        → Done s
        → Done (finish api keys_prefix koa md5 strategy route meanwhile next key own ctx s).server
    unfolding finish
    finish-Done ctx s done =
        let after = others key own.shared outcome for_writes s done in
        elim (Bool-cases (raced (meanwhile for_writes s) own.generation key)) [
          | inl e ↦ rw (e, finish) (remove-Done ctx (meanwhile for_writes s) after)
          | inr e ↦ rw (e, finish) after
        ]

    write_etag-Done :
        (v : Json) (ctx : Response) (s : Server P)
        → Done s
        → Done (write_etag api keys_prefix koa md5 strategy route meanwhile next key v ctx s).1
    unfolding write_etag with_store
    write_etag-Done v ctx s done = elim (Bool-cases strategy.enable_etag) [
      | inl e ↦ rw (e, write_etag) done
      | inr e ↦ rw (e, write_etag) done
    ]

    write-Done :
        (body : Body) (type : Option Text) (ctx : Response) (s : Server P)
        → Done s
        → Done
            (write api keys_prefix koa md5 strategy route meanwhile next body key own type ctx
              s).server
    unfolding write write_body with_store
    write-Done (value v) type ctx s done = finish-Done _ _ (write_etag-Done v ctx s done)
    write-Done stream type ctx s done = done
    write-Done buffer type ctx s done = done

  -- What the origin answers to a registered request.
  abbrev pub answer : Text → Response → Server P → Outcome (Unit {0}) × Response × Server P
  answer key ctx s = next ctx (register key (own_read s) s)

  module _ (others : AreOthers) (key : Text) where
    deliver-IsDone :
        (verdict : CacheabilityVerdict) (own : InFlightRead) (ctx : Response) (s : Server P)
        → s.promises own.shared ≡ pending
        → IsReleased key own.shared s
        → IsDone key own.shared
            (if_cacheable verdict ctx)
            (deliver api keys_prefix koa md5 strategy route meanwhile next verdict key own ctx
              s).server
    unfolding deliver
    deliver-IsDone (refused reason) own ctx s waits free =
        settle-IsDone key own.shared rejected s waits free
    deliver-IsDone cacheable own ctx s waits free =
        let outcome : Outcome SharedResponse = resolved (shared_response ctx) in
        let s' = settle own.shared outcome s in
        let done = settle-IsDone key own.shared outcome s waits free in
        elim (Bool-cases (raced s' own.generation key)) [
          | inl e ↦ rw (e, deliver) done
          | inr e ↦ rw (e, deliver) (write-Done others key own outcome _ _ _ s' done)
        ]

    fetched-IsDone :
        (own : InFlightRead) (answer : Outcome (Unit {0})) (ctx : Response) (s : Server P)
        → s.promises own.shared ≡ pending
        → IsDone key own.shared
            (outcome_of koa strategy route answer ctx)
            (fetched api keys_prefix koa md5 strategy route meanwhile next key own answer ctx
              s).server
    unfolding fetched
    fetched-IsDone own rejected ctx s waits =
        let s' = settle own.shared rejected s in
        (
          ap (λ f. f own.shared) (release-promises key own s')
              ∙ settle-settled own.shared rejected s waits,
          release-IsReleased key own s',
        )
    fetched-IsDone own (resolved x) ctx s waits =
        deliver-IsDone (is_cacheable (missed koa strategy route ctx)) own
          (missed koa strategy route ctx) (release key own s)
          (ap (λ f. f own.shared) (release-promises key own s) ∙ waits)
          (release-IsReleased key own s)

    -- A request that registers its read has settled its promise when the call ends, whatever the origin
    -- does: with the response as the waiters take it if the origin answers one that is cacheable, and
    -- else by a rejection. No read in flight has the promise any more. Other requests leave the promise
    -- alone while the origin answers, and keep what is settled and released afterwards.
    pub fetch-IsDone :
        (ctx : Response) (s : Server P)
        → (answer key ctx s).2.promises s.created ≡ pending
        → IsDone key s.created
            (outcome_of koa strategy route (answer key ctx s).0 (answer key ctx s).1)
            (fetch api keys_prefix koa md5 strategy route meanwhile next true key ctx s).server
    unfolding fetch
    fetch-IsDone ctx s waits = fetched-IsDone (own_read s) _ _ _ waits
