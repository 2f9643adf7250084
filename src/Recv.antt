-- ===== src/Recv.antt =====
-- packages/plugin-rest-cache/server/src/middlewares/recv.ts: what the middleware works on.
pub mod Endings
pub mod Handler
pub mod Settled
pub mod Quiet
pub mod Filled
pub mod Answered
pub mod Missed
pub mod Renewed
use plugin_rest_cache.Prelude.{
  ℕ, zero, suc, ◌+◌, ◌-◌, ◌*◌, ◌/◌, ◌%◌, ◌≤◌, ◌<◌, ◌≡◌, refl, sym, ap, ◌∙◌, ◌≢◌, ◌↔◌, ◌⊎◌, inl, inr,
  Bool, true, false, ◌&&◌, ◌||◌, not, Option, none, some, List, [], ◌∷◌, ◌++◌, map, arith, ltb, leb,
  ◌==◌, if◌then◌else◌, ltb→lt, leb→le, ==_iff, ==_refl, Bool-cases, Option-cases, Bool-eq_of_iff,
  or_cases, and_parts, not_iff, length, take, drop, any, every, filter, find, length-append,
  take-append-drop, filter-le, any-append, any-of_Mem, Mem-of_any, Mem-filter, Mem-of_filter, All,
  All-append, All-of_Mem, All-filter, Text, lit, text_eq, text_eq_sound, text_eq_refl, text_eq_iff,
  starts_with, starts_with-append, append-drop_of_starts_with, drop-append, Free, Free-append,
  cut_unique, append_cancel,
}
use plugin_rest_cache.Outcome.{Outcome}
use plugin_rest_cache.Response.{Body, Response}
use plugin_rest_cache.Response.CacheControl.{CacheControlConfig}
use plugin_rest_cache.Store.{CacheStore}

pub record SharedResponse : Type 0 where
  pub body : Body
  pub status : ℕ
  pub type : Option Text

-- `shared` is the number of a promise.
pub record InFlightRead : Type 0 where
  pub shared : ℕ
  pub generation : ℕ

pub data Promise : Type 0 where
  pending : Promise
  settled : Outcome SharedResponse → Promise

-- What requests share: the store, the reads in flight, and their promises, numbered as created.
pub record Server (P : Type 0) : Type 0 where
  pub store : CacheStore P
  pub in_flight : Text → Option InFlightRead
  pub promises : ℕ → Promise
  pub created : ℕ

-- What recv reads of the strategy.
pub record RecvStrategy : Type 0 where
  pub enable_etag : Bool
  pub enable_x_cache_headers : Bool
  pub cache_control : Option CacheControlConfig

-- Koa's assignments to a context: `ctx.set`, `ctx.status =` and `ctx.body =`.
pub record Koa : Type 0 where
  pub set : Text → Text → Response → Response
  pub set_status : ℕ → Response → Response
  pub set_body : Body → Response → Response

-- The places where recv lets other requests run, besides `next`.
pub data Await : Type 0 where
  for_hitpass for_etag for_entry for_shared for_writes for_removal : Await

-- How far a call came; `waiting` for a promise that is not settled.
pub data Ended : Type 0 where
  returned thrown waiting : Ended

pub record Visit (P : Type 0) : Type 0 where
  pub ended : Ended
  pub response : Response
  pub server : Server P

module _ {P : Type 0} where
  -- `inFlight.set` and `inFlight.delete`
  unfoldable pub put_read : Text → Option InFlightRead → Server P → Server P
  put_read key read s = record s { in_flight = λ j. if text_eq key j then read else s.in_flight j }

  unfoldable pub put_promise : ℕ → Promise → Server P → Server P
  put_promise i p s = record s { promises = λ j. if j == i then p else s.promises j }

  -- `new Promise`, and its registration under the key.
  unfoldable pub register : Text → InFlightRead → Server P → Server P
  unfolding put_read put_promise
  register key own s =
      put_read key (some own)
        (put_promise own.shared pending (record s { created = s.created + 1 }))

  -- `resolve` and `reject`: a promise settles once.
  unfoldable pub settle : ℕ → Outcome SharedResponse → Server P → Server P
  unfolding put_promise
  settle i outcome s = elim (s.promises i) [
    | pending ↦ put_promise i (settled outcome) s
    | settled _ ↦ s
  ]

  -- The `finally` behind `next`: only the request's own read is removed.
  unfoldable pub release : Text → InFlightRead → Server P → Server P
  unfolding put_read
  release key own s = elim (s.in_flight key) [
    | none ↦ s
    | some read ↦ if read.shared == own.shared then put_read key none s else s
  ]

  unfoldable pub with_store : CacheStore P → Server P → Server P
  with_store store s = record s { store = store }
