-- ===== src/Recv/Handler.antt =====
-- packages/plugin-rest-cache/server/src/middlewares/recv.ts: the middleware, from createRecv on.
use plugin_rest_cache.Prelude.{
  ℕ, Bool, true, false, Option, none, some, [], ◌∷◌, if◌then◌else◌, Text, lit,
}
use plugin_rest_cache.Outcome.{Outcome, resolved, rejected}
use plugin_rest_cache.Context.{Request}
use plugin_rest_cache.Json.{Json, str}
use plugin_rest_cache.Keys.{generate_cache_key}
use plugin_rest_cache.Response.{Body, value, stream, buffer, Response, truthy}
use plugin_rest_cache.Response.Cacheable.{CacheabilityVerdict, is_cacheable, cacheable, refused}
use plugin_rest_cache.Response.Decisions.{CacheRouteConfig, should_lookup, quoted, etag_match}
use plugin_rest_cache.Response.Etags.{etag_generate, etag_key, etag_lookup}
use plugin_rest_cache.Response.Replay.{type_to_keep}
use plugin_rest_cache.Store.{get_entry, set, del_many}
use plugin_rest_cache.Store.Entry.{CacheEntry}
use plugin_rest_cache.Store.Contract.{Provider}
use plugin_rest_cache.Store.Log.{purged_since}
use plugin_rest_cache.Recv.Endings.{set_cache_control, set_x_cache, not_modified, hit, coalesced}
use plugin_rest_cache.Recv.{
  SharedResponse, InFlightRead, Promise, pending, settled, Server, RecvStrategy, Koa, Await,
  for_hitpass, for_etag, for_entry, for_shared, for_writes, for_removal, returned, thrown, waiting,
  Visit, register, settle, release, with_store,
}

-- `cacheEntry?.data`, if it is truthy, with the entry's type.
unfoldable pub hit_of : Option CacheEntry → Option (Json × Option Text)
unfolding truthy
hit_of none = none
hit_of (some entry) = elim entry.data' [
  | none ↦ none
  | some v ↦ if truthy v then some (v, entry.type) else none
]

-- `etagCached && etagMatch(ctx, etagCached)`
unfoldable pub etag_matches : Request → Option Text → Bool
unfolding etag_match
etag_matches request none = false
etag_matches request (some etag) = etag_match request etag

-- `store.purgedSince`
unfoldable pub raced : {P : Type 0} → Server P → ℕ → Text → Bool
unfolding purged_since
raced s generation key = purged_since s.store.purges generation key

-- The read that a request registers: its promise, and the generation before the origin is called.
abbrev pub own_read : {P : Type 0} → Server P → InFlightRead
own_read s = record { shared = s.created; generation = s.store.purges.generation }

-- What the waiters get.
unfoldable pub shared_response : Response → SharedResponse
unfolding type_to_keep
shared_response ctx = record { body = ctx.body; status = ctx.status; type = type_to_keep ctx }

module _ {P : Type 0} (api : Provider P) (keys_prefix : Text) (koa : Koa) (md5 : Text → Text)
    (strategy : RecvStrategy) (route : CacheRouteConfig) (meanwhile : Await → Server P → Server P)
    (next : Response → Server P → Outcome (Unit {0}) × Response × Server P) where
  -- The ETag, if it is on, on the response and into the store.
  unfoldable pub write_etag : Text → Json → Response → Server P → Response × Server P
  unfolding etag_generate set with_store
  write_etag key v ctx s =
      let etag = etag_generate md5 v in
      let (outcome, store') =
        set api keys_prefix (etag_key key) (str etag) route.max_age (record { type = none })
          s.store in
      if strategy.enable_etag
      then (koa.set (lit "ETag") (quoted etag) ctx, with_store store' s)
      else (ctx, s)

  unfoldable pub write_body : Text → Json → Option Text → Server P → Server P
  unfolding set with_store
  write_body key v type s =
      with_store (set api keys_prefix key v route.max_age (record { type = type }) s.store).1 s

  -- `delMany` of the body and its ETag.
  unfoldable pub remove : Text → Response → Server P → Visit P
  unfolding del_many with_store
  remove key ctx s =
      let (outcome, store') = del_many api keys_prefix (key ∷ etag_key key ∷ []) s.store in
      let s' = meanwhile for_removal (with_store store' s) in
      elim outcome [
        | resolved _ ↦ record { ended = returned; response = ctx; server = s' }
        | rejected ↦ record { ended = thrown; response = ctx; server = s' }
      ]

  -- From `await Promise.all(writes)` on.
  unfoldable pub finish : Text → InFlightRead → Response → Server P → Visit P
  unfolding remove raced
  finish key own ctx s =
      let s' = meanwhile for_writes s in
      if raced s' own.generation key
      then remove key ctx s'
      else record { ended = returned; response = ctx; server = s' }

  -- The writes; isCacheable accepts no stream and no buffer.
  unfoldable pub write : Body → Text → InFlightRead → Option Text → Response → Server P → Visit P
  unfolding write_etag write_body finish
  write (value v) key own type ctx s =
      let (ctx', s') = write_etag key v ctx s in finish key own ctx' (write_body key v type s')
  write stream key own type ctx s = record { ended = thrown; response = ctx; server = s }
  write buffer key own type ctx s = record { ended = thrown; response = ctx; server = s }

  -- From the verdict on.
  unfoldable pub deliver : CacheabilityVerdict → Text → InFlightRead → Response → Server P → Visit P
  unfolding settle shared_response raced set_cache_control write
  deliver (refused reason) key own ctx s = record {
    ended = returned;
    response = ctx;
    server = settle own.shared rejected s;
  }
  deliver cacheable key own ctx s =
      let s' = settle own.shared (resolved (shared_response ctx)) s in
      let ctx' = set_cache_control koa strategy route ctx in
      if raced s' own.generation key
      then record { ended = returned; response = ctx; server = s' }
      else write ctx'.body key own (type_to_keep ctx) ctx' s'

  -- From the end of `await next()` on, for a request that has registered its read.
  unfoldable pub fetched : Text → InFlightRead → Outcome (Unit {0}) → Response → Server P → Visit P
  unfolding settle release set_x_cache is_cacheable deliver
  fetched key own rejected ctx s = record {
    ended = thrown;
    response = ctx;
    server = release key own (settle own.shared rejected s);
  }
  fetched key own (resolved _) ctx s =
      let ctx' = set_x_cache koa strategy route (lit "MISS") ctx in
      deliver (is_cacheable ctx') key own ctx' (release key own s)

  -- The same for a hitpass.
  unfoldable pub bypassed : Outcome (Unit {0}) → Response → Server P → Visit P
  unfolding set_x_cache
  bypassed rejected ctx s = record { ended = thrown; response = ctx; server = s }
  bypassed (resolved _) ctx s = record {
    ended = returned;
    response = set_x_cache koa strategy route (lit "HITPASS") ctx;
    server = s;
  }

  -- A look-up that missed registers its read; a hitpass does not.
  unfoldable pub fetch : Bool → Text → Response → Server P → Visit P
  unfolding fetched bypassed register
  fetch true key ctx s =
      let (outcome, ctx', s') = next ctx (register key (own_read s) s) in
      fetched key (own_read s) outcome ctx' s'
  fetch false key ctx s = let (outcome, ctx', s') = next ctx s in bypassed outcome ctx' s'

  unfoldable pub join : Promise → Text → Response → Server P → Visit P
  unfolding coalesced fetch
  join pending key ctx s = record { ended = waiting; response = ctx; server = s }
  join (settled rejected) key ctx s = fetch true key ctx s
  join (settled (resolved shared)) key ctx s = record {
    ended = returned;
    response = coalesced koa strategy route shared ctx;
    server = s;
  }

  unfoldable pub miss : Option InFlightRead → Text → Response → Server P → Visit P
  unfolding fetch join raced
  miss none key ctx s = fetch true key ctx s
  miss (some read) key ctx s =
      let s' = meanwhile for_shared s in
      elim (raced s read.generation key) [
        | true ↦ fetch true key ctx s
        | false ↦ join (s'.promises read.shared) key ctx s'
      ]

  unfoldable pub look_up_entry : Option Text → Text → Response → Server P → Visit P
  unfolding hit_of hit miss with_store
  look_up_entry etag key ctx s =
      let (entry, store') = get_entry api keys_prefix key s.store in
      let s' = meanwhile for_entry (with_store store' s) in
      elim (hit_of entry) [
        | some (v, type) ↦ record {
          ended = returned;
          response = hit koa strategy route etag v type ctx;
          server = s';
        }
        | none ↦ miss (s'.in_flight key) key ctx s'
      ]

  -- With the ETag that was looked up.
  unfoldable pub look_up_with : Request → Text → Response → Option Text → Server P → Visit P
  unfolding etag_matches not_modified look_up_entry
  look_up_with request key ctx etag s =
      if etag_matches request etag
      then record { ended = returned; response = not_modified koa strategy route ctx; server = s }
      else look_up_entry etag key ctx s

  unfoldable pub look_up : Request → Text → Response → Server P → Visit P
  unfolding etag_lookup look_up_with look_up_entry with_store
  look_up request key ctx s =
      let (etag, store') = etag_lookup api keys_prefix key s.store in
      if strategy.enable_etag
      then look_up_with request key ctx etag (meanwhile for_etag (with_store store' s))
      else look_up_entry none key ctx s

  unfoldable pub recv : Request → Response → Server P → Visit P
  unfolding generate_cache_key should_lookup fetch look_up
  recv request ctx s =
      let key = generate_cache_key request route.keys in
      let s' = meanwhile for_hitpass s in
      elim (should_lookup request route.hitpass) [
        | rejected ↦ record { ended = thrown; response = ctx; server = s' }
        | resolved true ↦ look_up request key ctx s'
        | resolved false ↦ fetch false key ctx s'
      ]
