-- ===== src/Lib.antt =====
-- The REST cache plugin for Strapi: its cache keys, its store, its policy on responses, and the race
-- between requests that fill the cache and purges that empty it.
--
-- A request reaches the middleware `recv`, which makes a cache key of it, looks the key up in the
-- store, and on a miss lets the origin answer and stores the answer. A change of the content purges
-- the keys that match some patterns. The store keeps its entries in a provider, under a prefix.
--
-- The files, and the code that they model (below packages/plugin-rest-cache/server/src/):
--   Prelude.antt      the libraries' names, Boolean tests, lists, and strings as lists of UTF-16 units
--   Json.antt         JSON.stringify and JSON.parse, with their round trip
--   Uri.antt          encodeURIComponent
--   Context.antt      the part of a Koa request that the plugin reads
--   Outcome.antt      promises that settle, calls that throw, calls that a timer overtakes
--   Keys.antt         utils/keys/*.ts and types/CacheKeysConfig.ts. A key is path?query&headers&auth.
--                     Keys/Escape, Query, Headers, Auth and Path are one file each of the code;
--                     the other children prove that a key can be read back.
--   Store.antt        services/cacheStore.ts: `init`, `get`, `getEntry`, `set`, `del`, `delMany`,
--                     `keys`, `reset`, `clearByRegexp`, `ready`. A call takes the state and gives its
--                     outcome and the new state. Store/Log is recordPurge and purgedSince, Store/Entry
--                     is utils/store/serialize.ts and deserialize.ts, Store/Contract is the calls of
--                     types/CacheProvider.ts, Store/Lawful is what a provider that answers does.
--   Recv.antt         middlewares/recv.ts: what the middleware works on. Recv/Endings is what it does
--                     to the context, Recv/Handler the handler, with
--                     what its awaits let other requests do as a function on the shared state; the
--                     other children prove what it answers, stores and tells those who wait.
--   Race.antt         middlewares/recv.ts with the purges, as a step relation on one cache key: one
--                     step for what a request or a purge does between two awaits.
--   Response.antt     utils/middlewares/isCacheable.ts, buildCacheControl.ts and shouldLookup.ts,
--                     utils/etags/*.ts, utils/config/unkeyedAuthenticatedRoutes.ts, the hitpass of a
--                     listed route in utils/config/resolveUserStrategy.ts (Response/Listed), and the
--                     Content-Type that middlewares/recv.ts keeps and replays.
--   Related.antt      utils/config/getRelatedModelsUid.ts
--   Strategy.antt     utils/config/resolveUserStrategy.ts, with types/inputs.ts and the constructor of
--                     types/CacheRouteConfig.ts. Strategy/Names reads uids and paths; the other
--                     children prove which routes come out, and what they inherit.
--   Patterns.antt     utils/config/getRouteRegExp.ts: the source text of a pattern. Patterns/Pieces reads
--                     the parameters of a path, Patterns/Values makes a value a pattern.
--                     Patterns/Matcher is the part of RegExp that the sources without modifiers and
--                     constraints are written in; the other children prove which keys they match, for
--                     any parameters (Serving) and for given ones (Exact).
--   Purging.antt      services/cacheConfig.ts, and clearByUid of services/cacheStore.ts.
--                     Purging/Triggers is utils/middlewares/registerDocumentServiceMiddleware.ts and
--                     registerDatabaseLifecyclePurge.ts, Purging/Requests is middlewares/purge.ts and
--                     purgeAdmin.ts and controllers/purge.ts. Purging/Scope says, apart from the code,
--                     which document a write is to; the other children prove what is purged,
--                     Purging/Pages which requests are not answered from the cache after a write.
--   Routes.antt       utils/middlewares/flattenRoutes.ts. Routes/Middlewares and Routes/Inject are
--                     injectMiddlewares.ts, where a route of a list is an object of its own; the other
--                     children prove which routes are found, and what each ends with.
--   Providers.antt    the delMany and clear that types/CacheProvider.ts gives every provider, and
--                     packages/provider-rest-cache-memory/src/MemoryCacheProvider.ts, which meets the
--                     laws of Store/Lawful if its cache answers
--   Redis.antt        packages/provider-rest-cache-redis/src/RedisCacheProvider.ts. A call is a thread:
--                     `command_of` is the command it waits for, `resume` what it does with the
--                     answer. Redis/Tracking interleaves the threads, with failures; Redis/Provider is
--                     delMany, clear and startPrune, Redis/Pass is set, prune and the pass over the
--                     set, Redis/Names is keys().
--   Tests.antt        runs of the model, and the theorems at concrete inputs
--
-- Parameters. The provider is a record of calls; a theorem about its entries takes the laws of
-- Store/Lawful, which say that a ready provider answers like a map and that no entry expires between
-- the calls compared; Store/Table meets them. A compiled pattern is its test, a function to Bool, and
-- the RegExp constructor a function that may throw; Patterns/Matcher defines it on the sources that it
-- reads, over a function for all others. A write is a call that changes a state.
-- Koa's assignments to a context are a record of functions, of which Recv/Quiet states what they do;
-- MD5 is a function, whose result is never empty.
-- The Redis server obeys Redis/Client, which says what its commands do to entries and to sets.
--
-- Choices. Strings are lists of code units. A number in JSON is its printed token. Lower case is that
-- of ASCII, which paths, header names and the words compared here are. `useAuth` is its truth value;
-- listedRouteHitpass, which compares it with true, is modelled for a boolean, as the type has it.
-- What `get` gives is `none` for null and for undefined. The decimal printer takes one round more
-- than the number, and the JSON parser one for each unit of its text; the search for related content
-- types takes a round for each schema and one more, and the default delMany one for each key. All four
-- are proved enough. The SCAN loop takes a round for each page, and ends if the cursors run out. In
-- Race.antt a deletion that a purge or a request sends succeeds, every change of the content is
-- followed by a purge whose patterns match the key, and only the entry of the body is followed, not
-- its ETag.
--
-- Not modelled: logging, the timer of utils/store/withTimeout.ts beyond its two outcomes, Koa's own
-- inference of headers from a body, and the admin panel, which is user interface; the check of the
-- options of createRecv, what the RegExp constructor makes of alternatives and
-- repetitions, which values, constraints and modifiers bring into a pattern, the defaults of the strategy's own
-- switches, deepFreeze.ts, the statistics, of which no theorem here speaks.
mod Prelude
pub mod Json
pub mod Uri
pub mod Context
pub mod Keys
pub mod Outcome
pub mod Store
pub mod Recv
pub mod Race
pub mod Response
pub mod Related
pub mod Providers
pub mod Redis
pub mod Strategy
pub mod Patterns
pub mod Purging
pub mod Routes
pub mod Tests
