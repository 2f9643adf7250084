-- ===== src/Redis.antt =====
-- packages/provider-rest-cache-redis/src/RedisCacheProvider.ts: writes, deletions and prunes.
pub mod Client
pub mod Tracking
pub mod Covering
pub mod Interrupted
pub mod Sane
pub mod Visible
pub mod Names
pub mod Listed
pub mod Purgeable
pub mod Alone
pub mod Pruned
pub mod Provider
pub mod Deleted
pub mod Pacing
pub mod Pass
use plugin_rest_cache.Prelude.{
  ℕ, suc, Bool, true, false, Option, none, some, List, [], ◌∷◌, ◌++◌, ltb, if◌then◌else◌, take,
  drop, Text,
}
use plugin_rest_cache.Redis.Client.{Command, set, sadd, srem, unlink, exists, unlink_srem}

-- The @keyv/redis store: its options, and what `_getNamespace()` gives, none where it is missing.
pub record KeyvRedisStore : Type 0 where
  pub has_client : Bool
  pub is_cluster : Bool
  pub namespace : Option Text
  pub tracking_set : Option Text
  pub use_redis_sets : Bool

abbrev pub srem_chunk : ℕ
srem_chunk = 1000

abbrev pub unlink_concurrency : ℕ
unlink_concurrency = 16

abbrev pub multi_chunk : ℕ
multi_chunk = 1000

-- What one call has left to do at an await. The names are those of entries in Redis.
pub data Thread : Type 0 where
  finished : Thread
  -- `store.set` of makeClusterSafe: before the SET, before the SADD
  setting : Text → Text → Option ℕ → Thread
  adding : Text → Thread
  -- `store.delete` of makeClusterSafe: before the SREM, before the UNLINK
  removing : Text → Thread
  erasing : Text → Thread
  -- delMany on a cluster: the chunks untracked and those left; the UNLINKs in flight and those left
  untracking : List Text → List Text → Thread
  unlinking : List Text → List Text → Thread
  -- delMany on a standalone server: the chunks left
  clearing : List Text → Thread
  -- untrackDead: the batch to check and the dead found; the SREM; the second check with what is
  -- left to ask and what exists; the attempts to put members back
  checking : List Text → List Text → List Text → Thread
  dropping : List Text → Thread
  rechecking : List Text → List Text → List Text → Thread
  retracking : ℕ → List Text → Thread

-- How a command settles. EXISTS of one key may fail alone; `failed` fails the whole check.
pub data Answer : Type 0 where
  done failed unknown : Answer
  count : ℕ → Answer

-- `error !== null || Number(count) > 0`
unfoldable pub counts_as_existing : Answer → Bool
counts_as_existing (count n) = ltb 0 n
counts_as_existing _ = true

-- `if (value === undefined) return;`
unfoldable pub start_set : Text → Option Text → Option ℕ → Thread
start_set name none ttl = finished
start_set name (some value) ttl = setting name value ttl

module _ (store : KeyvRedisStore) where
  unfoldable pub start_delete : Text → Thread
  start_delete name = if store.use_redis_sets then removing name else erasing name

  unfoldable pub after_set : Text → Thread
  after_set name = if store.use_redis_sets then adding name else finished

-- The loop over the UNLINKs: the next batch is sent when one has come back.
unfoldable pub next_unlinks : List Text → List Text → Thread
next_unlinks (key ∷ batch) rest = unlinking (key ∷ batch) rest
next_unlinks [] [] = finished
next_unlinks [] (key ∷ rest) =
    unlinking (take unlink_concurrency (key ∷ rest)) (drop unlink_concurrency (key ∷ rest))

-- The loop over the SREMs.
unfoldable pub next_srem : List Text → List Text → Thread
unfolding next_unlinks
next_srem untracked [] = next_unlinks [] untracked
next_srem untracked (key ∷ rest) = untracking untracked (key ∷ rest)

unfoldable pub next_multi : List Text → Thread
next_multi [] = finished
next_multi (key ∷ rest) = clearing (key ∷ rest)

-- delMany of names, where the store keeps a tracking set.
unfoldable pub start_del_many : Bool → List Text → Thread
unfolding next_srem next_multi
start_del_many true names = next_srem [] names
start_del_many false names = next_multi names

unfoldable pub start_recheck : List Text → Thread
start_recheck [] = finished
start_recheck (member ∷ dead) = dropping (member ∷ dead)

unfoldable pub next_check : List Text → List Text → List Text → Thread
unfolding start_recheck
next_check members [] dead = start_recheck dead
next_check members (member ∷ rest) dead = checking members (member ∷ rest) dead

-- `if (rewritten.length) await retrack(...)`, which tries twice.
unfoldable pub start_retrack : List Text → Thread
start_retrack [] = finished
start_retrack (member ∷ members) = retracking 2 (member ∷ members)

unfoldable pub next_recheck : List Text → List Text → List Text → Thread
unfolding start_retrack
next_recheck dead [] rewritten = start_retrack rewritten
next_recheck dead (member ∷ rest) rewritten = rechecking dead (member ∷ rest) rewritten

unfoldable pub start_untrack_dead : List Text → Thread
unfolding next_check
start_untrack_dead members = next_check members members []

module _ (set_name : Text) where
  -- The command that a thread waits for.
  unfoldable pub command_of : Thread → Option Command
  command_of finished = none
  command_of (setting name value ttl) = some (set name value ttl)
  command_of (adding name) = some (sadd set_name (name ∷ []))
  command_of (removing name) = some (srem set_name (name ∷ []))
  command_of (erasing name) = some (unlink (name ∷ []))
  command_of (untracking untracked rest) = some (srem set_name (take srem_chunk rest))
  command_of (unlinking [] rest) = none
  command_of (unlinking (key ∷ batch) rest) = some (unlink (key ∷ []))
  command_of (clearing rest) = some (unlink_srem set_name (take multi_chunk rest))
  command_of (checking members [] dead) = none
  command_of (checking members (member ∷ rest) dead) = some (exists member)
  command_of (dropping dead) = some (srem set_name dead)
  command_of (rechecking dead [] rewritten) = none
  command_of (rechecking dead (member ∷ rest) rewritten) = some (exists member)
  command_of (retracking attempts members) = some (sadd set_name members)

-- An error that the call passes on.
abbrev pub unless_failed : Answer → Thread → Thread
unless_failed failed next = finished
unless_failed _ next = next

-- A failed UNLINK rejects the batch: those in flight go on, and no other is sent.
unfoldable pub after_unlink : Answer → List Text → List Text → Thread
unfolding next_unlinks
after_unlink failed batch rest = next_unlinks batch []
after_unlink _ batch rest = next_unlinks batch rest

-- `existing` reports every member as existing if the check fails as a whole.
unfoldable pub after_check : Answer → List Text → Text → List Text → List Text → Thread
unfolding next_check counts_as_existing
after_check failed members member rest dead = start_recheck []
after_check answer members member rest dead =
    next_check members rest (if counts_as_existing answer then dead else dead ++ member ∷ [])

unfoldable pub after_recheck : Answer → List Text → Text → List Text → List Text → Thread
unfolding next_recheck counts_as_existing
after_recheck failed dead member rest rewritten = start_retrack dead
after_recheck answer dead member rest rewritten =
    next_recheck dead rest
      (if counts_as_existing answer then rewritten ++ member ∷ [] else rewritten)

-- The attempts of retrack that are left.
unfoldable pub after_retrack : Answer → ℕ → List Text → Thread
after_retrack failed (suc (suc attempts)) members = retracking (suc attempts) members
after_retrack _ _ members = finished

-- What a thread does with the answer to its command.
unfoldable pub resume : KeyvRedisStore → Thread → Answer → Thread
unfolding after_set next_srem next_multi after_unlink after_check after_recheck after_retrack
resume store finished answer = finished
resume store (setting name value ttl) answer = unless_failed answer (after_set store name)
resume store (adding name) answer = finished
resume store (removing name) answer = unless_failed answer (erasing name)
resume store (erasing name) answer = finished
resume store (untracking untracked rest) answer =
    unless_failed answer (next_srem (untracked ++ take srem_chunk rest) (drop srem_chunk rest))
resume store (unlinking [] rest) answer = finished
resume store (unlinking (key ∷ batch) rest) answer = after_unlink answer batch rest
resume store (clearing rest) answer = unless_failed answer (next_multi (drop multi_chunk rest))
resume store (checking members [] dead) answer = finished
resume store (checking members (member ∷ rest) dead) answer =
    after_check answer members member rest dead
resume store (dropping dead) answer = next_recheck dead dead []
resume store (rechecking dead [] rewritten) answer = finished
resume store (rechecking dead (member ∷ rest) rewritten) answer =
    after_recheck answer dead member rest rewritten
resume store (retracking attempts members) answer = after_retrack answer attempts members
