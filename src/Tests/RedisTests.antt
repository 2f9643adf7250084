-- ===== src/Tests/RedisTests.antt =====
-- packages/provider-rest-cache-redis/src/RedisCacheProvider.ts: runs against a server that obeys.
use mathlib.Core.List.{Memᴰ}
use plugin_rest_cache.Prelude.{
  ℕ, zero, suc, ◌≡◌, refl, ◌≢◌, inl, inr, Bool, true, false, ◌&&◌, not, none, some, List, [], ◌∷◌,
  ◌++◌, arith, if◌then◌else◌, Bool-cases, filter, any-append, Text, lit, text_eq, starts_with,
}
use plugin_rest_cache.Outcome.{resolved}
use plugin_rest_cache.Race.{update}
use plugin_rest_cache.Redis.{
  KeyvRedisStore, Thread, start_set, start_delete, after_set, command_of, resume, finished, setting,
  adding, removing, erasing, done, failed,
}
use plugin_rest_cache.Redis.Client.{
  Command, set, sadd, srem, unlink, unlink_srem, exists, Server, Obeys, live_after, members_after,
}
use plugin_rest_cache.Redis.Tracking.{World, start, answered, Reach, here, next, write, delete}
use plugin_rest_cache.Redis.Names.{Listings, prefix_of, keys, named, nodes_of}
use plugin_rest_cache.Redis.Listed.{Yields, keys-scan}
use plugin_rest_cache.Redis.Purgeable.{Quiet-listed}
use plugin_rest_cache.Redis.Pass.{Page, batches, Handles, prune_tracking_set_lem}
use plugin_rest_cache.Redis.Provider.{
  by_commands, tracked_namespace, start_prune, finish_prune, del_many, prune_interval, prune_state,
}
use plugin_rest_cache.Redis.Deleted.{Deleted, del_many_lem}
use plugin_rest_cache.Redis.Pacing.{Event, call, finish, starts, Spaced, starts-Spaced}
use plugin_rest_cache.Store.Listing.{has, has-filter}

-- The entries as a test, and the members of each set as a list.
abbrev Tables : Type 0
Tables = (Text → Bool) × (Text → List Text)

without : List Text → List Text → List Text
without names members = filter (λ j. not (has names j)) members

members_of : Text → Command → List Text → List Text
unfolding without
members_of s (sadd s' names) members = if text_eq s' s then names ++ members else members
members_of s (srem s' names) members = if text_eq s' s then without names members else members
members_of s (unlink_srem s' names) members =
    if text_eq s' s then without names members else members
members_of s (set _ _ _) members = members
members_of s (unlink _) members = members
members_of s (exists _) members = members

abbrev tables : Server Tables
tables = record {
  live = λ r. r.0;
  member = λ s r j. has (r.1 s) j;
  exec = λ c r. (live_after c r.0, λ s. members_of s c (r.1 s));
}

has-without :
    (names members : List Text) (j : Text)
    → has (without names members) j ≡ (not (has names j) && has members j)
unfolding without
has-without names members j = has-filter (λ i. not (has names i)) j members

has-members_of :
    (s : Text) (c : Command) (members : List Text) (j : Text)
    → has (members_of s c members) j ≡ members_after s c (has members) j
unfolding members_of
has-members_of s (set _ _ _) members j = refl
has-members_of s (unlink _) members j = refl
has-members_of s (exists _) members j = refl
has-members_of s (sadd s' names) members j = elim (Bool-cases (text_eq s' s)) [
  | inl same ↦ rw same (any-append (text_eq j) names members)
  | inr other ↦ rw other refl
]
has-members_of s (srem s' names) members j = elim (Bool-cases (text_eq s' s)) [
  | inl same ↦ rw same (has-without names members j)
  | inr other ↦ rw other refl
]
has-members_of s (unlink_srem s' names) members j = elim (Bool-cases (text_eq s' s)) [
  | inl same ↦ rw same (has-without names members j)
  | inr other ↦ rw other refl
]

abbrev tables_obey : Obeys tables
tables_obey = record {
  exec-live = λ c r j. refl;
  exec-member = λ s c r j. has-members_of s c (r.1 s) j;
}

abbrev nothing : Tables
nothing = (λ j. false, λ s. [])

abbrev store : Bool → KeyvRedisStore
store use_sets = record {
  has_client = true;
  is_cluster = true;
  namespace = some (lit "keyv");
  tracking_set = some (lit "set");
  use_redis_sets = use_sets;
}

abbrev name : Text
name = lit "keyv:a"

-- An entry that the set has, and a member without an entry.
abbrev stale : Tables
stale = (text_eq name, λ s. name ∷ lit "keyv:old" ∷ [])

del_many_lem_example :
    (t : Thread) × (del_many (store true) (lit "a" ∷ []) ≡ by_commands t)
    × Deleted tables tables_obey (store true) (lit "set") (lit "keyv") (lit "a" ∷ []) t stale
unfolding tracked_namespace
del_many_lem_example =
    del_many_lem tables tables_obey (store true) (lit "set") (lit "keyv") (lit "a" ∷ []) stale refl

-- SSCAN answers on two pages.
abbrev pages : List Page
pages = resolved (lit "5", name ∷ []) ∷ resolved (lit "0", lit "keyv:old" ∷ []) ∷ []

two_batches : batches pages ≡ some ((name ∷ []) ∷ (lit "keyv:old" ∷ []) ∷ [])
unfolding batches text_eq
two_batches = refl

prune_tracking_set_lem_example :
    (r : Tables) × Handles tables
      (store true)
      (lit "set")
      ((name ∷ []) ∷ (lit "keyv:old" ∷ []) ∷ [])
      stale
      r
    × ((j : Text) → tables.live r j ≡ tables.live stale j)
    × ((j : Text)
        → tables.member (lit "set") r j
          ≡ (tables.live stale j && tables.member (lit "set") stale j))
prune_tracking_set_lem_example =
    prune_tracking_set_lem tables tables_obey (store true) (lit "set") pages
      ((name ∷ []) ∷ (lit "keyv:old" ∷ []) ∷ []) stale two_batches (λ j h. h)

-- Two calls of set(), with one of prune() between them, and one that is due again.
abbrev calls : List Event
calls =
    call prune_interval 5
    ∷ finish
    ∷ call 0 7
    ∷ finish
    ∷ call prune_interval 300006
    ∷ call prune_interval 300007
    ∷ []

starts-Spaced_example : Spaced none (starts calls prune_state)
starts-Spaced_example = starts-Spaced calls prune_state

three_passes :
    starts calls prune_state ≡ (prune_interval, 5) ∷ (0, 7) ∷ (prune_interval, 300007) ∷ []
unfolding start_prune finish_prune
three_passes = refl

-- SCAN answers everything on one page.
abbrev one_page : Listings Tables
one_page = record {
  smembers = λ s r. resolved (r.1 s);
  scan = λ node cursor pattern r. resolved (lit "0", lit "sets:set:keyv:a" ∷ []);
  masters = 1 ∷ 2 ∷ [];
  iterated = λ r. resolved [];
}

keys-scan_example :
    (listed : List Text) × (keys one_page 1 (store false) nothing ≡ some (resolved listed))
    × ((node : ℕ) (key : Text)
        → Memᴰ node (nodes_of one_page (store false))
        → Yields one_page nothing node
            (named (lit "set") ++ b'*' ∷ [])
            (lit "0")
            (named (lit "set") ++ (prefix_of (lit "keyv") ++ key))
        → has listed key ≡ true)
unfolding text_eq
keys-scan_example =
    keys-scan one_page nothing (store false) (lit "keyv") (lit "set") refl refl refl refl
      (λ cursor. 0) (λ node cursor pattern. (lit "0", lit "sets:set:keyv:a" ∷ [], refl, λ e. cc)) 1
      (omega arith)

-- A write and a deletion of one key, both begun before either has sent a command.
abbrev empty : World Tables
empty = record { server = nothing; threads = λ _. finished; lost = [] }

abbrev moved : World Tables → ℕ → Command → Thread → World Tables
moved w i c t = record w { server = tables.exec c w.server; threads = update w.threads i t }

abbrev begun : World Tables
begun = record empty {
  threads = update (update empty.threads 0 (setting name (lit "v") none)) 1 (removing name);
}

abbrev untracked : World Tables
untracked = moved begun 1 (srem (lit "set") (name ∷ [])) (erasing name)

abbrev erased : World Tables
erased = moved untracked 1 (unlink (name ∷ [])) finished

abbrev kept_alive : World Tables
kept_alive = moved erased 0 (set name (lit "v") none) (adding name)

abbrev both_done : World Tables
both_done = moved kept_alive 0 (sadd (lit "set") (name ∷ [])) finished

done-ne-failed : done ≢ failed
done-ne-failed e = cc

interleaved : Reach tables (store true) (lit "set") empty both_done
unfolding start_set start_delete command_of resume after_set
interleaved =
    next
      (next
        (next
          (next
            (next
              (next here
                (start 0 (setting name (lit "v") none) refl (write name (some (lit "v")) none)))
              (start 1 (removing name) refl (delete name)))
            (answered 1 (removing name) (srem (lit "set") (name ∷ [])) done refl refl tt
              done-ne-failed))
          (answered 1 (erasing name) (unlink (name ∷ [])) done refl refl tt done-ne-failed))
        (answered 0 (setting name (lit "v") none) (set name (lit "v") none) done refl refl tt
          done-ne-failed))
      (answered 0 (adding name) (sadd (lit "set") (name ∷ [])) done refl refl tt done-ne-failed)

both_finished : (i : ℕ) → both_done.threads i ≡ finished
both_finished zero = refl
both_finished (suc zero) = refl
both_finished (suc (suc i)) = ground arith

Quiet-listed_example :
    (listed : List Text) × (keys one_page 0 (store true) both_done.server ≡ some (resolved listed))
    × ((key : Text)
        → has both_done.lost (prefix_of (lit "keyv") ++ key) ≡ false
        → tables.live both_done.server (prefix_of (lit "keyv") ++ key) ≡ true
        → has listed key ≡ true)
Quiet-listed_example =
    Quiet-listed tables one_page tables_obey (λ s r. (r.1 s, refl, λ j. refl)) (store true)
      (lit "keyv") (lit "set") refl refl refl refl empty both_done (λ i. refl) (λ j alive. cc)
      interleaved both_finished 0

written_listed : keys one_page 0 (store true) both_done.server ≡ some (resolved (lit "a" ∷ []))
unfolding keys members_of text_eq starts_with
written_listed = refl
