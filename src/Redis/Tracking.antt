-- ===== src/Redis/Tracking.antt =====
-- packages/provider-rest-cache-redis/src/RedisCacheProvider.ts: calls that interleave at their
-- commands, and the entries that the tracking set may miss.
use plugin_rest_cache.Prelude.{
  ℕ, suc, ◌≡◌, ◌≢◌, Bool, true, Option, some, List, [], ◌∷◌, ◌++◌, ltb, if◌then◌else◌, take, Text,
}
use plugin_rest_cache.Race.{update}
use plugin_rest_cache.Redis.{
  KeyvRedisStore, srem_chunk, Thread, Answer, start_set, start_delete, start_del_many,
  start_untrack_dead, command_of, resume, finished, setting, adding, removing, erasing, untracking,
  unlinking, checking, rechecking, retracking, done, failed, count,
}
use plugin_rest_cache.Redis.Client.{Command, exists, Server}

-- The calls in progress, and the names that a failed command has given up.
pub record World (R : Type 0) : Type 0 where
  pub server : R
  pub threads : ℕ → Thread
  pub lost : List Text

-- The names that may be left alive and untracked when a thread's command fails.
unfoldable pub risked : Thread → List Text
risked (setting name value ttl) = name ∷ []
risked (adding name) = name ∷ []
risked (removing name) = name ∷ []
risked (erasing name) = name ∷ []
risked (untracking untracked rest) = untracked ++ take srem_chunk rest
risked (unlinking (key ∷ batch) rest) = key ∷ rest
risked (retracking (suc (suc attempts)) members) = []
risked (retracking _ members) = members
risked _ = []

-- A call begins: a write, a deletion, or one batch of a prune.
pub data Starts (store : KeyvRedisStore) : Thread → Type 0 where
  write :
      (name : Text) (value : Option Text) (ttl : Option ℕ) → Starts store (start_set name value ttl)
  delete : (name : Text) → Starts store (start_delete store name)
  delete_many : (names : List Text) → Starts store (start_del_many store.is_cluster names)
  prune : (members : List Text) → Starts store (start_untrack_dead members)

-- UNLINKs and checks that were sent together come back in any order.
pub data Overtakes : Thread → Thread → Type 0 where
  unlink_first :
      (front back rest : List Text) (key : Text)
      → Overtakes (unlinking (front ++ key ∷ back) rest) (unlinking (key ∷ (front ++ back)) rest)
  check_first :
      (members front back dead : List Text) (key : Text)
      → Overtakes
          (checking members (front ++ key ∷ back) dead)
          (checking members (key ∷ (front ++ back)) dead)
  recheck_first :
      (dead front back rewritten : List Text) (key : Text)
      → Overtakes
          (rechecking dead (front ++ key ∷ back) rewritten)
          (rechecking dead (key ∷ (front ++ back)) rewritten)

-- The answer to EXISTS tells the truth, or says that this key's check failed.
abbrev pub Honest : (Text → Bool) → Command → Answer → Type 0
Honest live (exists name) (count n) = ltb 0 n ≡ live name
Honest live (exists name) done = ⊥
Honest live _ _ = Unit

module _ {R : Type 0} (server : Server R) (store : KeyvRedisStore) (set_name : Text) where
  pub data Step (w : World R) : World R → Type 0 where
    start :
        (i : ℕ) (t : Thread)
        → w.threads i ≡ finished
        → Starts store t
        → Step w (record w { threads = update w.threads i t })
    answered :
        (i : ℕ) (t : Thread) (c : Command) (answer : Answer)
        → w.threads i ≡ t
        → command_of set_name t ≡ some c
        → Honest (server.live w.server) c answer
        → answer ≢ failed
        → Step w (record w {
          server = server.exec c w.server;
          threads = update w.threads i (resume store t answer);
        })
    -- A command that fails may have been carried out.
    fails :
        (i : ℕ) (t : Thread) (c : Command) (applied : Bool)
        → w.threads i ≡ t
        → command_of set_name t ≡ some c
        → Step w (record w {
          server = if applied then server.exec c w.server else w.server;
          threads = update w.threads i (resume store t failed);
          lost = risked t ++ w.lost;
        })
    overtake :
        (i : ℕ) (t t' : Thread)
        → w.threads i ≡ t
        → Overtakes t t'
        → Step w (record w { threads = update w.threads i t' })
    -- Entries expire.
    expire :
        (r : R)
        → ((j : Text) → server.live r j ≡ true → server.live w.server j ≡ true)
        → ((j : Text) → server.member set_name r j ≡ server.member set_name w.server j)
        → Step w (record w { server = r })

  pub data Reach (v : World R) : World R → Type 0 where
    here : Reach v v
    next : {w u : World R} → Reach v w → Step w u → Reach v u
