-- ===== src/Redis/Sane.antt =====
-- packages/provider-rest-cache-redis/src/RedisCacheProvider.ts: a second check asks of dead members.
use plugin_rest_cache.Prelude.{
  ℕ, zero, suc, ◌≡◌, refl, inl, inr, Bool, true, false, ◌||◌, not, none, some, List, [], ◌∷◌, ◌++◌,
  arith, ltb, if◌then◌else◌, Bool-cases, take, drop, Text,
}
use plugin_rest_cache.Redis.{
  KeyvRedisStore, srem_chunk, multi_chunk, Thread, Answer, start_set, start_delete, after_set,
  next_unlinks, next_srem, next_multi, start_del_many, next_check, start_retrack, next_recheck,
  start_untrack_dead, unless_failed, after_unlink, after_check, after_recheck, after_retrack,
  resume, finished, setting, adding, removing, erasing, untracking, unlinking, clearing, checking,
  dropping, rechecking, retracking, done, failed, unknown, count,
}
use plugin_rest_cache.Redis.Tracking.{
  Overtakes, unlink_first, check_first, recheck_first, Starts, write, delete, delete_many, prune,
}
use plugin_rest_cache.Redis.Covering.{has-append}
use plugin_rest_cache.Redis.Interrupted.{sane}
use plugin_rest_cache.Store.Listing.{has}

-- A thread that is not in a second check, and a first check of nothing.
sane-next_unlinks : (batch rest : List Text) (j : Text) → sane (next_unlinks batch rest) j ≡ true
unfolding next_unlinks sane
sane-next_unlinks (k ∷ batch) rest j = refl
sane-next_unlinks [] [] j = refl
sane-next_unlinks [] (k ∷ rest) j = refl

sane-next_srem : (untracked rest : List Text) (j : Text) → sane (next_srem untracked rest) j ≡ true
unfolding next_srem sane
sane-next_srem untracked [] j = sane-next_unlinks [] untracked j
sane-next_srem untracked (k ∷ rest) j = refl

sane-next_multi : (rest : List Text) (j : Text) → sane (next_multi rest) j ≡ true
unfolding next_multi sane
sane-next_multi [] j = refl
sane-next_multi (k ∷ rest) j = refl

sane-next_check :
    (members rest dead : List Text) (j : Text) → sane (next_check members rest dead) j ≡ true
unfolding next_check sane
sane-next_check members [] [] j = refl
sane-next_check members [] (d ∷ dead) j = refl
sane-next_check members (m ∷ rest) dead j = refl

sane-start_retrack : (members : List Text) (j : Text) → sane (start_retrack members) j ≡ true
unfolding start_retrack sane
sane-start_retrack [] j = refl
sane-start_retrack (m ∷ members) j = refl

sane-next_recheck :
    (dead rest rewritten : List Text) (j : Text)
    → (not (has rest j || has rewritten j) || has dead j) ≡ true
    → sane (next_recheck dead rest rewritten) j ≡ true
unfolding next_recheck sane
sane-next_recheck dead [] rewritten j h = sane-start_retrack rewritten j
sane-next_recheck dead (m ∷ rest) rewritten j h = h

sane-after_recheck :
    (answer : Answer) (dead rest rewritten : List Text) (m j : Text)
    → (not (has (m ∷ rest) j || has rewritten j) || has dead j) ≡ true
    → sane (after_recheck answer dead m rest rewritten) j ≡ true
unfolding after_recheck
sane-after_recheck failed dead rest rewritten m j h = sane-start_retrack dead j
sane-after_recheck done dead rest rewritten m j h =
    sane-next_recheck dead rest (rewritten ++ m ∷ []) j
      (rw (has-append rewritten (m ∷ []) j) (ground arith))
sane-after_recheck unknown dead rest rewritten m j h =
    sane-next_recheck dead rest (rewritten ++ m ∷ []) j
      (rw (has-append rewritten (m ∷ []) j) (ground arith))
sane-after_recheck (count n) dead rest rewritten m j h = elim (Bool-cases (ltb 0 n)) [
  | inl there ↦ rw there (
      sane-next_recheck dead rest (rewritten ++ m ∷ []) j
        (rw (has-append rewritten (m ∷ []) j) (ground arith)))
  | inr gone ↦ rw gone (sane-next_recheck dead rest rewritten j (ground arith))
]

sane-unless_failed :
    (answer : Answer) (next : Thread) (j : Text)
    → sane next j ≡ true
    → sane (unless_failed answer next) j ≡ true
unfolding sane
sane-unless_failed failed next j h = refl
sane-unless_failed done next j h = h
sane-unless_failed unknown next j h = h
sane-unless_failed (count n) next j h = h

sane-after_check :
    (answer : Answer) (members rest dead : List Text) (m j : Text)
    → sane (after_check answer members m rest dead) j ≡ true
unfolding after_check
sane-after_check failed members rest dead m j = sane-next_check [] [] [] j
sane-after_check done members rest dead m j = sane-next_check members rest _ j
sane-after_check unknown members rest dead m j = sane-next_check members rest _ j
sane-after_check (count n) members rest dead m j = sane-next_check members rest _ j

sane-after_unlink :
    (answer : Answer) (batch rest : List Text) (j : Text)
    → sane (after_unlink answer batch rest) j ≡ true
unfolding after_unlink
sane-after_unlink failed batch rest j = sane-next_unlinks batch [] j
sane-after_unlink done batch rest j = sane-next_unlinks batch rest j
sane-after_unlink unknown batch rest j = sane-next_unlinks batch rest j
sane-after_unlink (count n) batch rest j = sane-next_unlinks batch rest j

sane-after_retrack :
    (answer : Answer) (n : ℕ) (members : List Text) (j : Text)
    → sane (after_retrack answer n members) j ≡ true
unfolding after_retrack sane
sane-after_retrack failed zero members j = refl
sane-after_retrack failed (suc zero) members j = refl
sane-after_retrack failed (suc (suc n)) members j = refl
sane-after_retrack done n members j = refl
sane-after_retrack unknown n members j = refl
sane-after_retrack (count m) n members j = refl

sane-tracks :
    (b : Bool) (x y : Thread) (j : Text)
    → sane x j ≡ true
    → sane y j ≡ true
    → sane (if b then x else y) j ≡ true
sane-tracks true x y j h k = h
sane-tracks false x y j h k = k

pub sane-resume :
    (store : KeyvRedisStore) (t : Thread) (answer : Answer) (j : Text)
    → sane t j ≡ true
    → sane (resume store t answer) j ≡ true
unfolding resume sane after_set
sane-resume store finished answer j h = refl
sane-resume store (setting name v ttl) answer j h =
    sane-unless_failed answer (after_set store name) j
      (sane-tracks store.use_redis_sets (adding name) finished j refl refl)
sane-resume store (adding name) answer j h = refl
sane-resume store (removing name) answer j h = sane-unless_failed answer (erasing name) j refl
sane-resume store (erasing name) answer j h = refl
sane-resume store (untracking u rest) answer j h =
    sane-unless_failed answer _ j
      (sane-next_srem (u ++ take srem_chunk rest) (drop srem_chunk rest) j)
sane-resume store (unlinking [] rest) answer j h = refl
sane-resume store (unlinking (k ∷ batch) rest) answer j h = sane-after_unlink answer batch rest j
sane-resume store (clearing rest) answer j h =
    sane-unless_failed answer _ j (sane-next_multi (drop multi_chunk rest) j)
sane-resume store (checking members [] dead) answer j h = refl
sane-resume store (checking members (m ∷ rest) dead) answer j h =
    sane-after_check answer members rest dead m j
sane-resume store (dropping dead) answer j h = sane-next_recheck dead dead [] j (ground arith)
sane-resume store (rechecking dead [] rewritten) answer j h = refl
sane-resume store (rechecking dead (m ∷ rest) rewritten) answer j h =
    sane-after_recheck answer dead rest rewritten m j h
sane-resume store (retracking n members) answer j h = sane-after_retrack answer n members j

pub sane-Overtakes :
    {t t' : Thread} (j : Text) → Overtakes t t' → sane t j ≡ true → sane t' j ≡ true
unfolding sane
sane-Overtakes j (unlink_first front back rest key) h = refl
sane-Overtakes j (check_first members front back dead key) h = refl
sane-Overtakes j (recheck_first dead front back rewritten key) h =
    ground (arith, has-append front (key ∷ back) j, has-append front back j)

pub sane-Starts :
    {store : KeyvRedisStore} {t : Thread} (j : Text) → Starts store t → sane t j ≡ true
unfolding start_set start_delete start_del_many start_untrack_dead sane
sane-Starts j (write name none ttl) = refl
sane-Starts j (write name (some v) ttl) = refl
sane-Starts {store} j (delete name) =
    sane-tracks store.use_redis_sets (removing name) (erasing name) j refl refl
sane-Starts {store} j (delete_many names) =
    elim store.is_cluster as (λ b. sane (start_del_many b names) j ≡ true) [
      | true ↦ sane-next_srem [] names j
      | false ↦ sane-next_multi names j
    ]
sane-Starts j (prune members) = sane-next_check members members [] j
