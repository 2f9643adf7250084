-- ===== src/Race.antt =====
-- packages/plugin-rest-cache/server/src/middlewares/recv.ts, with services/cacheStore.ts: requests
-- that miss the cache, and purges, as they interleave at their awaits. One cache key is followed.
pub mod Covered
pub mod Invariant
pub mod Moves
pub mod Kept
pub mod Fresh
use plugin_rest_cache.Prelude.{
  ℕ, ◌+◌, ◌≡◌, Bool, true, false, Option, none, some, List, [], ◌∷◌, ◌==◌, if◌then◌else◌, Text,
}
use plugin_rest_cache.Store.Log.{Patterns, covers, purged_since}
use plugin_rest_cache.Store.History.{purges}

-- A request that goes to the origin: the generation that it took first, and the version of the
-- content that its response was made from.
pub data Phase : Type 0 where
  idle : Phase
  reading : ℕ → Phase
  answering : ℕ → ℕ → Phase
  fetched : ℕ → ℕ → Phase
  writing : ℕ → ℕ → Phase
  written : ℕ → ℕ → Phase
  removing : Phase

-- A change of the content and the purge that it starts; `listed` says if the key was in the list.
pub data Purging : Type 0 where
  idle : Purging
  committed : Purging
  recorded : Purging
  listed : Bool → Purging

-- The version of the content, the purges recorded so far, the version stored under the key.
pub record World : Type 0 where
  pub version : ℕ
  pub history : List Patterns
  pub entry : Option ℕ
  pub requests : ℕ → Phase
  pub purging : ℕ → Purging

abbrev pub update {ℓ} : {A : Type ℓ} → (ℕ → A) → ℕ → A → ℕ → A
update f i a j = if j == i then a else f j

abbrev pub is_some {ℓ} : {A : Type ℓ} → Option A → Bool
is_some none = false
is_some (some a) = true

module _ (key : Text) where
  -- `store.purgedSince(generation, cacheKey)` in a world.
  unfoldable pub purged : World → ℕ → Bool
  unfolding purged_since
  purged w g = purged_since (purges w.history) g key

  -- What a request does next: the entry and the phase that it leaves.
  pub data Move (w : World) : Phase → Option ℕ → Phase → Type 0 where
    -- In `await next()` the origin reads the content.
    read_content : (g : ℕ) → Move w (reading g) w.entry (answering g w.version)
    -- `await next()` returns with a response that isCacheable accepts.
    respond : (g v : ℕ) → Move w (answering g v) w.entry (fetched g v)
    -- The origin fails, or isCacheable refuses.
    fail : (g : ℕ) → Move w (reading g) w.entry Phase.idle
    refuse : (g v : ℕ) → Move w (answering g v) w.entry Phase.idle
    -- The test before the write.
    skip : (g v : ℕ) → purged w g ≡ true → Move w (fetched g v) w.entry Phase.idle
    start_write : (g v : ℕ) → purged w g ≡ false → Move w (fetched g v) w.entry (writing g v)
    -- `await Promise.all(writes)`: the write lands, or fails and is caught.
    land : (g v : ℕ) → Move w (writing g v) (some v) (written g v)
    lose : (g v : ℕ) → Move w (writing g v) w.entry (written g v)
    -- The test after the write, and `store.delMany`.
    keep : (g v : ℕ) → purged w g ≡ false → Move w (written g v) w.entry Phase.idle
    undo : (g v : ℕ) → purged w g ≡ true → Move w (written g v) w.entry removing
    remove : Move w removing none Phase.idle

  pub data Step : World → World → Type 0 where
    begin :
        (w : World) (i : ℕ)
        → w.requests i ≡ Phase.idle
        → Step w
            (record w { requests = update w.requests i (reading (purges w.history).generation) })
    move :
        (w : World) (i : ℕ) (from to : Phase) (entry : Option ℕ)
        → w.requests i ≡ from
        → Move w from entry to
        → Step w (record w { entry = entry; requests = update w.requests i to })
    -- The content changes, and afterwards `clearByRegexp` is called.
    change :
        (w : World) (k : ℕ)
        → w.purging k ≡ Purging.idle
        → Step w (record w { version = w.version + 1; purging = update w.purging k committed })
    -- `recordPurge` with patterns that match the key.
    record_it :
        (w : World) (k : ℕ) (patterns : Patterns)
        → w.purging k ≡ committed
        → covers key patterns ≡ true
        → Step w
            (record w { history = patterns ∷ w.history; purging = update w.purging k recorded })
    list_keys :
        (w : World) (k : ℕ)
        → w.purging k ≡ recorded
        → Step w (record w { purging = update w.purging k (listed (is_some w.entry)) })
    delete_listed :
        (w : World) (k : ℕ)
        → w.purging k ≡ listed true
        → Step w (record w { entry = none; purging = update w.purging k Purging.idle })
    delete_nothing :
        (w : World) (k : ℕ)
        → w.purging k ≡ listed false
        → Step w (record w { purging = update w.purging k Purging.idle })
    -- A purge of something else is recorded.
    record_other :
        (w : World) (patterns : Patterns) → Step w (record w { history = patterns ∷ w.history })
    -- The entry expires, or is deleted by someone else.
    expire : (w : World) → Step w (record w { entry = none })

  pub data Reach : World → World → Type 0 where
    here : (w : World) → Reach w w
    next : {u v w : World} → Reach u v → Step v w → Reach u w

-- Nothing is cached and nobody is at work.
abbrev pub fresh : ℕ → World
fresh version = record {
  version = version;
  history = [];
  entry = none;
  requests = λ _. Phase.idle;
  purging = λ _. Purging.idle;
}
