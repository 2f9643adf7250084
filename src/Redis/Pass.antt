-- ===== src/Redis/Pass.antt =====
-- packages/provider-rest-cache-redis/src/RedisCacheProvider.ts: a pass over the tracking set.
use mathlib.Core.Option
use mathlib.Core.Path.{ap₂}
use plugin_rest_cache.Prelude.{
  ℕ, ◌≡◌, refl, sym, ap, ◌∙◌, Bool, true, false, ◌&&◌, ◌||◌, not, Option, none, some, List, [], ◌∷◌,
  ◌++◌, arith, if◌then◌else◌, Text, lit, text_eq,
}
use plugin_rest_cache.Outcome.{Outcome, resolved, rejected}
use plugin_rest_cache.Redis.{KeyvRedisStore, Thread, start_untrack_dead, finished}
use plugin_rest_cache.Redis.Alone.{Runs}
use plugin_rest_cache.Redis.Client.{Server, Obeys}
use plugin_rest_cache.Redis.Covering.{has-append}
use plugin_rest_cache.Redis.Pruned.{start_untrack_dead_lem}
use plugin_rest_cache.Redis.Provider.{PruneState, start_prune, finish_prune, prune_interval}
use plugin_rest_cache.Store.Listing.{has}

-- What SSCAN answers: the next cursor and some members.
abbrev pub Page : Type 0
Page = Outcome (Text × List Text)

-- The batches of a pass to which SSCAN gives these answers; none while the cursor is not `0`.
unfoldable pub batches : List Page → Option (List (List Text))
batches [] = none
batches (rejected ∷ pages) = some []
batches (resolved (next, batch) ∷ pages) =
    let later = Option.map (◌∷◌ batch) (batches pages) in
    if text_eq next (lit "0") then some (batch ∷ []) else later

-- `if (batch.length) await untrackDead(redis, set, batch)`
unfoldable pub handle : List Text → Thread
unfolding start_untrack_dead
handle [] = finished
handle (member ∷ members) = start_untrack_dead (member ∷ members)

abbrev pub joined : List (List Text) → List Text
joined [] = []
joined (batch ∷ rest) = batch ++ joined rest

-- set(), given what the cache answers; whether a prune is started.
unfoldable pub set {ℓ} :
    {A : Type ℓ} → Outcome A → Bool → ℕ → PruneState → Outcome A × (PruneState × Bool)
unfolding start_prune
set (resolved result) can_prune now state =
    (resolved result, start_prune can_prune prune_interval now state)
set rejected can_prune now state = (rejected, (state, false))

-- prune(), when the pass that is running has ended.
unfoldable pub prune : Bool → ℕ → PruneState → PruneState × Bool
unfolding start_prune finish_prune
prune can_prune now state = start_prune can_prune 0 now (finish_prune state)

both_batches :
    (a b l m : Bool)
    → (not (b && not l) && (not (a && not l) && m)) ≡ (not ((a || b) && not l) && m)
both_batches a b l m = ground arith

all_answered : (a l m : Bool) → (m ≡ true → a ≡ true) → (not (a && not l) && m) ≡ (l && m)
all_answered a l false h = ground arith
all_answered a l true h = rw (h refl) (ground arith)

module _ {R : Type 0} (server : Server R) (store : KeyvRedisStore) (set_name : Text) where
  -- The batches are handled one after the other.
  pub data Handles : List (List Text) → R → R → Type 0 where
    handled_all : (r : R) → Handles [] r r
    next :
        (batch : List Text) (rest : List (List Text)) (r r' r'' : R)
        → Runs server store set_name (handle batch) r r'
        → Handles rest r' r''
        → Handles (batch ∷ rest) r r''

module _ {R : Type 0} (server : Server R) (obeys : Obeys server) (store : KeyvRedisStore)
    (set_name : Text) where
  handle-run :
      (batch : List Text) (r : R)
      → (r' : R) × Runs server store set_name (handle batch) r r'
        × ((j : Text) → server.live r' j ≡ server.live r j)
        × ((j : Text)
            → server.member set_name r' j
              ≡ (not (has batch j && not (server.live r j)) && server.member set_name r j))
  unfolding handle
  handle-run [] r = (r, Runs.stops r, λ j. refl, λ j. refl)
  handle-run (m ∷ ms) r = start_untrack_dead_lem server obeys store set_name (m ∷ ms) r

  -- A pass over batches takes out those of their members behind which there is no entry.
  handled :
      (bs : List (List Text)) (r : R)
      → (r' : R) × Handles server store set_name bs r r'
        × ((j : Text) → server.live r' j ≡ server.live r j)
        × ((j : Text)
            → server.member set_name r' j
              ≡ (not (has (joined bs) j && not (server.live r j)) && server.member set_name r j))
  handled [] r = (r, Handles.handled_all r, λ j. refl, λ j. refl)
  handled (b ∷ bs) r =
      let (r', runs, live, member) = handle-run b r in
      let (r'', later, live', member') = handled bs r' in
      (
        r'',
        Handles.next b bs r r' r'' runs later,
        λ j. live' j ∙ live j,
        λ j.
            member' j
            ∙ (ap₂ (λ l m. not (has (joined bs) j && not l) && m) (live j) (member j)
                ∙ (both_batches (has b j) (has (joined bs) j) (server.live r j)
                      (server.member set_name r j)
                    ∙ ap (λ h. not (h && not (server.live r j)) && server.member set_name r j)
                        (sym (has-append b (joined bs) j)))),
      )

  -- Alone and with no failure, a pass in which SSCAN comes to an end and answers every member of the tracking
  -- set finishes, leaves every entry, and leaves in the set exactly the members behind which there is an entry.
  pub prune_tracking_set_lem :
      (pages : List Page) (bs : List (List Text)) (r : R)
      → batches pages ≡ some bs
      → ((j : Text) → server.member set_name r j ≡ true → has (joined bs) j ≡ true)
      → (r' : R) × Handles server store set_name bs r r'
        × ((j : Text) → server.live r' j ≡ server.live r j)
        × ((j : Text)
            → server.member set_name r' j ≡ (server.live r j && server.member set_name r j))
  prune_tracking_set_lem pages bs r ended full =
      let (r', handles, live, member) = handled bs r in
      (
        r',
        handles,
        live,
        λ j.
            member j
            ∙ all_answered (has (joined bs) j) (server.live r j) (server.member set_name r j)
                (full j),
      )
