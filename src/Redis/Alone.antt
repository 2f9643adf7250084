-- ===== src/Redis/Alone.antt =====
-- packages/provider-rest-cache-redis/src/RedisCacheProvider.ts: a call that runs alone, with no failure.
use plugin_rest_cache.Prelude.{
  ℕ, zero, suc, ◌≤◌, ◌≡◌, refl, sym, ap, ◌∙◌, Bool, true, false, ◌&&◌, ◌||◌, not, some, List, [],
  ◌∷◌, ◌++◌, arith, if◌then◌else◌, length, take, drop, Text, text_eq, text_eq_refl,
}
use plugin_rest_cache.Redis.{
  KeyvRedisStore, srem_chunk, unlink_concurrency, multi_chunk, Thread, Answer, next_unlinks,
  next_srem, next_multi, start_del_many, command_of, after_unlink, resume, finished, untracking,
  unlinking, clearing, done, count,
}
use plugin_rest_cache.Redis.Client.{Command, srem, unlink, exists, unlink_srem, Server, Obeys}
use plugin_rest_cache.Redis.Covering.{has-append, has-split}
use plugin_rest_cache.Store.Listing.{has}

-- A truthful answer.
abbrev pub reply : (Text → Bool) → Command → Answer
reply live (exists name) = count (if live name then 1 else 0)
reply live _ = done

module _ {R : Type 0} (server : Server R) (store : KeyvRedisStore) (set_name : Text) where
  -- The thread runs until it has finished.
  pub data Runs : Thread → R → R → Type 0 where
    stops : (r : R) → Runs finished r r
    goes :
        (t : Thread) (c : Command) (r r' : R)
        → command_of set_name t ≡ some c
        → Runs (resume store t (reply (server.live r) c)) (server.exec c r) r'
        → Runs t r r'

  -- The thread finishes, and leaves these entries and these members.
  abbrev pub Leaves : Thread → R → (Text → Bool) → (Text → Bool) → Type 0
  Leaves t r live members =
      (r' : R) × Runs t r r'
      × ((j : Text) → server.live r' j ≡ live j)
      × ((j : Text) → server.member set_name r' j ≡ members j)

abbrev pub less : List Text → (Text → Bool) → Text → Bool
less names p j = not (has names j) && p j

drop-le : (n : ℕ) (xs : List Text) → length (drop n xs) ≤ length xs
drop-le zero xs = omega arith
drop-le (suc n) [] = omega arith
drop-le (suc n) (x ∷ xs) = omega (arith, drop-le n xs)

-- A chunk and then the rest.
less_chunk :
    (n : ℕ) (xs : List Text) (p : Text → Bool) (j : Text)
    → less (drop n xs) (less (take n xs) p) j ≡ less xs p j
less_chunk n xs p j = rw (sym (has-split n xs j)) (ground arith)

-- A chunk moves from one list to the other.
has_moved :
    (n : ℕ) (before xs : List Text) (j : Text)
    → has ((before ++ take n xs) ++ drop n xs) j ≡ has (before ++ xs) j
has_moved n before xs j =
    rw
      (
        has-append (before ++ take n xs) (drop n xs) j,
        has-append before (take n xs) j,
        has-append before xs j,
        sym (has-split n xs j),
      )
      (ground arith)

module _ {R : Type 0} (server : Server R) (obeys : Obeys server) (store : KeyvRedisStore)
    (set_name : Text) where
  own_set :
      (names : List Text) (r : R) (j : Text)
      → (not (text_eq set_name set_name && has names j) && server.member set_name r j)
        ≡ less names (server.member set_name r) j
  own_set names r j = rw (text_eq_refl set_name) refl

  unlinks_run :
      (f : ℕ) (batch rest : List Text) (r : R)
      → length rest ≤ f
      → Leaves server store set_name
          (next_unlinks batch rest)
          r
          (λ j. not (has batch j || has rest j) && server.live r j)
          (server.member set_name r)
  unfolding next_unlinks resume after_unlink command_of
  unlinks_run f (k ∷ batch) rest r h =
      let c = unlink (k ∷ []) in
      let (r', runs, live, member) = unlinks_run f batch rest (server.exec c r) h in
      (
        r',
        Runs.goes (unlinking (k ∷ batch) rest) c r r' refl runs,
        λ j. live j ∙ rw (obeys.exec-live c r j) (ground arith),
        λ j. member j ∙ obeys.exec-member set_name c r j,
      )
  unlinks_run f [] [] r h = (r, Runs.stops r, λ j. refl, λ j. refl)
  unlinks_run zero [] (k ∷ rest) r h = absurd (omega arith)
  unlinks_run (suc f) [] (k ∷ rest) r h =
      let (r', runs, live, member) =
        unlinks_run f (take unlink_concurrency (k ∷ rest)) (drop unlink_concurrency (k ∷ rest)) r
          (omega (arith, drop-le 15 rest)) in
      (
        r',
        runs,
        λ j.
            live j ∙ ap (λ b. not b && server.live r j) (has-split unlink_concurrency (k ∷ rest) j),
        member,
      )

  multi_run :
      (f : ℕ) (rest : List Text) (r : R)
      → length rest ≤ f
      → Leaves server store set_name
          (next_multi rest)
          r
          (less rest (server.live r))
          (less rest (server.member set_name r))
  unfolding next_multi resume command_of
  multi_run f [] r h = (r, Runs.stops r, λ j. refl, λ j. refl)
  multi_run zero (k ∷ rest) r h = absurd (omega arith)
  multi_run (suc f) (k ∷ rest) r h =
      let c = unlink_srem set_name (take multi_chunk (k ∷ rest)) in
      let (r', runs, live, member) =
        multi_run f (drop multi_chunk (k ∷ rest)) (server.exec c r)
          (omega (arith, drop-le 999 rest)) in
      (
        r',
        Runs.goes (clearing (k ∷ rest)) c r r' refl runs,
        λ j.
            live j
            ∙ ap (λ b. not (has (drop multi_chunk (k ∷ rest)) j) && b) (obeys.exec-live c r j)
            ∙ less_chunk multi_chunk (k ∷ rest) (server.live r) j,
        λ j.
            member j
            ∙ ap (λ b. not (has (drop multi_chunk (k ∷ rest)) j) && b)
                (obeys.exec-member set_name c r j ∙ own_set (take multi_chunk (k ∷ rest)) r j)
            ∙ less_chunk multi_chunk (k ∷ rest) (server.member set_name r) j,
      )

  srem_run :
      (f : ℕ) (untracked rest : List Text) (r : R)
      → length rest ≤ f
      → Leaves server store set_name
          (next_srem untracked rest)
          r
          (less (untracked ++ rest) (server.live r))
          (less rest (server.member set_name r))
  unfolding next_srem resume command_of
  srem_run f untracked [] r h =
      let (r', runs, live, member) = unlinks_run (length untracked) [] untracked r (omega arith) in
      (r', runs, λ j. live j ∙ rw (has-append untracked [] j) (ground arith), member)
  srem_run zero untracked (k ∷ rest) r h = absurd (omega arith)
  srem_run (suc f) untracked (k ∷ rest) r h =
      let c = srem set_name (take srem_chunk (k ∷ rest)) in
      let (r', runs, live, member) =
        srem_run f (untracked ++ take srem_chunk (k ∷ rest)) (drop srem_chunk (k ∷ rest))
          (server.exec c r) (omega (arith, drop-le 999 rest)) in
      (
        r',
        Runs.goes (untracking untracked (k ∷ rest)) c r r' refl runs,
        λ j. live j ∙ rw (obeys.exec-live c r j, has_moved srem_chunk untracked (k ∷ rest) j) refl,
        λ j.
            member j
            ∙ ap (λ b. not (has (drop srem_chunk (k ∷ rest)) j) && b)
                (obeys.exec-member set_name c r j ∙ own_set (take srem_chunk (k ∷ rest)) r j)
            ∙ less_chunk srem_chunk (k ∷ rest) (server.member set_name r) j,
      )

  -- Alone and with no failure, delMany finishes, on a cluster and on a standalone server, and leaves
  -- of the entries and of the tracking set exactly those that were not named.
  pub start_del_many_lem :
      (is_cluster : Bool) (names : List Text) (r : R)
      → Leaves server store set_name
          (start_del_many is_cluster names)
          r
          (less names (server.live r))
          (less names (server.member set_name r))
  unfolding start_del_many
  start_del_many_lem true names r = srem_run (length names) [] names r (omega arith)
  start_del_many_lem false names r = multi_run (length names) names r (omega arith)
