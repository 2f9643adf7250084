-- ===== src/Redis/Covering.antt =====
-- packages/provider-rest-cache-redis/src/RedisCacheProvider.ts: which thread still answers for an
-- entry that the tracking set misses, through one command.
use plugin_rest_cache.Prelude.{
  some_injective, ℕ, ◌≡◌, refl, sym, ap, ◌∙◌, ◌≢◌, inl, inr, Bool, true, false, ◌&&◌, ◌||◌, not,
  some, List, [], ◌∷◌, ◌++◌, arith, ltb, Bool-cases, take, drop, take-append-drop, any-append, Text,
  text_eq, text_eq_sound, text_eq_refl,
}
use plugin_rest_cache.Redis.{
  KeyvRedisStore, srem_chunk, unlink_concurrency, multi_chunk, Thread, Answer, after_set,
  next_unlinks, next_srem, next_multi, next_check, start_retrack, next_recheck, command_of,
  unless_failed, after_unlink, after_check, after_recheck, resume, finished, setting, adding,
  removing, erasing, untracking, unlinking, clearing, checking, dropping, rechecking, retracking,
  done, failed, unknown, count,
}
use plugin_rest_cache.Redis.Client.{Command, exists, live_after, members_after}
use plugin_rest_cache.Redis.Tracking.{Honest, Overtakes, unlink_first, check_first, recheck_first}
use plugin_rest_cache.Store.Listing.{has}

-- The thread will track the name, or erase it, or find it gone.
unfoldable pub covers : Thread → Text → Bool
covers (adding name) j = text_eq j name
covers (erasing name) j = text_eq j name
covers (untracking untracked rest) j = has untracked j
covers (unlinking batch rest) j = has batch j || has rest j
covers (rechecking dead rest rewritten) j = has rest j || has rewritten j
covers (retracking attempts members) j = has members j
covers _ j = false

-- Alive afterwards: then tracked or covered, or alive before, no worse tracked, and not covered.
abbrev pub kept : (live tracked covered live' tracked' covered' : Bool) → Bool
kept live tracked covered live' tracked' covered' =
    not live' || (tracked' || (covered' || (live && ((not tracked || tracked') && not covered))))

pub has-append : (xs ys : List Text) (j : Text) → has (xs ++ ys) j ≡ (has xs j || has ys j)
has-append xs ys j = any-append (text_eq j) xs ys

pub has-split :
    (n : ℕ) (xs : List Text) (j : Text) → (has (take n xs) j || has (drop n xs) j) ≡ has xs j
has-split n xs j =
    sym (has-append (take n xs) (drop n xs) j) ∙ ap (λ ks. has ks j) (take-append-drop n xs)

pub covers-next_unlinks :
    (batch rest : List Text) (j : Text)
    → covers (next_unlinks batch rest) j ≡ (has batch j || has rest j)
unfolding next_unlinks covers
covers-next_unlinks (k ∷ batch) rest j = refl
covers-next_unlinks [] [] j = refl
covers-next_unlinks [] (k ∷ rest) j = has-split unlink_concurrency (k ∷ rest) j

pub covers-next_srem :
    (untracked rest : List Text) (j : Text) → covers (next_srem untracked rest) j ≡ has untracked j
unfolding next_srem covers
covers-next_srem untracked [] j = covers-next_unlinks [] untracked j
covers-next_srem untracked (k ∷ rest) j = refl

pub covers-next_multi : (rest : List Text) (j : Text) → covers (next_multi rest) j ≡ false
unfolding next_multi covers
covers-next_multi [] j = refl
covers-next_multi (k ∷ rest) j = refl

pub covers-start_retrack :
    (members : List Text) (j : Text) → covers (start_retrack members) j ≡ has members j
unfolding start_retrack covers
covers-start_retrack [] j = refl
covers-start_retrack (m ∷ members) j = refl

pub covers-next_recheck :
    (dead rest rewritten : List Text) (j : Text)
    → covers (next_recheck dead rest rewritten) j ≡ (has rest j || has rewritten j)
unfolding next_recheck covers
covers-next_recheck dead [] rewritten j = covers-start_retrack rewritten j
covers-next_recheck dead (m ∷ rest) rewritten j = refl

pub covers-next_check :
    (members rest dead : List Text) (j : Text) → covers (next_check members rest dead) j ≡ false
unfolding next_check covers
covers-next_check members [] [] j = refl
covers-next_check members [] (d ∷ dead) j = refl
covers-next_check members (m ∷ rest) dead j = refl

pub covers-Overtakes : {t t' : Thread} (j : Text) → Overtakes t t' → covers t' j ≡ covers t j
unfolding covers
covers-Overtakes j (unlink_first front back rest key) =
    ground (arith, has-append front (key ∷ back) j, has-append front back j)
covers-Overtakes j (check_first members front back dead key) = refl
covers-Overtakes j (recheck_first dead front back rewritten key) =
    ground (arith, has-append front (key ∷ back) j, has-append front back j)

unless_failed_lem :
    (answer : Answer) (next : Thread) → answer ≢ failed → unless_failed answer next ≡ next
unless_failed_lem done next ok = refl
unless_failed_lem failed next ok = absurd (ok refl)
unless_failed_lem unknown next ok = refl
unless_failed_lem (count n) next ok = refl

pub covers-after_unlink :
    (answer : Answer) (batch rest : List Text) (j : Text)
    → answer ≢ failed
    → covers (after_unlink answer batch rest) j ≡ (has batch j || has rest j)
unfolding after_unlink
covers-after_unlink done batch rest j ok = covers-next_unlinks batch rest j
covers-after_unlink failed batch rest j ok = absurd (ok refl)
covers-after_unlink unknown batch rest j ok = covers-next_unlinks batch rest j
covers-after_unlink (count n) batch rest j ok = covers-next_unlinks batch rest j

pub covers-after_check :
    (answer : Answer) (members rest dead : List Text) (member j : Text)
    → covers (after_check answer members member rest dead) j ≡ false
unfolding after_check
covers-after_check done members rest dead member j = covers-next_check members rest _ j
covers-after_check failed members rest dead member j = covers-next_check [] [] [] j
covers-after_check unknown members rest dead member j = covers-next_check members rest _ j
covers-after_check (count n) members rest dead member j = covers-next_check members rest _ j

-- A second check drops a member only if it is not there.
pub covers-after_recheck :
    (answer : Answer) (dead rest rewritten : List Text) (member j : Text) (live : Text → Bool)
    → Honest live (exists member) answer
    → answer ≢ failed
    → (live j && (text_eq j member || (has rest j || has rewritten j))) ≡ true
    → covers (after_recheck answer dead member rest rewritten) j ≡ true
unfolding after_recheck
covers-after_recheck done dead rest rewritten member j live honest ok h = absurd honest
covers-after_recheck failed dead rest rewritten member j live honest ok h = absurd (ok refl)
covers-after_recheck unknown dead rest rewritten member j live honest ok h = ground (
  arith,
  covers-next_recheck dead rest (rewritten ++ member ∷ []) j,
  has-append rewritten (member ∷ []) j,
)
covers-after_recheck (count n) dead rest rewritten member j live honest ok h =
    elim (Bool-cases (ltb 0 n)) [
      | inl there ↦ rw there (
          ground (
            arith,
            covers-next_recheck dead rest (rewritten ++ member ∷ []) j,
            has-append rewritten (member ∷ []) j,
          ))
      | inr gone ↦ rw gone (elim (Bool-cases (text_eq j member)) [
        | inl same ↦
            let e : live j ≡ live member = ap live (text_eq_sound j member same) in ground arith
        | inr other ↦ ground (arith, covers-next_recheck dead rest rewritten j)
      ])
    ]

srem_kept :
    (l m u s t : Bool)
    → (not l
        || ((not (s && t) && m) || ((u || t) || (l && ((not m || (not (s && t) && m)) && not u)))))
      ≡ true
srem_kept l m u s t = ground arith

pub multi_kept :
    (l m s t : Bool)
    → (not (not t && l)
        || ((not (s && t) && m) || (false || (l && ((not m || (not (s && t) && m)) && not false)))))
      ≡ true
multi_kept l m s t = ground arith

module _ (store : KeyvRedisStore) (set_name : Text) (live members : Text → Bool) (j : Text) where
  abbrev pub Keeps : Thread → Command → Thread → Type 0
  Keeps t c t' =
      kept (live j) (members j) (covers t j) (live_after c live j)
        (members_after set_name c members j) (covers t' j)
      ≡ true

  pub resumed :
      (t : Thread) (answer : Answer)
      → store.use_redis_sets ≡ true
      → answer ≢ failed
      → (c : Command) → command_of set_name t ≡ some c
      → Honest live c answer
      → Keeps t c (resume store t answer)
  unfolding resume covers command_of after_set
  resumed finished answer on ok c e honest = cc
  resumed (setting name value ttl) answer on ok c e honest =
      rw (sym (some_injective e), unless_failed_lem answer (after_set store name) ok, on)
        (ground arith)
  resumed (adding name) answer on ok c e honest =
      rw (sym (some_injective e), text_eq_refl set_name) (ground arith)
  resumed (removing name) answer on ok c e honest =
      rw (sym (some_injective e), unless_failed_lem answer (erasing name) ok) (ground arith)
  resumed (erasing name) answer on ok c e honest = rw (sym (some_injective e)) (ground arith)
  resumed (untracking u rest) answer on ok c e honest =
      rw
        (
          sym (some_injective e),
          unless_failed_lem answer (next_srem (u ++ take srem_chunk rest) (drop srem_chunk rest))
              ok,
        )
        (rw
          (
            covers-next_srem (u ++ take srem_chunk rest) (drop srem_chunk rest) j,
            has-append u (take srem_chunk rest) j,
          )
          (srem_kept (live j) (members j) (has u j) (text_eq set_name set_name)
            (has (take srem_chunk rest) j)))
  resumed (unlinking [] rest) answer on ok c e honest = cc
  resumed (unlinking (k ∷ batch) rest) answer on ok c e honest =
      rw (sym (some_injective e)) (ground (arith, covers-after_unlink answer batch rest j ok))
  resumed (clearing rest) answer on ok c e honest =
      rw (sym (some_injective e), unless_failed_lem answer (next_multi (drop multi_chunk rest)) ok)
        (rw (covers-next_multi (drop multi_chunk rest) j) (
          multi_kept (live j) (members j) (text_eq set_name set_name)
            (has (take multi_chunk rest) j)))
  resumed (checking ms [] dead) answer on ok c e honest = cc
  resumed (checking ms (m ∷ rest) dead) answer on ok c e honest =
      rw (sym (some_injective e)) (ground (arith, covers-after_check answer ms rest dead m j))
  resumed (dropping dead) answer on ok c e honest =
      rw (sym (some_injective e)) (ground (arith, covers-next_recheck dead dead [] j))
  resumed (rechecking dead [] rewritten) answer on ok c e honest = cc
  resumed (rechecking dead (m ∷ rest) rewritten) answer on ok c e honest =
      let true_of : Honest live (exists m) answer = rw (some_injective e) honest in
      rw (sym (some_injective e))
        (ground (arith, covers-after_recheck answer dead rest rewritten m j live true_of ok))
  resumed (retracking attempts ms) answer on ok c e honest =
      rw (sym (some_injective e), text_eq_refl set_name) (ground arith)
