-- ===== src/Redis/Interrupted.antt =====
-- packages/provider-rest-cache-redis/src/RedisCacheProvider.ts: a thread whose command fails.
use plugin_rest_cache.Prelude.{
  some_injective, zero, suc, ◌≡◌, refl, sym, ◌∙◌, Bool, true, false, ◌&&◌, ◌||◌, not, some, [], ◌∷◌,
  arith, if◌then◌else◌, take, Text, text_eq,
}
use plugin_rest_cache.Redis.{
  KeyvRedisStore, srem_chunk, multi_chunk, Thread, command_of, after_unlink, resume, finished,
  setting, adding, removing, erasing, untracking, unlinking, clearing, checking, dropping,
  rechecking, retracking, failed,
}
use plugin_rest_cache.Redis.Client.{Command, live_after, members_after}
use plugin_rest_cache.Redis.Tracking.{risked}
use plugin_rest_cache.Redis.Covering.{
  covers, kept, has-append, covers-next_unlinks, covers-start_retrack, covers-next_recheck,
}
use plugin_rest_cache.Store.Listing.{has}

-- What is still asked in a second check, and what exists, was found dead in the first.
unfoldable pub sane : Thread → Text → Bool
sane (rechecking dead rest rewritten) j = not (has rest j || has rewritten j) || has dead j
sane _ j = true

-- The entry and its membership after a command that may have been carried out.
abbrev pub if_applied : Bool → Bool → Bool → Bool
if_applied applied after before = if applied then after else before

srem_failed_kept :
    (l m u s t a : Bool)
    → (u || t) ≡ false
    → kept l m u (if_applied a l l) (if_applied a (not (s && t) && m) m) false ≡ true
srem_failed_kept l m u s t a h = ground arith

multi_failed_kept :
    (l m s t a : Bool)
    → kept l m false (if_applied a (not t && l) l) (if_applied a (not (s && t) && m) m) false ≡ true
multi_failed_kept l m s t a = ground arith

recheck_failed_kept :
    (l m c c' a : Bool)
    → (not c || c') ≡ true
    → kept l m c (if_applied a l l) (if_applied a m m) c' ≡ true
recheck_failed_kept l m c c' a h = ground arith

module _ (store : KeyvRedisStore) (set_name : Text) (live members : Text → Bool) (j : Text)
    (applied : Bool) where
  pub interrupted :
      (t : Thread) (c : Command)
      → command_of set_name t ≡ some c
      → has (risked t) j ≡ false
      → sane t j ≡ true
      → kept
          (live j)
          (members j)
          (covers t j)
          (if_applied applied (live_after c live j) (live j))
          (if_applied applied (members_after set_name c members j) (members j))
          (covers (resume store t failed) j)
        ≡ true
  unfolding resume covers command_of risked sane
  interrupted finished c e safe ok = cc
  interrupted (setting name value ttl) c e safe ok = rw (sym (some_injective e)) (ground arith)
  interrupted (adding name) c e safe ok = rw (sym (some_injective e)) (ground arith)
  interrupted (removing name) c e safe ok = rw (sym (some_injective e)) (ground arith)
  interrupted (erasing name) c e safe ok = rw (sym (some_injective e)) (ground arith)
  interrupted (untracking u rest) c e safe ok = rw (sym (some_injective e)) (
      srem_failed_kept (live j) (members j) (has u j) (text_eq set_name set_name)
        (has (take srem_chunk rest) j) applied (sym (has-append u (take srem_chunk rest) j) ∙ safe))
  interrupted (unlinking [] rest) c e safe ok = cc
  interrupted (unlinking (k ∷ batch) rest) c e safe ok =
      rw (sym (some_injective e), resume, after_unlink, covers-next_unlinks batch [] j)
        (ground arith)
  interrupted (clearing rest) c e safe ok = rw (sym (some_injective e)) (
      multi_failed_kept (live j) (members j) (text_eq set_name set_name)
        (has (take multi_chunk rest) j) applied)
  interrupted (checking ms [] dead) c e safe ok = cc
  interrupted (checking ms (m ∷ rest) dead) c e safe ok =
      rw (sym (some_injective e))
        (recheck_failed_kept (live j) (members j) false false applied refl)
  interrupted (dropping dead) c e safe ok =
      rw (sym (some_injective e), covers-next_recheck dead dead [] j) (ground arith)
  interrupted (rechecking dead [] rewritten) c e safe ok = cc
  interrupted (rechecking dead (m ∷ rest) rewritten) c e safe ok =
      rw (sym (some_injective e), covers-start_retrack dead j)
        (recheck_failed_kept (live j) (members j) (has (m ∷ rest) j || has rewritten j) (has dead j)
          applied ok)
  interrupted (retracking zero ms) c e safe ok = rw (sym (some_injective e)) (ground arith)
  interrupted (retracking (suc zero) ms) c e safe ok = rw (sym (some_injective e)) (ground arith)
  interrupted (retracking (suc (suc n)) ms) c e safe ok = rw (sym (some_injective e)) (ground arith)
