-- ===== src/Race/Fresh.antt =====
-- packages/plugin-rest-cache/server/src/middlewares/recv.ts: stale content does not stay cached.
use mathlib.Core.Path.{subst}
use plugin_rest_cache.Prelude.{
  ℕ, ◌≡◌, ◌≢◌, inl, inr, false, some, arith, ltb, ltb→lt, Bool-cases, Text,
}
use plugin_rest_cache.Race.{Phase, answering, Purging, committed, World, purged, Reach, fresh}
use plugin_rest_cache.Race.Covered.{purged_since-CoveredSince}
use plugin_rest_cache.Race.Invariant.{Holds, Sound, WillDelete, WillUndo, Cleaning}
use plugin_rest_cache.Race.Kept.{Reach-Invariant}

-- No request is at the origin or storing, and every change has been purged.
abbrev pub Quiet : World → Type 0
Quiet w = ((i : ℕ) → w.requests i ≡ Phase.idle) × ((k : ℕ) → w.purging k ≡ Purging.idle)

module _ (key : Text) {version : ℕ} {w : World} (r : Reach key (fresh version) w) where
  -- In every reachable world, if the stored version is not the current one, then some purge has yet
  -- to delete the key, or some request has yet to undo its own write.
  pub stale-Cleaning : (v : ℕ) → w.entry ≡ some v → v ≢ w.version → Cleaning key w
  stale-Cleaning v e other =
      let inv = Reach-Invariant key r in inv.cleaned v e (omega (arith, inv.entry_made v e, other))

  -- In every world reached from an empty cache where no request is in flight and no change waits for
  -- its purge, the version stored under the key is the current one.
  pub Quiet-current : Quiet w → (v : ℕ) → w.entry ≡ some v → v ≡ w.version
  Quiet-current (no_request, no_purge) v e =
      let inv = Reach-Invariant key r in
      elim (Bool-cases (ltb v w.version)) [
        | inr current ↦ ground (arith, inv.entry_made v e)
        | inl stale ↦ elim (inv.cleaned v e (ltb→lt _ _ stale)) [
          | inl (k, d) ↦ absurd (subst (WillDelete key) (no_purge k) d)
          | inr (i, u) ↦ absurd (subst (WillUndo key w) (no_request i) u)
        ]
      ]

  -- In every reachable world where the purge of each change has started, a request at the origin that
  -- no purge has overtaken, which is one that others may join, has read the current version.
  pub joined-current :
      (i g v : ℕ)
      → w.requests i ≡ answering g v
      → ((k : ℕ) → w.purging k ≢ committed)
      → purged key w g ≡ false
      → v ≡ w.version
  unfolding purged
  joined-current i g v at none_pending unpurged =
      let (le, made, noticed) : Holds key w g v =
        subst (Sound key w) at ((Reach-Invariant key r).sound i) in
      elim (Bool-cases (ltb v w.version)) [
        | inr current ↦ ground (arith, made)
        | inl stale ↦ elim (noticed (ltb→lt _ _ stale)) [
          | inl (k, c) ↦ absurd (none_pending k c)
          | inr c ↦ cc (unpurged, purged_since-CoveredSince key w.history g le c)
        ]
      ]
