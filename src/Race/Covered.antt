-- ===== src/Race/Covered.antt =====
-- packages/plugin-rest-cache/server/src/services/cacheStore.ts: purgedSince does not miss a purge.
use plugin_rest_cache.Prelude.{
  ℕ, suc, ◌-◌, ◌≤◌, ◌≡◌, refl, inl, inr, true, List, ◌∷◌, arith, leb, Bool-cases, length, take, any,
  Text,
}
use plugin_rest_cache.Store.Log.{Patterns, covers, purged_since, purge_log_size}
use plugin_rest_cache.Store.History.{purges, purged_since-purges}

-- A purge that matches the key has started since the generation was `g`.
abbrev pub CoveredSince : Text → List Patterns → ℕ → Type 0
CoveredSince key h g = any (covers key) (take (length h - g) h) ≡ true

pub CoveredSince-new :
    (key : Text) (h : List Patterns) (g : ℕ) (r : Patterns)
    → g ≤ length h
    → covers key r ≡ true
    → CoveredSince key (r ∷ h) g
CoveredSince-new key h g r le c =
    let e : suc (length h) - g ≡ suc (length h - g) = omega arith in rw e (rw c refl)

pub CoveredSince-more :
    (key : Text) (h : List Patterns) (g : ℕ) (r : Patterns)
    → g ≤ length h
    → CoveredSince key h g
    → CoveredSince key (r ∷ h) g
CoveredSince-more key h g r le c =
    let e : suc (length h) - g ≡ suc (length h - g) = omega arith in rw e (ground arith)

pub purged_since-CoveredSince :
    (key : Text) (h : List Patterns) (g : ℕ)
    → g ≤ length h
    → CoveredSince key h g
    → purged_since (purges h) g key ≡ true
purged_since-CoveredSince key h g le c =
    rw (purged_since-purges h g key le) (elim (Bool-cases (leb (length h - g) purge_log_size)) [
      | inl within ↦ rw within c
      | inr beyond ↦ rw beyond refl
    ])
