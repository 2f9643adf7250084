-- ===== src/Purging/Lifecycle.antt =====
-- packages/plugin-rest-cache/server/src/utils/middlewares/registerDatabaseLifecyclePurge.ts: what an
-- event of the database purges.
use mathlib.Core.Path.{subst}
use mathlib.Core.List.{Memᴰ}
use plugin_rest_cache.Prelude.{
  ℕ, ◌≡◌, refl, sym, ap, ◌∙◌, ◌≢◌, ◌⊎◌, inl, inr, Bool, true, false, ◌||◌, not, Option, none, some,
  List, [], ◌∷◌, ◌++◌, arith, ◌==◌, if◌then◌else◌, ==_iff, Bool-cases, Option-cases, or_cases,
  and_parts, not_iff, any-of_Mem, Mem-of_any, Text, lit, text_eq, text_eq_sound, text_eq_refl,
}
use plugin_rest_cache.Purging.{
  CacheContentTypeConfig, CachePluginStrategy, get, is_cached, uid_regexps, clear_by_uid,
}
use plugin_rest_cache.Purging.Cleared.{after_clear, clear_by_uid_lem}
use plugin_rest_cache.Purging.Triggers.{
  State, LifecycleEvent, ends_with, touched_nothing, purge_uid, lifecycle_purge,
}
use plugin_rest_cache.Purging.Written.{Holds, Holds-same, Leaves-Holds}
use plugin_rest_cache.Related.{TraversableSchema}
use plugin_rest_cache.Store.Clearing.{serving}
use plugin_rest_cache.Store.Contract.{Provider}
use plugin_rest_cache.Store.Lawful.{Lawful}
use plugin_rest_cache.Store.Listing.{has}
use plugin_rest_cache.Store.Log.{Purges, RegExp}

two_tests {ℓ} :
    {A : Type ℓ} (a b c : Bool) (x y : A)
    → (if a || b then x else if c then x else y) ≡ (if a || (b || c) then x else y)
two_tests true b c x y = refl
two_tests false true c x y = refl
two_tests false false c x y = refl

-- An event that changes nothing: of a content type that is being written to or is not cached, or of a
-- bulk action that touched no row.
pub data Ignored (strategy : CachePluginStrategy) (in_progress : List Text) (event : LifecycleEvent)
    : Type 0 where
  within : Memᴰ event.uid in_progress → Ignored strategy in_progress event
  uncached : get strategy event.uid ≡ none → Ignored strategy in_progress event
  nothing_done :
      (front : Text)
      → event.action ≡ front ++ lit "Many"
      → event.count ≡ some 0
      → Ignored strategy in_progress event

-- The purge is another's work, or there is nothing to purge.
abbrev is_ignored : CachePluginStrategy → List Text → LifecycleEvent → Bool
is_ignored strategy in_progress event =
    has in_progress event.uid || (not (is_cached strategy event.uid) || touched_nothing event)

ends_with_sound : (s t : Text) → ends_with s t ≡ true → (front : Text) × (s ≡ front ++ t)
unfolding ends_with
ends_with_sound [] t h = ([], text_eq_sound [] t h)
ends_with_sound (c ∷ s) t h = elim (or_cases (text_eq (c ∷ s) t) _ h) [
  | inl e ↦ ([], text_eq_sound (c ∷ s) t e)
  | inr e ↦ let (front, parts) = ends_with_sound s t e in (c ∷ front, ap (◌∷◌ c) parts)
]

or_right : (a b : Bool) → b ≡ true → (a || b) ≡ true
or_right a b h = ground arith

or_left : (a b : Bool) → a ≡ true → (a || b) ≡ true
or_left a b h = ground arith

ends_with_refl : (t : Text) → ends_with t t ≡ true
unfolding ends_with
ends_with_refl [] = text_eq_refl []
ends_with_refl (c ∷ t) = or_left _ _ (text_eq_refl (c ∷ t))

ends_with-append : (front t : Text) → ends_with (front ++ t) t ≡ true
unfolding ends_with
ends_with-append [] t = ends_with_refl t
ends_with-append (c ∷ front) t = or_right _ _ (ends_with-append front t)

touched_nothing_sound :
    (event : LifecycleEvent) (count : Option ℕ)
    → event.count ≡ count
    → touched_nothing event ≡ true
    → (front : Text) × (event.action ≡ front ++ lit "Many") × (event.count ≡ some 0)
unfolding touched_nothing
touched_nothing_sound event none e h = cc (rw (e, touched_nothing) at h)
touched_nothing_sound event (some n) e h =
    let (bulk, zero_rows) =
      and_parts (ends_with event.action (lit "Many")) (n == 0) (rw (e, touched_nothing) at h) in
    let (front, parts) = ends_with_sound event.action (lit "Many") bulk in
    (front, parts, e ∙ ap some ((==_iff n 0).0 zero_rows))

nothing_touched :
    (event : LifecycleEvent) (front : Text)
    → event.action ≡ front ++ lit "Many"
    → event.count ≡ some 0
    → touched_nothing event ≡ true
unfolding touched_nothing
nothing_touched event front parts e =
    rw (e, touched_nothing, parts) (ground (arith, ends_with-append front (lit "Many")))

uncached_cases :
    (strategy : CachePluginStrategy) (uid : Text)
    → is_cached strategy uid ≡ false
    → get strategy uid ≡ none
unfolding is_cached
uncached_cases strategy uid h = elim (Option-cases (get strategy uid)) [
  | inl absent ↦ absent
  | inr (conf, found) ↦ cc (rw (found, is_cached) at h)
]

not_cached :
    (strategy : CachePluginStrategy) (uid : Text)
    → get strategy uid ≡ none
    → is_cached strategy uid ≡ false
unfolding is_cached
not_cached strategy uid absent = rw (absent, is_cached) refl

is_ignored_sound :
    (strategy : CachePluginStrategy) (in_progress : List Text) (event : LifecycleEvent)
    → is_ignored strategy in_progress event ≡ true
    → Ignored strategy in_progress event
is_ignored_sound strategy in_progress event h = elim (or_cases (has in_progress event.uid) _ h) [
  | inl e ↦
      let (uid, m, same) = Mem-of_any (text_eq event.uid) in_progress e in
      within (subst (λ x. Memᴰ x in_progress) (sym (text_eq_sound event.uid uid same)) m)
  | inr e ↦ elim (or_cases (not (is_cached strategy event.uid)) _ e) [
    | inl out ↦
        uncached
          (uncached_cases strategy event.uid ((not_iff (is_cached strategy event.uid)).0 out))
    | inr nothing ↦
        let (front, parts, count) = touched_nothing_sound event event.count refl nothing in
        nothing_done front parts count
  ]
]

Ignored-is_ignored :
    (strategy : CachePluginStrategy) (in_progress : List Text) (event : LifecycleEvent)
    → Ignored strategy in_progress event
    → is_ignored strategy in_progress event ≡ true
Ignored-is_ignored strategy in_progress event (within m) =
    or_left _ _ (any-of_Mem (text_eq event.uid) event.uid in_progress m (text_eq_refl event.uid))
Ignored-is_ignored strategy in_progress event (uncached absent) =
    or_right (has in_progress event.uid) _ (
      or_left _ _
        ((not_iff (is_cached strategy event.uid)).1 (not_cached strategy event.uid absent)))
Ignored-is_ignored strategy in_progress event (nothing_done front parts count) =
    or_right (has in_progress event.uid) _
      (or_right (not (is_cached strategy event.uid)) _ (nothing_touched event front parts count))

module _ {P : Type 0} (api : Provider P) (lawful : Lawful api) (prefix : Text) {W : Type 0}
    (compile : Text → Option RegExp) (strategy : CachePluginStrategy)
    (components content_types : List TraversableSchema) where
  open lawful use {view}

  lifecycle_purge-if :
      (in_progress : List Text) (event : LifecycleEvent) (s : State P W)
      → lifecycle_purge compile strategy components content_types api prefix in_progress event s ≡ (
          if is_ignored strategy in_progress event
          then s
          else purge_uid compile strategy components content_types api prefix event.uid
              ([], true)
              s)
  unfolding lifecycle_purge
  lifecycle_purge-if in_progress event s =
      two_tests (has in_progress event.uid) (not (is_cached strategy event.uid))
        (touched_nothing event) s
        (purge_uid compile strategy components content_types api prefix event.uid ([], true) s)

  -- An event of a content type that is being written to or is not cached, or of an action whose
  -- name ends in Many and whose count is zero, changes nothing. After any other the cache holds no
  -- entry of a key that belongs to the type's GET routes with any parameters, nor to a related type
  -- if those are cleared, and is else as it was. The provider keeps its laws and is ready, and
  -- every pattern compiles.
  pub lifecycle_purge_lem :
      (in_progress : List Text) (event : LifecycleEvent) (s : State P W)
      (conf : CacheContentTypeConfig) (p : P) (g : Purges) (reg_exps : List RegExp)
      → (get strategy event.uid ≢ none → get strategy event.uid ≡ some conf)
      → s.store ≡ serving api lawful prefix p g
      → api.ready p ≡ true
      → uid_regexps compile strategy conf event.uid (some []) true ≡ some reg_exps
      → (Ignored strategy in_progress event
          × (lifecycle_purge compile strategy components content_types api prefix in_progress event
                s
              ≡ s))
        ⊎ ((¬ Ignored strategy in_progress event)
            × Holds api lawful prefix
                (after_clear api lawful prefix compile strategy conf (some []) true (view p))
                (lifecycle_purge compile strategy components content_types api prefix in_progress
                  event s).store)
  unfolding purge_uid
  lifecycle_purge_lem in_progress event s conf p g reg_exps found at_store r compiled =
      elim (Bool-cases (is_ignored strategy in_progress event)) [
        | inl h ↦ inl (
          is_ignored_sound strategy in_progress event h,
          rw (lifecycle_purge-if in_progress event s, h) refl,
        )
        | inr h ↦
            let counts : ¬ Ignored strategy in_progress event =
              λ ignored. cc (h, Ignored-is_ignored strategy in_progress event ignored) in
            inr (
              counts,
              rw (lifecycle_purge-if in_progress event s, h)
                  (Holds-same api lawful prefix
                    (ap
                      (λ store.
                        (clear_by_uid compile strategy api prefix event.uid (some []) true store).1)
                      at_store)
                    (Leaves-Holds api lawful prefix (
                      clear_by_uid_lem api lawful prefix compile strategy conf event.uid (some [])
                        true reg_exps p g (found (λ absent. counts (uncached absent))) compiled
                        r))),
            )
      ]
