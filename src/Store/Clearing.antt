-- ===== src/Store/Clearing.antt =====
-- packages/plugin-rest-cache/server/src/services/cacheStore.ts: which entries a purge removes.
use mathlib.Core.Path.{subst}
use plugin_rest_cache.Prelude.{
  ◌≡◌, refl, ap, ◌∙◌, inl, inr, Bool, true, false, ◌&&◌, Option, none, some, List, [], ◌∷◌, ◌++◌,
  map, if◌then◌else◌, Bool-cases, length, drop, filter, Text, starts_with,
  append-drop_of_starts_with,
}
use plugin_rest_cache.Outcome.{Outcome, resolved, fulfils}
use plugin_rest_cache.Store.{
  CacheStore, should_del, awaited, logical_keys, keys, del_many, del_chosen, clear_by_regexp,
  clear_all, caught, reset,
}
use plugin_rest_cache.Store.Contract.{Provider}
use plugin_rest_cache.Store.Log.{Purges, RegExp, record_purge}
use plugin_rest_cache.Store.Listing.{
  has, has-prefixed, has-prefixed_other, has-logical_keys, has-filter,
}
use plugin_rest_cache.Store.Lawful.{Lawful, is_some}

and_true {ℓ} :
    {A : Type ℓ} (b : Bool) (o : Option A)
    → (if b && true then none else o) ≡ (if b then none else o)
and_true true o = refl
and_true false o = refl

pair_path {ℓ κ} : {A : Type ℓ} {B : Type κ} {x : A × B} {a : A} → x.0 ≡ a → x ≡ (a, x.1)
pair_path {x} e i = (e i, x.1)

-- A removal of what is not there changes nothing.
removing_nothing {ℓ} :
    {A : Type ℓ} (b : Bool) (o : Option A)
    → (if b && is_some o then none else o) ≡ (if b then none else o)
removing_nothing true none = refl
removing_nothing true (some a) = refl
removing_nothing false o = refl

module _ {P : Type 0} (api : Provider P) (lawful : Lawful api) (prefix : Text) where
  open lawful use {view, del_many-view, keys-view, clear-view}

  -- A call resolved, and left the service usable with a provider that holds these entries.
  pub record Leaves (g : Purges) (entries : Text → Option Text)
      (done : Outcome (Unit {0}) × CacheStore P) : Type 0 where
    pub provider : P
    pub logged : done.1.purges ≡ g
    pub kept : done.1.provider ≡ some provider
    pub is_ready : api.ready provider ≡ true
    pub resolves : done.0 ≡ resolved tt
    pub entry : (j : Text) → view provider j ≡ entries j

  -- A service with a provider.
  abbrev pub serving : P → Purges → CacheStore P
  serving p g = record { provider = some p; purges = g }

  del_many_lem :
      (ks : List Text) (p : P) (g : Purges)
      → api.ready p ≡ true
      → Leaves g
          (λ j. if has (map (◌++◌ prefix) ks) j then none else view p j)
          (del_many api prefix ks (serving p g))
  unfolding del_many
  del_many_lem [] p g r = record {
    provider = p;
    logged = refl;
    kept = refl;
    is_ready = r;
    resolves = refl;
    entry = λ j. refl;
  }
  del_many_lem (k ∷ ks) p g r =
      let (reply, still, after) = del_many-view (map (◌++◌ prefix) (k ∷ ks)) p r in
      record {
        provider = (api.del_many (map (◌++◌ prefix) (k ∷ ks)) p).1;
        logged = rw (r, del_many) refl;
        kept = rw (r, del_many) refl;
        is_ready = still;
        resolves = rw (r, del_many) (rw (reply, awaited) refl);
        entry = after;
      }

  pub Leaves-entries :
      {g : Purges} {before after : Text → Option Text} {done : Outcome (Unit {0}) × CacheStore P}
      → Leaves g before done
      → ((j : Text) → before j ≡ after j)
      → Leaves g after done
  Leaves-entries l same = record {
    provider = l.provider;
    logged = l.logged;
    kept = l.kept;
    is_ready = l.is_ready;
    resolves = l.resolves;
    entry = λ j. l.entry j ∙ same j;
  }

  keys_lem :
      (p p' : P) (g : Purges) (listed : List Text)
      → api.ready p ≡ true
      → api.keys prefix p ≡ (fulfils listed, p')
      → keys api prefix (serving p g) ≡ (resolved (some (logical_keys prefix listed)), serving p' g)
  unfolding keys
  keys_lem p p' g listed r e = rw (r, keys) (rw e refl)

  -- A selection of the listed keys by a test removes exactly the entries whose keys pass it.
  module _ (q : Text → Bool) (chosen : List Text → List Text) where
    abbrev pub Selects : Type 0
    Selects = (t : Text) (ks : List Text) → has (chosen ks) t ≡ (q t && has ks t)

    -- The entries that remain.
    abbrev pub remaining : (Text → Option Text) → Text → Option Text
    remaining entries j =
        if starts_with j prefix && q (drop (length prefix) j) then none else entries j

    removed :
        Selects
        → (p p' : P) (listed : List Text)
        → ((t : Text) → has listed (prefix ++ t) ≡ is_some (view p (prefix ++ t)))
        → ((j : Text) → view p' j ≡ view p j)
        → (j : Text)
        → (if has (map (◌++◌ prefix) (chosen (logical_keys prefix listed))) j
            then none
            else view p' j)
          ≡ remaining (view p) j
    removed selects p p' listed lists same j = elim (Bool-cases (starts_with j prefix)) [
      | inr other ↦
          rw (other, has-prefixed_other prefix j (chosen (logical_keys prefix listed)) other)
            (same j)
      | inl own ↦
          let t = drop (length prefix) j in
          let whole : prefix ++ t ≡ j = append-drop_of_starts_with prefix j own in
          let found : has (map (◌++◌ prefix) (chosen (logical_keys prefix listed))) (prefix ++ t)
              ≡ (q t && is_some (view p (prefix ++ t))) =
            has-prefixed prefix t (chosen (logical_keys prefix listed))
            ∙ selects t (logical_keys prefix listed)
            ∙ ap (◌&&◌ (q t)) (has-logical_keys prefix t listed ∙ lists t) in
          let found' =
            subst
              (λ x.
                has (map (◌++◌ prefix) (chosen (logical_keys prefix listed))) x
                ≡ (q t && is_some (view p x)))
              whole found in
          rw (own, found', same j) (removing_nothing (q t) (view p j))
    ]

    pub del_chosen_lem :
        Selects
        → (p : P) (g : Purges) → api.ready p ≡ true
        → Leaves g (remaining (view p)) (del_chosen api prefix chosen (serving p g))
    unfolding del_chosen
    del_chosen_lem selects p g r =
        let (listed, reply, still, lists, same) = keys-view prefix p r in
        let p' = (api.keys prefix p).1 in
        let run = keys_lem p p' g listed r (pair_path reply) in
        rw (ap (λ x. x.0) run, ap (λ x. x.1) run, del_chosen)
          (Leaves-entries (del_many_lem (chosen (logical_keys prefix listed)) p' g still)
            (removed selects p p' listed lists same))

  -- The entries after a purge with patterns.
  abbrev pub after_purge : List RegExp → (Text → Option Text) → Text → Option Text
  after_purge reg_exps entries j =
      if starts_with j prefix && should_del reg_exps (drop (length prefix) j)
      then none
      else entries j

  -- With a provider that keeps its laws and is ready, clearByRegexp resolves, records the purge, and
  -- removes exactly the entries under the prefix whose keys without it match a pattern.
  pub clear_by_regexp_lem :
      (reg_exps : List RegExp) (p : P) (g : Purges)
      → api.ready p ≡ true
      → Leaves
          (record_purge (some reg_exps) g)
          (after_purge reg_exps (view p))
          (clear_by_regexp api prefix reg_exps (serving p g))
  unfolding clear_by_regexp
  clear_by_regexp_lem reg_exps p g r =
      del_chosen_lem (should_del reg_exps) (filter (should_del reg_exps))
        (has-filter (should_del reg_exps)) p (record_purge (some reg_exps) g) r

  clear_all_lem :
      (p : P) (g : Purges)
      → api.ready p ≡ true
      → Leaves g (λ j. none) (clear_all api prefix p (serving p g))
  unfolding clear_all
  clear_all_lem p g r =
      let (reply, still, after) = clear-view p r in
      record {
        provider = (api.clear p).1;
        logged = refl;
        kept = refl;
        is_ready = still;
        resolves = rw (reply, awaited) refl;
        entry = after;
      }

  caught-Leaves :
      {g : Purges} {entries : Text → Option Text} {done : Outcome (Unit {0}) × CacheStore P}
      → Leaves g entries done
      → Leaves g entries (caught api prefix done)
  unfolding caught
  caught-Leaves l = record {
    provider = l.provider;
    logged = l.logged;
    kept = l.kept;
    is_ready = l.is_ready;
    resolves = refl;
    entry = l.entry;
  }

module _ {P : Type 0} (api : Provider P) (lawful : Lawful api) where
  open lawful use {view}

  -- With a provider that keeps its laws and is ready, reset resolves, records a purge of everything,
  -- and removes exactly the entries under the prefix, which are all entries if it is empty.
  pub reset_lem :
      (prefix : Text) (p : P) (g : Purges)
      → api.ready p ≡ true
      → Leaves api lawful prefix
          (record_purge none g)
          (λ j. if starts_with j prefix then none else view p j)
          (reset api prefix (serving api lawful prefix p g))
  unfolding reset starts_with
  reset_lem [] p g r = rw (r, reset) (clear_all_lem api lawful [] p (record_purge none g) r)
  reset_lem (c ∷ prefix) p g r =
      rw (r, reset)
        (caught-Leaves api lawful (c ∷ prefix) (
          Leaves-entries api lawful (c ∷ prefix)
            (del_chosen_lem api lawful (c ∷ prefix) (λ _. true) (λ ks. ks) (λ t ks. refl) p
              (record_purge none g) r)
            (λ j. and_true (starts_with j (c ∷ prefix)) (view p j))))
