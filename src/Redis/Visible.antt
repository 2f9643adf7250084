-- ===== src/Redis/Visible.antt =====
-- packages/provider-rest-cache-redis/src/RedisCacheProvider.ts: no live entry is left out of the
-- tracking set, however the calls interleave.
use plugin_rest_cache.Prelude.{
  ℕ, ◌≡◌, refl, sym, ap, ◌∙◌, ◌⊎◌, inl, inr, Bool, true, false, ◌||◌, List, ◌++◌, arith, ◌==◌,
  if◌then◌else◌, ==_iff, ==_refl, Bool-cases, Text,
}
use plugin_rest_cache.Race.{update}
use plugin_rest_cache.Redis.{KeyvRedisStore, Thread, resume, finished, failed}
use plugin_rest_cache.Redis.Client.{Server, Obeys}
use plugin_rest_cache.Redis.Tracking.{
  World, risked, Step, start, answered, fails, overtake, expire, Reach, here, next,
}
use plugin_rest_cache.Redis.Covering.{covers, kept, resumed, covers-Overtakes, has-append}
use plugin_rest_cache.Redis.Interrupted.{sane, interrupted}
use plugin_rest_cache.Redis.Sane.{sane-resume, sane-Overtakes, sane-Starts}
use plugin_rest_cache.Store.Listing.{has}

kept_parts :
    (live tracked covered : Bool)
    → kept live tracked covered true false false ≡ true
    → (live ≡ true) × (tracked ≡ false) × (covered ≡ false)
kept_parts live tracked covered h = ground arith

same_kept : (live tracked covered' : Bool) → kept live tracked false live tracked covered' ≡ true
same_kept live tracked covered' = ground arith

still_kept : (live tracked covered : Bool) → kept live tracked covered live tracked covered ≡ true
still_kept live tracked covered = ground arith

or_false : (b c : Bool) → (b || c) ≡ false → (b ≡ false) × (c ≡ false)
or_false b c h = ground arith

if-ap {ℓ} :
    {A : Type ℓ} (f : A → Bool) (b : Bool) (x y : A)
    → f (if b then x else y) ≡ (if b then f x else f y)
if-ap f true x y = refl
if-ap f false x y = refl

other_thread :
    {R : Type 0} (w : World R) (i k : ℕ) (t' : Thread) (j : Text)
    → covers (w.threads k) j ≡ true
    → covers (w.threads i) j ≡ false
    → covers (update w.threads i t' k) j ≡ true
other_thread w i k t' j own uncovered = elim (Bool-cases (k == i)) [
  | inl same ↦ let e : k ≡ i = (==_iff k i).0 same in cc (ap (λ n. covers (w.threads n) j) e)
  | inr other ↦ rw other own
]

module _ {R : Type 0} (server : Server R) (obeys : Obeys server) (store : KeyvRedisStore)
    (set_name : Text) (on : store.use_redis_sets ≡ true) (j : Text) where
  -- The entry is tracked, or a thread answers for it.
  abbrev Answered : World R → Type 0
  Answered w =
      server.live w.server j ≡ true
      → (server.member set_name w.server j ≡ true) ⊎ ((i : ℕ) × (covers (w.threads i) j ≡ true))

  record Inv (w : World R) : Type 0 where
    answered_for : has w.lost j ≡ false → Answered w
    all_sane : (i : ℕ) → sane (w.threads i) j ≡ true

  sane-update :
      (threads : ℕ → Thread) (i : ℕ) (t : Thread)
      → ((k : ℕ) → sane (threads k) j ≡ true)
      → sane t j ≡ true
      → (k : ℕ) → sane (update threads i t k) j ≡ true
  sane-update threads i t all h k = elim (Bool-cases (k == i)) [
    | inl same ↦ rw same h
    | inr other ↦ rw other (all k)
  ]

  -- A thread moves on, and the server with it.
  moved :
      (w : World R) (i : ℕ) (t' : Thread) (r : R)
      → kept
          (server.live w.server j)
          (server.member set_name w.server j)
          (covers (w.threads i) j)
          (server.live r j)
          (server.member set_name r j)
          (covers t' j)
        ≡ true
      → Answered w
      → server.live r j ≡ true
      → (server.member set_name r j ≡ true)
        ⊎ ((k : ℕ) × (covers (update w.threads i t' k) j ≡ true))
  moved w i t' r h before alive = elim (Bool-cases (server.member set_name r j)) [
    | inl tracked ↦ inl tracked
    | inr untracked ↦ elim (Bool-cases (covers t' j)) [
      | inl own ↦ inr (i, rw (==_refl i) own)
      | inr idle ↦
          let (was_alive, no_better, uncovered) =
            kept_parts (server.live w.server j) (server.member set_name w.server j)
              (covers (w.threads i) j) (rw (alive, untracked, idle) at h) in
          elim (before was_alive) [
            | inl tracked ↦ cc
            | inr (k, own) ↦ inr (k, other_thread w i k t' j own uncovered)
          ]
    ]
  ]

  Inv-update :
      (w : World R) (i : ℕ) (t' : Thread) (r : R) (lost : List Text)
      → Inv w
      → sane t' j ≡ true
      → (has lost j ≡ false → has w.lost j ≡ false)
      → (has lost j ≡ false
          → kept
              (server.live w.server j)
              (server.member set_name w.server j)
              (covers (w.threads i) j)
              (server.live r j)
              (server.member set_name r j)
              (covers t' j)
            ≡ true)
      → Inv (record { server = r; threads = update w.threads i t'; lost = lost })
  Inv-update w i t' r lost inv ok fewer h = record {
    answered_for = λ safe. moved w i t' r (h safe) (inv.answered_for (fewer safe));
    all_sane = sane-update w.threads i t' inv.all_sane ok;
  }

  Inv-Step : {w w' : World R} → Inv w → Step server store set_name w w' → Inv w'
  unfolding covers
  Inv-Step {w} inv (start i t free starts) =
      Inv-update w i t w.server w.lost inv (sane-Starts j starts) (λ h. h)
        (λ safe.
          rw free
            (same_kept (server.live w.server j) (server.member set_name w.server j) (covers t j)))
  Inv-Step {w} inv (answered i t c answer at_t wants honest ok) =
      Inv-update w i (resume store t answer) (server.exec c w.server) w.lost inv
        (sane-resume store t answer j (rw (sym at_t) (inv.all_sane i))) (λ safe. safe)
        (λ safe.
          rw (at_t, obeys.exec-live c w.server j, obeys.exec-member set_name c w.server j)
            (resumed store set_name (server.live w.server) (server.member set_name w.server) j t
              answer on ok c wants honest))
  Inv-Step {w} inv (fails i t c applied at_t wants) =
      Inv-update w i (resume store t failed) (if applied then server.exec c w.server else w.server)
        (risked t ++ w.lost) inv (sane-resume store t failed j (rw (sym at_t) (inv.all_sane i)))
        (λ safe.
          (or_false (has (risked t) j) (has w.lost j)
            (sym (has-append (risked t) w.lost j) ∙ safe)).1)
        (λ safe.
          rw
            (
              at_t,
              if-ap (λ r. server.live r j) applied (server.exec c w.server) w.server,
              if-ap (λ r. server.member set_name r j) applied (server.exec c w.server) w.server,
              obeys.exec-live c w.server j,
              obeys.exec-member set_name c w.server j,
            )
            (interrupted store set_name (server.live w.server) (server.member set_name w.server) j
              applied t c wants
              (or_false (has (risked t) j) (has w.lost j)
                (sym (has-append (risked t) w.lost j) ∙ safe)).0
              (rw (sym at_t) (inv.all_sane i))))
  Inv-Step {w} inv (overtake i t t' at_t over) =
      Inv-update w i t' w.server w.lost inv (sane-Overtakes j over (rw (sym at_t) (inv.all_sane i)))
        (λ safe. safe)
        (λ safe.
          rw (at_t, covers-Overtakes j over)
            (still_kept (server.live w.server j) (server.member set_name w.server j) (covers t j)))
  Inv-Step {w} inv (expire r fewer same) = record {
    answered_for = λ safe alive. rw (same j) (inv.answered_for safe (fewer j alive));
    all_sane = inv.all_sane;
  }

  Inv-Reach : {v w : World R} → Inv v → Reach server store set_name v w → Inv w
  Inv-Reach inv here = inv
  Inv-Reach inv (next r s) = Inv-Step (Inv-Reach inv r) s

-- When no call is in progress, an entry that exists is in the tracking set, if that held of every
-- entry at the start and no failed command gave up its name; calls may interleave in any order.
pub Quiet-tracked :
    {R : Type 0} (server : Server R)
    → Obeys server
    → (store : KeyvRedisStore) (set_name : Text) → store.use_redis_sets ≡ true
    → (v w : World R) → ((i : ℕ) → v.threads i ≡ finished)
    → ((j : Text) → server.live v.server j ≡ true → server.member set_name v.server j ≡ true)
    → Reach server store set_name v w
    → ((i : ℕ) → w.threads i ≡ finished)
    → (j : Text) → has w.lost j ≡ false
    → server.live w.server j ≡ true
    → server.member set_name w.server j ≡ true
unfolding covers sane
Quiet-tracked server obeys store set_name on v w idle all_tracked r quiet j safe alive =
    let first : Inv server obeys store set_name on j v = record {
      answered_for = λ _ was. inl (all_tracked j was);
      all_sane = λ i. rw (idle i) refl;
    } in
    elim ((Inv-Reach server obeys store set_name on j first r).answered_for safe alive) [
      | inl tracked ↦ tracked
      | inr (i, own) ↦ cc (rw (quiet i) at own)
    ]
