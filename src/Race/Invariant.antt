-- ===== src/Race/Invariant.antt =====
-- packages/plugin-rest-cache/server/src/middlewares/recv.ts: what holds between the steps.
use plugin_rest_cache.Prelude.{
  ℕ, ◌≤◌, ◌<◌, ◌≡◌, refl, ◌⊎◌, inl, inr, true, false, Option, some, arith, ◌==◌, ==_refl,
  Bool-cases, length, Text,
}
use plugin_rest_cache.Race.{
  Phase, reading, answering, fetched, writing, written, removing, Purging, committed, recorded,
  listed, World, update,
}
use plugin_rest_cache.Race.Covered.{CoveredSince}

module _ (key : Text) where
  -- A change is made and its purge not yet on record.
  abbrev pub Pending : World → Type 0
  Pending w = (k : ℕ) × (w.purging k ≡ committed)

  -- A version that a request of generation `g` holds.
  abbrev pub Holds : World → ℕ → ℕ → Type 0
  Holds w g v =
      (g ≤ length w.history)
      × (v ≤ w.version)
      × (v < w.version → Pending w ⊎ CoveredSince key w.history g)

  abbrev pub Sound : World → Phase → Type 0
  Sound w Phase.idle = Unit
  Sound w (reading g) = g ≤ length w.history
  Sound w (answering g v) = Holds w g v
  Sound w (fetched g v) = Holds w g v
  Sound w (writing g v) = Holds w g v
  Sound w (written g v) = Holds w g v
  Sound w removing = Unit

  -- A purge that has yet to delete what is stored now.
  abbrev pub WillDelete : Purging → Type 0
  WillDelete Purging.idle = ⊥
  WillDelete committed = Unit
  WillDelete recorded = Unit
  WillDelete (listed true) = Unit
  WillDelete (listed false) = ⊥

  -- A request that will delete what is stored.
  abbrev pub WillUndo : World → Phase → Type 0
  WillUndo w (written g v) = CoveredSince key w.history g
  WillUndo w removing = Unit
  WillUndo w _ = ⊥

  -- Somebody is about to delete the entry.
  abbrev pub Cleaning : World → Type 0
  Cleaning w = ((k : ℕ) × WillDelete (w.purging k)) ⊎ ((i : ℕ) × WillUndo w (w.requests i))

  pub record Invariant (w : World) : Type 0 where
    pub sound : (i : ℕ) → Sound w (w.requests i)
    pub entry_made : (v : ℕ) → w.entry ≡ some v → v ≤ w.version
    pub cleaned : (v : ℕ) → w.entry ≡ some v → v < w.version → Cleaning w

pub update-cases {ℓ κ} :
    {A : Type ℓ} (P : A → Type κ) (f : ℕ → A) (i : ℕ) (a : A) (j : ℕ)
    → P a
    → P (f j)
    → P (update f i a j)
update-cases P f i a j new old = elim (Bool-cases (j == i)) [ inl e ↦ rw e new | inr e ↦ rw e old ]

pub update_at {ℓ} : {A : Type ℓ} (f : ℕ → A) (i : ℕ) (a : A) → update f i a i ≡ a
update_at f i a = rw (==_refl i) refl

pub update_off {ℓ} :
    {A : Type ℓ} (f : ℕ → A) (i : ℕ) (a : A) (j : ℕ) → (j == i) ≡ false → update f i a j ≡ f j
update_off f i a j e = rw e refl

module _ (key : Text) where
  pub transfer :
      (w w' : World)
      → length w.history ≤ length w'.history
      → w.version ≤ w'.version
      → ((g v : ℕ)
          → Holds key w g v
          → v < w'.version
          → Pending key w' ⊎ CoveredSince key w'.history g)
      → (ph : Phase) → Sound key w ph
      → Sound key w' ph
  transfer w w' le ver f Phase.idle s = tt
  transfer w w' le ver f (reading g) s = omega arith
  transfer w w' le ver f (answering g v) s = (omega arith, omega arith, f g v s)
  transfer w w' le ver f (fetched g v) s = (omega arith, omega arith, f g v s)
  transfer w w' le ver f (writing g v) s = (omega arith, omega arith, f g v s)
  transfer w w' le ver f (written g v) s = (omega arith, omega arith, f g v s)
  transfer w w' le ver f removing s = tt

  abbrev pub moved : World → ℕ → Option ℕ → Phase → World
  moved w i entry to = record w { entry = entry; requests = update w.requests i to }
