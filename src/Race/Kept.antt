-- ===== src/Race/Kept.antt =====
-- packages/plugin-rest-cache/server/src/middlewares/recv.ts: every step keeps the invariant.
use mathlib.Core.Path.{subst}
use plugin_rest_cache.Prelude.{
  ℕ, ◌+◌, ◌≤◌, ◌<◌, ◌≡◌, refl, sym, ap, ◌∙◌, ◌≢◌, inl, inr, true, false, Option, none, some, ◌∷◌,
  arith, ◌==◌, ==_iff, Bool-cases, length, Text,
}
use plugin_rest_cache.Store.Log.{Patterns, covers}
use plugin_rest_cache.Store.History.{purges, generation-purges}
use plugin_rest_cache.Race.{
  Phase, reading, answering, fetched, writing, written, removing, Purging, committed, recorded,
  listed, World, update, is_some, Step, Reach, next, fresh,
}
use plugin_rest_cache.Race.Covered.{CoveredSince, CoveredSince-new, CoveredSince-more}
use plugin_rest_cache.Race.Invariant.{
  Pending, Sound, WillDelete, WillUndo, Cleaning, Invariant, update_at, update_off, transfer,
  update-cases,
}
use plugin_rest_cache.Race.Moves.{relocate, moved-Invariant}

module _ (key : Text) where
  -- A purge that is not the one being recorded stays pending.
  Pending-kept :
      (f : ℕ → Purging) (k : ℕ) (to : Purging)
      → f k ≢ committed
      → (k' : ℕ) × (f k' ≡ committed)
      → (k' : ℕ) × (update f k to k' ≡ committed)
  Pending-kept f k to other (k', c) = elim (Bool-cases (k' == k)) [
    | inl e ↦ absurd (other (ap f (sym ((==_iff k' k).0 e)) ∙ c))
    | inr e ↦ (k', rw (update_off f k to k' e) c)
  ]

  Delete-kept :
      (f : ℕ → Purging) (k : ℕ) (from to : Purging)
      → f k ≡ from
      → (WillDelete key from → WillDelete key to)
      → (k' : ℕ) × WillDelete key (f k')
      → (k' : ℕ) × WillDelete key (update f k to k')
  Delete-kept f k from to at g (k', d) = elim (Bool-cases (k' == k)) [
    | inl e ↦
        let same : f k' ≡ from = ap f ((==_iff k' k).0 e) ∙ at in
        (k, rw (update_at f k to) (g (subst (WillDelete key) same d)))
    | inr e ↦ (k', rw (update_off f k to k' e) d)
  ]

  -- Later purges leave an undoing request as it is.
  Undo-more :
      (w w' : World) (r : Patterns) (ph : Phase)
      → w'.history ≡ r ∷ w.history
      → Sound key w ph
      → WillUndo key w ph
      → WillUndo key w' ph
  Undo-more w w' r (written g v) e (le, made, noticed) u =
      subst (λ h. CoveredSince key h g) (sym e) (CoveredSince-more key w.history g r le u)
  Undo-more w w' r removing e s u = tt
  Undo-more w w' r Phase.idle e s u = absurd u
  Undo-more w w' r (reading g) e s u = absurd u
  Undo-more w w' r (answering g v) e s u = absurd u
  Undo-more w w' r (fetched g v) e s u = absurd u
  Undo-more w w' r (writing g v) e s u = absurd u

  begun :
      (w : World) (i : ℕ)
      → w.requests i ≡ Phase.idle
      → Invariant key w
      → Invariant key
          (record w { requests = update w.requests i (reading (purges w.history).generation) })
  begun w i at inv =
      let g = (purges w.history).generation in
      let now : g ≤ length w.history = omega (arith, generation-purges w.history) in
      record {
        sound = λ j. update-cases (Sound key w) w.requests i (reading g) j now (inv.sound j);
        entry_made = inv.entry_made;
        cleaned = λ v e l.
            relocate key w i Phase.idle (reading g) w.entry at (λ u. u) (inv.cleaned v e l);
      }

  changed :
      (w : World) (k : ℕ)
      → Invariant key w
      → Invariant key (record w { version = w.version + 1; purging = update w.purging k committed })
  changed w k inv =
      let w' : World = record w {
        version = w.version + 1;
        purging = update w.purging k committed;
      } in
      let pending : Pending key w' = (k, update_at w.purging k committed) in
      record {
        sound = λ i.
            transfer key w w' (omega arith) (omega arith) (λ g v hd l. inl pending) (w.requests i)
              (inv.sound i);
        entry_made = λ v e. omega (arith, inv.entry_made v e);
        cleaned = λ v e l. inl (k, rw (update_at w.purging k committed) tt);
      }

  recorded_it :
      (w : World) (k : ℕ) (r : Patterns)
      → w.purging k ≡ committed
      → covers key r ≡ true
      → Invariant key w
      → Invariant key (record w { history = r ∷ w.history; purging = update w.purging k recorded })
  recorded_it w k r at c inv =
      let w' : World = record w {
        history = r ∷ w.history;
        purging = update w.purging k recorded;
      } in
      record {
        sound = λ i.
            transfer key w w' (omega arith) (omega arith)
              (λ g v hd l. inr (CoveredSince-new key w.history g r hd.0 c)) (w.requests i)
              (inv.sound i);
        entry_made = inv.entry_made;
        cleaned = λ v e l. elim (inv.cleaned v e l) [
          | inl d ↦ inl (Delete-kept w.purging k committed recorded at (λ _. tt) d)
          | inr (i, u) ↦ inr (i, Undo-more w w' r (w.requests i) refl (inv.sound i) u)
        ];
      }

  -- A purge that moves on without a change of the content or of the record.
  moved_on :
      (w : World) (k : ℕ) (from to : Purging) (entry : Option ℕ)
      → w.purging k ≡ from
      → from ≢ committed
      → Invariant key w
      → ((v : ℕ) → entry ≡ some v → w.entry ≡ some v)
      → ((v : ℕ)
          → entry ≡ some v
          → v < w.version
          → Cleaning key (record w { entry = entry; purging = update w.purging k to }))
      → Invariant key (record w { entry = entry; purging = update w.purging k to })
  moved_on w k from to entry at other inv same cleaned =
      let w' : World = record w { entry = entry; purging = update w.purging k to } in
      let still : Pending key w → Pending key w' =
        Pending-kept w.purging k to (λ c. other (sym at ∙ c)) in
      record {
        sound = λ i.
            transfer key w w' (omega arith) (omega arith)
              (λ g v hd l. elim (hd.2 l) [ inl c ↦ inl (still c) | inr c ↦ inr c ]) (w.requests i)
              (inv.sound i);
        entry_made = λ v e. inv.entry_made v (same v e);
        cleaned = cleaned;
      }

  listed_keys :
      (w : World) (k : ℕ)
      → w.purging k ≡ recorded
      → Invariant key w
      → Invariant key (record w { purging = update w.purging k (listed (is_some w.entry)) })
  listed_keys w k at inv =
      moved_on w k recorded (listed (is_some w.entry)) w.entry at (λ e. cc) inv (λ v e. e)
        (λ v e l. inl (k, rw (update_at w.purging k (listed (is_some w.entry))) (rw e tt)))

  deleted_listed :
      (w : World) (k : ℕ)
      → w.purging k ≡ listed true
      → Invariant key w
      → Invariant key (record w { entry = none; purging = update w.purging k Purging.idle })
  deleted_listed w k at inv =
      moved_on w k (listed true) Purging.idle none at (λ e. cc) inv (λ v e. cc) (λ v e l. cc)

  deleted_nothing :
      (w : World) (k : ℕ)
      → w.purging k ≡ listed false
      → Invariant key w
      → Invariant key (record w { purging = update w.purging k Purging.idle })
  deleted_nothing w k at inv =
      moved_on w k (listed false) Purging.idle w.entry at (λ e. cc) inv (λ v e. e)
        (λ v e l. elim (inv.cleaned v e l) [
          | inl d ↦ inl (Delete-kept w.purging k (listed false) Purging.idle at (λ d'. d') d)
          | inr u ↦ inr u
        ])

  recorded_other :
      (w : World) (r : Patterns)
      → Invariant key w
      → Invariant key (record w { history = r ∷ w.history })
  recorded_other w r inv =
      let w' : World = record w { history = r ∷ w.history } in
      record {
        sound = λ i.
            transfer key w w' (omega arith) (omega arith)
              (λ g v hd l. elim (hd.2 l) [
                | inl c ↦ inl c
                | inr c ↦ inr (CoveredSince-more key w.history g r hd.0 c)
              ])
              (w.requests i) (inv.sound i);
        entry_made = inv.entry_made;
        cleaned = λ v e l. elim (inv.cleaned v e l) [
          | inl d ↦ inl d
          | inr (i, u) ↦ inr (i, Undo-more w w' r (w.requests i) refl (inv.sound i) u)
        ];
      }

  expired : (w : World) → Invariant key w → Invariant key (record w { entry = none })
  expired w inv = record { sound = inv.sound; entry_made = λ v e. cc; cleaned = λ v e l. cc }

  pub Step-Invariant : {w w' : World} → Step key w w' → Invariant key w → Invariant key w'
  Step-Invariant (Step.begin w i at) inv = begun w i at inv
  Step-Invariant (Step.move w i from to entry at m) inv =
      moved-Invariant key w i from to entry at m inv
  Step-Invariant (Step.change w k at) inv = changed w k inv
  Step-Invariant (Step.record_it w k r at c) inv = recorded_it w k r at c inv
  Step-Invariant (Step.list_keys w k at) inv = listed_keys w k at inv
  Step-Invariant (Step.delete_listed w k at) inv = deleted_listed w k at inv
  Step-Invariant (Step.delete_nothing w k at) inv = deleted_nothing w k at inv
  Step-Invariant (Step.record_other w r) inv = recorded_other w r inv
  Step-Invariant (Step.expire w) inv = expired w inv

  fresh-Invariant : (version : ℕ) → Invariant key (fresh version)
  fresh-Invariant version = record {
    sound = λ i. tt;
    entry_made = λ v e. cc;
    cleaned = λ v e l. cc;
  }

  pub Reach-Invariant : {version : ℕ} {w : World} → Reach key (fresh version) w → Invariant key w
  Reach-Invariant {version} (Reach.here w) = fresh-Invariant version
  Reach-Invariant (next r st) = Step-Invariant st (Reach-Invariant r)
