-- ===== src/Race/Moves.antt =====
-- packages/plugin-rest-cache/server/src/middlewares/recv.ts: a request's steps keep the invariant.
use mathlib.Core.Path.{subst}
use plugin_rest_cache.Prelude.{
  some_injective, ℕ, ◌≤◌, ◌<◌, ◌≡◌, ap, ◌∙◌, inl, inr, false, Option, some, arith, ◌==◌, ==_iff,
  Bool-cases, length, Text,
}
use plugin_rest_cache.Race.{
  Phase, reading, answering, fetched, writing, written, removing, World, purged, Move,
}
use plugin_rest_cache.Race.Covered.{CoveredSince, purged_since-CoveredSince}
use plugin_rest_cache.Race.Invariant.{
  Sound, WillUndo, Cleaning, Invariant, update_at, update_off, update-cases, moved,
}

module _ (key : Text) where
  pub relocate :
      (w : World) (i : ℕ) (from to : Phase) (entry : Option ℕ)
      → w.requests i ≡ from
      → (WillUndo key w from → WillUndo key w to)
      → Cleaning key w
      → Cleaning key (moved key w i entry to)
  relocate w i from to entry at f (inl c) = inl c
  relocate w i from to entry at f (inr (j, u)) = elim (Bool-cases (j == i)) [
    | inl e ↦
        let j=i : j ≡ i = (==_iff j i).0 e in
        inr (
          i,
          rw (update_at w.requests i to) (f (subst (WillUndo key w) (ap w.requests j=i ∙ at) u)),
        )
    | inr e ↦ inr (j, rw (update_off w.requests i to j e) u)
  ]

  not_purged :
      (w : World) (g : ℕ)
      → g ≤ length w.history
      → purged key w g ≡ false
      → CoveredSince key w.history g
      → ⊥
  unfolding purged
  not_purged w g le e c = cc (e, purged_since-CoveredSince key w.history g le c)

  move-cleaned :
      (w : World) (i : ℕ) {from to : Phase} {entry : Option ℕ}
      → w.requests i ≡ from
      → Move key w from entry to
      → Sound key w from
      → ((v : ℕ) → w.entry ≡ some v → v < w.version → Cleaning key w)
      → (v : ℕ) → entry ≡ some v
      → v < w.version
      → Cleaning key (moved key w i entry to)
  move-cleaned w i at (Move.read_content g) s old v e l =
      relocate w i (reading g) (answering g w.version) w.entry at (λ u. u) (old v e l)
  move-cleaned w i at (Move.respond g v') s old v e l =
      relocate w i (answering g v') (fetched g v') w.entry at (λ u. u) (old v e l)
  move-cleaned w i at (Move.fail g) s old v e l =
      relocate w i (reading g) Phase.idle w.entry at (λ u. u) (old v e l)
  move-cleaned w i at (Move.refuse g v') s old v e l =
      relocate w i (answering g v') Phase.idle w.entry at (λ u. u) (old v e l)
  move-cleaned w i at (Move.skip g v' p) s old v e l =
      relocate w i (fetched g v') Phase.idle w.entry at (λ u. u) (old v e l)
  move-cleaned w i at (Move.start_write g v' p) s old v e l =
      relocate w i (fetched g v') (writing g v') w.entry at (λ u. u) (old v e l)
  move-cleaned w i at (Move.land g v') (le, made, noticed) old v e l =
      elim (noticed (omega (arith, some_injective e))) [
        | inl (k, c) ↦ inl (k, rw c tt)
        | inr c ↦ inr (i, rw (update_at w.requests i (written g v')) c)
      ]
  move-cleaned w i at (Move.lose g v') s old v e l =
      relocate w i (writing g v') (written g v') w.entry at (λ u. absurd u) (old v e l)
  move-cleaned w i at (Move.keep g v' p) (le, made, noticed) old v e l =
      relocate w i (written g v') Phase.idle w.entry at (not_purged w g le p) (old v e l)
  move-cleaned w i at (Move.undo g v' p) s old v e l =
      relocate w i (written g v') removing w.entry at (λ u. tt) (old v e l)
  move-cleaned w i at Move.remove s old v e l = cc

  move-Sound :
      (w : World) {from to : Phase} {entry : Option ℕ}
      → Move key w from entry to
      → Sound key w from
      → Sound key w to
  move-Sound w (Move.read_content g) s = (s, omega arith, λ l. absurd (omega arith))
  move-Sound w (Move.respond g v) s = s
  move-Sound w (Move.fail g) s = tt
  move-Sound w (Move.refuse g v) s = tt
  move-Sound w (Move.skip g v p) s = tt
  move-Sound w (Move.start_write g v p) s = s
  move-Sound w (Move.land g v) s = s
  move-Sound w (Move.lose g v) s = s
  move-Sound w (Move.keep g v p) s = tt
  move-Sound w (Move.undo g v p) s = tt
  move-Sound w Move.remove s = tt

  move-made :
      (w : World) {from to : Phase} {entry : Option ℕ}
      → Move key w from entry to
      → Sound key w from
      → ((v : ℕ) → w.entry ≡ some v → v ≤ w.version)
      → (v : ℕ) → entry ≡ some v
      → v ≤ w.version
  move-made w (Move.read_content g) s old v e = old v e
  move-made w (Move.respond g v') s old v e = old v e
  move-made w (Move.fail g) s old v e = old v e
  move-made w (Move.refuse g v') s old v e = old v e
  move-made w (Move.skip g v' p) s old v e = old v e
  move-made w (Move.start_write g v' p) s old v e = old v e
  move-made w (Move.land g v') (le, made, noticed) old v e = omega (arith, some_injective e)
  move-made w (Move.lose g v') s old v e = old v e
  move-made w (Move.keep g v' p) s old v e = old v e
  move-made w (Move.undo g v' p) s old v e = old v e
  move-made w Move.remove s old v e = cc

  pub moved-Invariant :
      (w : World) (i : ℕ) (from to : Phase) (entry : Option ℕ)
      → w.requests i ≡ from
      → Move key w from entry to
      → Invariant key w
      → Invariant key (moved key w i entry to)
  moved-Invariant w i from to entry at m inv =
      let s : Sound key w from = subst (Sound key w) at (inv.sound i) in
      record {
        sound = λ j. update-cases (Sound key w) w.requests i to j (move-Sound w m s) (inv.sound j);
        entry_made = move-made w m s inv.entry_made;
        cleaned = move-cleaned w i at m s inv.cleaned;
      }
