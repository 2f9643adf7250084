-- ===== src/Redis/Pruned.antt =====
-- packages/provider-rest-cache-redis/src/RedisCacheProvider.ts: untrackDead alone.
use plugin_rest_cache.Prelude.{
  ◌≡◌, refl, sym, ap, ◌∙◌, inl, inr, Bool, true, false, ◌&&◌, ◌||◌, not, List, [], ◌∷◌, ◌++◌, arith,
  Bool-cases, or_cases, Text, text_eq, text_eq_sound, text_eq_refl,
}
use plugin_rest_cache.Redis.{
  KeyvRedisStore, counts_as_existing, start_recheck, next_check, start_retrack, next_recheck,
  start_untrack_dead, command_of, after_check, after_recheck, resume, checking, dropping,
  rechecking,
}
use plugin_rest_cache.Redis.Client.{srem, exists, Server, Obeys}
use plugin_rest_cache.Redis.Covering.{has-append}
use plugin_rest_cache.Redis.Alone.{reply, Runs, Leaves}
use plugin_rest_cache.Store.Listing.{has}

alive_skipped :
    (live : Text → Bool) (m j : Text) (d s p : Bool)
    → live m ≡ true
    → (not (d || (s && not (live j))) && p) ≡ (not (d || ((text_eq j m || s) && not (live j))) && p)
alive_skipped live m j d s p there = elim (Bool-cases (text_eq j m)) [
  | inl same ↦
      let e : live j ≡ true = ap live (text_eq_sound j m same) ∙ there in
      rw (same, e) (ground arith)
  | inr other ↦ rw other refl
]

dead_moved :
    (live : Text → Bool) (m j : Text) (d s p : Bool)
    → live m ≡ false
    → (not ((d || (text_eq j m || false)) || (s && not (live j))) && p)
      ≡ (not (d || ((text_eq j m || s) && not (live j))) && p)
dead_moved live m j d s p none_there = elim (Bool-cases (text_eq j m)) [
  | inl same ↦
      let e : live j ≡ false = ap live (text_eq_sound j m same) ∙ none_there in
      rw (same, e) (ground arith)
  | inr other ↦ rw other (ground arith)
]

module _ {R : Type 0} (server : Server R) (obeys : Obeys server) (store : KeyvRedisStore)
    (set_name : Text) where
  -- Nothing exists under these names.
  abbrev Gone : List Text → R → Type 0
  Gone names r = (j : Text) → has names j ≡ true → server.live r j ≡ false

  recheck_run :
      (dead rest : List Text) (r : R)
      → Gone rest r
      → Leaves server store set_name
          (next_recheck dead rest [])
          r
          (server.live r)
          (server.member set_name r)
  unfolding next_recheck start_retrack resume after_recheck command_of counts_as_existing
  recheck_run dead [] r gone = (r, Runs.stops r, λ j. refl, λ j. refl)
  recheck_run dead (m ∷ rest) r gone =
      let c = exists m in
      let (r', runs, live, member) =
        recheck_run dead rest (server.exec c r)
          (λ j h. obeys.exec-live c r j ∙ gone j (ground arith)) in
      (
        r',
        Runs.goes (rechecking dead (m ∷ rest) []) c r r' refl
            (rw (gone m (rw (text_eq_refl m) refl), reply) runs),
        λ j. live j ∙ obeys.exec-live c r j,
        λ j. member j ∙ obeys.exec-member set_name c r j,
      )

  -- What is in the list and does not exist.
  abbrev dead_in : List Text → R → Text → Bool
  dead_in names r j = has names j && not (server.live r j)

  drop_run :
      (dead : List Text) (r : R)
      → Gone dead r
      → Leaves server store set_name
          (start_recheck dead)
          r
          (server.live r)
          (λ j. not (has dead j) && server.member set_name r j)
  unfolding start_recheck resume command_of
  drop_run [] r gone = (r, Runs.stops r, λ j. refl, λ j. refl)
  drop_run (d ∷ dead) r gone =
      let c = srem set_name (d ∷ dead) in
      let (r', runs, live, member) =
        recheck_run (d ∷ dead) (d ∷ dead) (server.exec c r)
          (λ j h. obeys.exec-live c r j ∙ gone j h) in
      (
        r',
        Runs.goes (dropping (d ∷ dead)) c r r' refl runs,
        λ j. live j ∙ obeys.exec-live c r j,
        λ j. member j ∙ obeys.exec-member set_name c r j ∙ rw (text_eq_refl set_name) refl,
      )

  Gone-more :
      (r : R) (m : Text) (dead : List Text)
      → Gone dead r
      → server.live r m ≡ false
      → Gone (dead ++ m ∷ []) r
  Gone-more r m dead gone none_there j h =
      elim (or_cases (has dead j) (has (m ∷ []) j) (sym (has-append dead (m ∷ []) j) ∙ h)) [
        | inl old ↦ gone j old
        | inr new ↦ ap (server.live r) (text_eq_sound j m (ground arith)) ∙ none_there
      ]

  check_run :
      (members rest dead : List Text) (r : R)
      → Gone dead r
      → Leaves server store set_name
          (next_check members rest dead)
          r
          (server.live r)
          (λ j. not (has dead j || dead_in rest r j) && server.member set_name r j)
  unfolding next_check resume after_check command_of counts_as_existing
  check_run members [] dead r gone =
      let (r', runs, live, member) = drop_run dead r gone in
      (r', runs, live, λ j. member j ∙ ground arith)
  check_run members (m ∷ rest) dead r gone = elim (Bool-cases (server.live r m)) [
    | inl there ↦
        let c = exists m in
        let (r', runs, live, member) =
          check_run members rest dead (server.exec c r) (λ j h. obeys.exec-live c r j ∙ gone j h) in
        (
          r',
          Runs.goes (checking members (m ∷ rest) dead) c r r' refl (rw (there, reply) runs),
          λ j. live j ∙ obeys.exec-live c r j,
          λ j.
              member j
              ∙ rw (obeys.exec-live c r j, obeys.exec-member set_name c r j)
                  (alive_skipped (server.live r) m j (has dead j) (has rest j)
                    (server.member set_name r j) there),
        )
    | inr none_there ↦
        let c = exists m in
        let (r', runs, live, member) =
          check_run members rest (dead ++ m ∷ []) (server.exec c r)
            (λ j h. obeys.exec-live c r j ∙ Gone-more r m dead gone none_there j h) in
        (
          r',
          Runs.goes (checking members (m ∷ rest) dead) c r r' refl (rw (none_there, reply) runs),
          λ j. live j ∙ obeys.exec-live c r j,
          λ j.
              member j
              ∙ rw
                  (
                    obeys.exec-live c r j,
                    obeys.exec-member set_name c r j,
                    has-append dead (m ∷ []) j,
                  )
                  (dead_moved (server.live r) m j (has dead j) (has rest j)
                    (server.member set_name r j) none_there),
        )
  ]

  -- Alone and with no failure, untrackDead finishes, leaves every entry, and takes out of the
  -- tracking set exactly those of its members behind which there is no entry.
  pub start_untrack_dead_lem :
      (members : List Text) (r : R)
      → Leaves server store set_name
          (start_untrack_dead members)
          r
          (server.live r)
          (λ j. not (has members j && not (server.live r j)) && server.member set_name r j)
  unfolding start_untrack_dead
  start_untrack_dead_lem members r = check_run members members [] r (λ j h. cc)
