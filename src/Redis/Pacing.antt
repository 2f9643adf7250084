-- ===== src/Redis/Pacing.antt =====
-- packages/provider-rest-cache-redis/src/RedisCacheProvider.ts: how often prunes start.
use plugin_rest_cache.Prelude.{
  ℕ, ◌+◌, ◌≤◌, ◌≡◌, refl, ap, ◌⊎◌, inl, inr, Bool, true, false, Option, none, some, List, [], ◌∷◌,
  arith, ltb, Bool-cases,
}
use plugin_rest_cache.Redis.Provider.{PruneState, too_soon, start_prune, finish_prune}

-- A call of startPrune with an interval, at a time, or the end of a pass.
pub data Event : Type 0 where
  call : ℕ → ℕ → Event
  finish : Event

-- The passes that are started, by the interval of the call and its time.
abbrev pub starts : List Event → PruneState → List (ℕ × ℕ)
starts [] state = []
starts (finish ∷ events) state = starts events (finish_prune state)
starts (call interval now ∷ events) state =
    let (state', started) = start_prune true interval now state in
    elim started [ true ↦ (interval, now) ∷ starts events state' | false ↦ starts events state' ]

-- Each is the interval of its own call after the one before.
abbrev pub Spaced : Option ℕ → List (ℕ × ℕ) → Type 0
Spaced last [] = Unit
Spaced none ((interval, now) ∷ passes) = Spaced (some now) passes
Spaced (some last) ((interval, now) ∷ passes) = (last + interval ≤ now) × Spaced (some now) passes

le-of_not_ltb : (a b : ℕ) → ltb a b ≡ false → b ≤ a
le-of_not_ltb a b h = ground arith

-- A call starts a pass at its time if the last one is an interval ago, or does nothing.
start_prune_cases :
    (interval now : ℕ) (last : Option ℕ) (running : Bool)
    → (start_prune true interval now (record { last_started = last; running = running })
        ≡ (record { last_started = last; running = running }, false))
      ⊎ ((start_prune true interval now (record { last_started = last; running = running })
            ≡ (record { last_started = some now; running = true }, true))
          × ((l : ℕ) → last ≡ some l → l + interval ≤ now))
unfolding start_prune too_soon
start_prune_cases interval now last true = inl refl
start_prune_cases interval now none false = inr (refl, λ l e. cc)
start_prune_cases interval now (some last) false = elim (Bool-cases (ltb now (last + interval))) [
  | inl soon ↦ inl (rw soon refl)
  | inr due ↦ inr (rw due refl, λ l e. ground (arith, le-of_not_ltb now (last + interval) due))
]

Spaced-next :
    (interval now : ℕ) (last : Option ℕ) (passes : List (ℕ × ℕ))
    → ((l : ℕ) → last ≡ some l → l + interval ≤ now)
    → Spaced (some now) passes
    → Spaced last ((interval, now) ∷ passes)
Spaced-next interval now none passes h later = later
Spaced-next interval now (some l) passes h later = (h l refl, later)

starts-Spaced' :
    (events : List Event) (last : Option ℕ) (running : Bool)
    → Spaced last (starts events (record { last_started = last; running = running }))
unfolding finish_prune
starts-Spaced' [] last running = tt
starts-Spaced' (finish ∷ events) last running = starts-Spaced' events last false
starts-Spaced' (call interval now ∷ events) last running =
    elim (start_prune_cases interval now last running) [
      | inl idle ↦
          rw (ap (λ x. x.1) idle, ap (λ x. x.0) idle, starts) (starts-Spaced' events last running)
      | inr (started, due) ↦
          rw (ap (λ x. x.1) started, ap (λ x. x.0) started, starts)
            (Spaced-next interval now last _ due (starts-Spaced' events (some now) true))
    ]

-- However calls of startPrune, each with an interval of its own, and ends of passes follow one
-- another, a pass starts no sooner than the interval of the call that starts it after the one
-- before.
pub starts-Spaced :
    (events : List Event) (state : PruneState) → Spaced state.last_started (starts events state)
starts-Spaced events state = starts-Spaced' events state.last_started state.running
