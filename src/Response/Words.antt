-- ===== src/Response/Words.antt =====
-- packages/plugin-rest-cache/server/src/middlewares/recv.ts: what trimming and splitting a text leave of it.
use mathlib.Core.Path.{ap₂, subst}
use mathlib.Core.List.{Memᴰ, reverse, reverse-cons, reverse-append, reverse-reverse, append-nil}
use plugin_rest_cache.Prelude.{
  ℕ, ◌≡◌, refl, sym, ap, ◌∙◌, inl, inr, Bool, true, false, List, [], ◌∷◌, ◌++◌, ◌==◌, ==_iff,
  ==_refl, Bool-cases, and_parts, every, All, All-append, Text, Free,
}
use plugin_rest_cache.Response.Spaces.{is_space, skip_space, trim, split}
use plugin_rest_cache.Response.Directives.{Spaces}
use plugin_rest_cache.Response.Refusals.{Tight, skip_space-append}

pub skip_space_parts : (s : Text) → (before : Text) × (s ≡ before ++ skip_space s) × Spaces before
unfolding skip_space
skip_space_parts [] = ([], refl, tt)
skip_space_parts (c ∷ s) = elim (Bool-cases (is_space c)) [
  | inl space ↦
      let (before, e, spaces) = skip_space_parts s in
      rw space (c ∷ before, ap (◌∷◌ c) e, (space, spaces))
  | inr other ↦ rw other ([], refl, tt)
]

All-reverse : (P : ℕ → Type 0) (s : Text) → All P s → All P (reverse s)
All-reverse P [] h = tt
All-reverse P (c ∷ s) (here, later) =
    subst (All P) (sym (reverse-cons c s))
      (All-append P (reverse s) (c ∷ []) (All-reverse P s later) (here, tt))

pub trim_parts :
    (s : Text)
    → (before : Text) × (after : Text) × (s ≡ before ++ (trim s ++ after))
      × Spaces before
      × Spaces after
unfolding trim
trim_parts s =
    let (before, e, spaces) = skip_space_parts s in
    let (behind, e', spaces') = skip_space_parts (reverse (skip_space s)) in
    let turned : skip_space s ≡ trim s ++ reverse behind =
      sym (reverse-reverse (skip_space s))
      ∙ ap reverse e'
      ∙ reverse-append behind (skip_space (reverse (skip_space s))) in
    (
      before,
      reverse behind,
      e ∙ ap (λ x. before ++ x) turned,
      spaces,
      All-reverse (λ c. is_space c ≡ true) behind spaces',
    )

module _ (stop : ℕ) where
  -- The text ends, or goes on behind the separator.
  unfoldable pub Stopped : Text → Type 0
  Stopped [] = Unit
  Stopped (c ∷ s) = c ≡ stop

  pub split_here : (x rest : Text) → Free stop x → Stopped rest → (split stop (x ++ rest)).0 ≡ x
  unfolding split Stopped
  split_here [] [] free stops = refl
  split_here [] (c ∷ rest) free stops = rw ((==_iff c stop).1 stops) refl
  split_here (a ∷ x) rest (apart, free) stops = elim (Bool-cases (a == stop)) [
    | inl same ↦ absurd (apart ((==_iff a stop).0 same))
    | inr other ↦ rw other (ap (◌∷◌ a) (split_here x rest free stops))
  ]

  pub split_none : (x : Text) → Free stop x → (split stop x).1 ≡ []
  unfolding split
  split_none [] free = refl
  split_none (a ∷ x) (apart, free) = elim (Bool-cases (a == stop)) [
    | inl same ↦ absurd (apart ((==_iff a stop).0 same))
    | inr other ↦ rw other (split_none x free)
  ]

  pub split_two : (x y : Text) → Free stop x → Free stop y → (split stop (x ++ stop ∷ y)).1 ≡ y ∷ []
  unfolding split Stopped
  split_two [] y free k =
      let whole : (split stop y).0 ≡ y =
        subst (λ z. (split stop z).0 ≡ y) (append-nil y) (split_here y [] k tt) in
      rw (==_refl stop) (ap₂ ◌∷◌ whole (split_none y k))
  split_two (a ∷ x) y (apart, free) k = elim (Bool-cases (a == stop)) [
    | inl same ↦ absurd (apart ((==_iff a stop).0 same))
    | inr other ↦ rw other (split_two x y free k)
  ]

  pub split_there :
      (front x rest : Text)
      → Free stop x
      → Stopped rest
      → Memᴰ x (split stop (front ++ stop ∷ (x ++ rest))).1
  unfolding split
  split_there [] x rest free stops =
      rw (==_refl stop) (Memᴰ.head (sym (split_here x rest free stops)))
  split_there (a ∷ front) x rest free stops = elim (Bool-cases (a == stop)) [
    | inl same ↦ rw same (Memᴰ.tail (split_there front x rest free stops))
    | inr other ↦ rw other (split_there front x rest free stops)
  ]

pub Mem-every :
    (p : Text → Bool) (x : Text) (xs : List Text) → every p xs ≡ true → Memᴰ x xs → p x ≡ true
Mem-every p x [] h m = elim m [ ]
Mem-every p x (y ∷ xs) h (Memᴰ.head e) = ap p e ∙ (and_parts (p y) (every p xs) h).0
Mem-every p x (y ∷ xs) h (Memᴰ.tail m) = Mem-every p x xs (and_parts (p y) (every p xs) h).1 m

skip_space-Tight : (s : Text) → Tight s → skip_space s ≡ s
unfolding skip_space
skip_space-Tight [] h = refl
skip_space-Tight (c ∷ s) h = rw h refl

no_space-Tight : (s : Text) → All (λ c. is_space c ≡ false) s → Tight s
no_space-Tight [] h = tt
no_space-Tight (c ∷ s) (here, later) = here

pub trim_tight : (s : Text) → All (λ c. is_space c ≡ false) s → trim s ≡ s
unfolding trim
trim_tight s h =
    ap (λ x. reverse (skip_space (reverse x))) (skip_space-Tight s (no_space-Tight s h))
    ∙ ap reverse (
        skip_space-Tight (reverse s)
          (no_space-Tight (reverse s) (All-reverse (λ c. is_space c ≡ false) s h)))
    ∙ reverse-reverse s

pub trim-Spaces :
    (before s : Text) → Spaces before → All (λ c. is_space c ≡ false) s → trim (before ++ s) ≡ s
unfolding trim
trim-Spaces before s spaces h =
    ap (λ x. reverse (skip_space (reverse x)))
      (skip_space-append before s spaces (no_space-Tight s h)
        ∙ sym (skip_space-Tight s (no_space-Tight s h)))
    ∙ trim_tight s h
