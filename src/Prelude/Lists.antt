-- ===== src/Prelude/Lists.antt =====
-- Lists measured by native numbers and searched by Boolean tests.
use Prim.Native.Nat.{ℕ, zero, suc, ◌+◌, ◌≤◌}
use mathlib.Core.Path.{◌≡◌, refl, ap}
use mathlib.Core.Logic.{◌⊎◌, inl, inr}
use mathlib.Core.Bool.{Bool, true, false, ◌&&◌, ◌||◌}
use mathlib.Core.List.{List, [], ◌∷◌, ◌++◌, Memᴰ, map}
use mathlib.Core.Option.{Option, none, some}
use native.Mathlib.Omega.{arith}
use plugin_rest_cache.Prelude.Tests.{if◌then◌else◌, Bool-cases}

module _ {ℓ} {A : Type ℓ} where
  abbrev pub length : List A → ℕ
  length [] = 0
  length (x ∷ xs) = suc (length xs)

  abbrev pub take : ℕ → List A → List A
  take zero xs = []
  take (suc n) [] = []
  take (suc n) (x ∷ xs) = x ∷ take n xs

  abbrev pub drop : ℕ → List A → List A
  drop zero xs = xs
  drop (suc n) [] = []
  drop (suc n) (x ∷ xs) = drop n xs

  -- `a.some(p)` of an array.
  abbrev pub any : (A → Bool) → List A → Bool
  any p [] = false
  any p (x ∷ xs) = p x || any p xs

  -- `a.every(p)` of an array.
  abbrev pub every : (A → Bool) → List A → Bool
  every p [] = true
  every p (x ∷ xs) = p x && every p xs

  -- `a.filter(p)` of an array.
  abbrev pub filter : (A → Bool) → List A → List A
  filter p [] = []
  filter p (x ∷ xs) = if p x then x ∷ filter p xs else filter p xs

  -- `a.find(p)` of an array.
  abbrev pub find : (A → Bool) → List A → Option A
  find p [] = none
  find p (x ∷ xs) = if p x then some x else find p xs

  pub length-append : (xs ys : List A) → length (xs ++ ys) ≡ length xs + length ys
  length-append [] ys = omega arith
  length-append (x ∷ xs) ys = omega (arith, length-append xs ys)

  pub take-append-drop : (n : ℕ) (xs : List A) → take n xs ++ drop n xs ≡ xs
  take-append-drop zero xs = refl
  take-append-drop (suc n) [] = refl
  take-append-drop (suc n) (x ∷ xs) = ap (◌∷◌ x) (take-append-drop n xs)

  pub filter-le : (p : A → Bool) (xs : List A) → length (filter p xs) ≤ length xs
  filter-le p [] = omega arith
  filter-le p (x ∷ xs) = ground (arith, filter-le p xs)

  pub any-append : (p : A → Bool) (xs ys : List A) → any p (xs ++ ys) ≡ (any p xs || any p ys)
  any-append p [] ys = refl
  any-append p (x ∷ xs) ys = ground (arith, any-append p xs ys)

  pub any-of_Mem : (p : A → Bool) (a : A) (xs : List A) → Memᴰ a xs → p a ≡ true → any p xs ≡ true
  any-of_Mem p a [] m h = elim m [ ]
  any-of_Mem p a (x ∷ xs) (Memᴰ.head e) h = ground (arith, ap p e)
  any-of_Mem p a (x ∷ xs) (Memᴰ.tail m) h = ground (arith, any-of_Mem p a xs m h)

  pub Mem-of_any :
      (p : A → Bool) (xs : List A) → any p xs ≡ true → (a : A) × Memᴰ a xs × (p a ≡ true)
  Mem-of_any p [] h = cc
  Mem-of_any p (x ∷ xs) h = elim (Bool-cases (p x)) [
    | inl here ↦ (x, Memᴰ.head refl, here)
    | inr other ↦ let (a, m, q) = Mem-of_any p xs (ground arith) in (a, Memᴰ.tail m, q)
  ]

  pub Mem-filter :
      (p : A → Bool) (a : A) (xs : List A) → Memᴰ a xs → p a ≡ true → Memᴰ a (filter p xs)
  Mem-filter p a [] m h = elim m [ ]
  Mem-filter p a (x ∷ xs) (Memᴰ.head e) h = rw (← e, h, filter) (Memᴰ.head refl)
  Mem-filter p a (x ∷ xs) (Memᴰ.tail m) h = elim (Bool-cases (p x)) [
    | inl kept ↦ rw kept (Memᴰ.tail (Mem-filter p a xs m h))
    | inr gone ↦ rw gone (Mem-filter p a xs m h)
  ]

  Mem-of_kept :
      (p : A → Bool) (a x : A) (xs : List A)
      → (Memᴰ a (filter p xs) → Memᴰ a xs × (p a ≡ true))
      → p x ≡ true
      → Memᴰ a (x ∷ filter p xs)
      → Memᴰ a (x ∷ xs) × (p a ≡ true)
  Mem-of_kept p a x xs ih kept (Memᴰ.head e) = (Memᴰ.head e, rw e kept)
  Mem-of_kept p a x xs ih kept (Memᴰ.tail m) = (Memᴰ.tail (ih m).0, (ih m).1)

  pub Mem-of_filter :
      (p : A → Bool) (a : A) (xs : List A) → Memᴰ a (filter p xs) → Memᴰ a xs × (p a ≡ true)
  Mem-of_filter p a [] m = elim m [ ]
  Mem-of_filter p a (x ∷ xs) m = elim (Bool-cases (p x)) [
    | inl kept ↦ Mem-of_kept p a x xs (Mem-of_filter p a xs) kept (rw kept at m)
    | inr gone ↦ let (m', h) = Mem-of_filter p a xs (rw gone at m) in (Memᴰ.tail m', h)
  ]

module _ {ℓ κ} {A : Type ℓ} where
  -- A property of every element, computed to a tuple.
  abbrev pub All : (A → Type κ) → List A → Type κ
  All P [] = Unit
  All P (x ∷ xs) = P x × All P xs

  pub All-append : (P : A → Type κ) (xs ys : List A) → All P xs → All P ys → All P (xs ++ ys)
  All-append P [] ys h k = k
  All-append P (x ∷ xs) ys (p, h) k = (p, All-append P xs ys h k)

  pub All-of_Mem : (P : A → Type κ) (xs : List A) → ((a : A) → Memᴰ a xs → P a) → All P xs
  All-of_Mem P [] f = tt
  All-of_Mem P (x ∷ xs) f = (f x (Memᴰ.head refl), All-of_Mem P xs (λ a m. f a (Memᴰ.tail m)))

  pub All-filter : (P : A → Type κ) (p : A → Bool) (xs : List A) → All P xs → All P (filter p xs)
  All-filter P p [] h = tt
  All-filter P p (x ∷ xs) (here, h) = elim (Bool-cases (p x)) [
    | inl kept ↦ rw kept (here, All-filter P p xs h)
    | inr gone ↦ rw gone (All-filter P p xs h)
  ]

pub Mem-map {ℓ κ} :
    {A : Type ℓ} {B : Type κ} (f : A → B) (a : A) (xs : List A) → Memᴰ a xs → Memᴰ (f a) (map f xs)
Mem-map f a [] m = elim m [ ]
Mem-map f a (x ∷ xs) (Memᴰ.head e) = Memᴰ.head (ap f e)
Mem-map f a (x ∷ xs) (Memᴰ.tail m) = Memᴰ.tail (Mem-map f a xs m)

pub Mem-of_map {ℓ κ} :
    {A : Type ℓ} {B : Type κ} (f : A → B) (b : B) (xs : List A)
    → Memᴰ b (map f xs)
    → (a : A) × Memᴰ a xs × (b ≡ f a)
Mem-of_map f b [] m = elim m [ ]
Mem-of_map f b (x ∷ xs) (Memᴰ.head e) = (x, Memᴰ.head refl, e)
Mem-of_map f b (x ∷ xs) (Memᴰ.tail m) = let (a, m', e) = Mem-of_map f b xs m in (a, Memᴰ.tail m', e)

pub nowhere {ℓ} : {A : Type ℓ} {a : A} → Memᴰ a [] → ⊥
nowhere m = elim m [ ]

pub Mem-left {ℓ} : {A : Type ℓ} (a : A) (xs ys : List A) → Memᴰ a xs → Memᴰ a (xs ++ ys)
Mem-left a [] ys m = elim m [ ]
Mem-left a (x ∷ xs) ys (Memᴰ.head e) = Memᴰ.head e
Mem-left a (x ∷ xs) ys (Memᴰ.tail m) = Memᴰ.tail (Mem-left a xs ys m)

pub Mem-right {ℓ} : {A : Type ℓ} (a : A) (xs ys : List A) → Memᴰ a ys → Memᴰ a (xs ++ ys)
Mem-right a [] ys m = m
Mem-right a (x ∷ xs) ys m = Memᴰ.tail (Mem-right a xs ys m)

pub Mem-append_cases {ℓ} :
    {A : Type ℓ} (a : A) (xs ys : List A) → Memᴰ a (xs ++ ys) → Memᴰ a xs ⊎ Memᴰ a ys
Mem-append_cases a [] ys m = inr m
Mem-append_cases a (x ∷ xs) ys (Memᴰ.head e) = inl (Memᴰ.head e)
Mem-append_cases a (x ∷ xs) ys (Memᴰ.tail m) = elim (Mem-append_cases a xs ys m) [
  | inl l ↦ inl (Memᴰ.tail l)
  | inr r ↦ inr r
]
