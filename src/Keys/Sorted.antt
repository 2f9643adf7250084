-- ===== src/Keys/Sorted.antt =====
-- packages/plugin-rest-cache/server/src/types/CacheKeysConfig.ts: sorting what is sorted.
use plugin_rest_cache.Prelude.{
  ℕ, ◌≡◌, refl, inl, inr, Bool, true, false, ◌&&◌, ◌||◌, List, [], ◌∷◌, arith, ltb, ◌==◌,
  Bool-cases, Text,
}
use plugin_rest_cache.Keys.Config.{text_le, insert, sort}

-- Each text is before the next one.
IsSorted : List Text → Type 0
IsSorted [] = Unit
IsSorted (s ∷ []) = Unit
IsSorted (s ∷ t ∷ ts) = (text_le s t ≡ true) × IsSorted (t ∷ ts)

units_total :
    (a b : ℕ) (x y : Bool)
    → (ltb a b || (a == b && x)) ≡ false
    → (x ≡ false → y ≡ true)
    → (ltb b a || (b == a && y)) ≡ true
units_total a b true y h t = ground arith
units_total a b false true h t = ground arith
units_total a b false false h t = ground (arith, t refl)

text_le-total : (s t : Text) → text_le s t ≡ false → text_le t s ≡ true
unfolding text_le
text_le-total [] t h = cc
text_le-total (a ∷ s) [] h = refl
text_le-total (a ∷ s) (b ∷ t) h = units_total a b (text_le s t) (text_le t s) h (text_le-total s t)

insert-behind :
    (s t : Text) (ts : List Text)
    → text_le t s ≡ true
    → IsSorted (t ∷ ts)
    → IsSorted (t ∷ insert s ts)
unfolding IsSorted insert
insert-behind s t [] h sorted = (h, tt)
insert-behind s t (u ∷ ts) h (first, rest) = elim (Bool-cases (text_le s u)) [
  | inl before ↦ rw before (h, (before, rest))
  | inr behind ↦ rw behind (first, insert-behind s u ts (text_le-total s u behind) rest)
]

insert-IsSorted : (s : Text) (ts : List Text) → IsSorted ts → IsSorted (insert s ts)
unfolding IsSorted insert
insert-IsSorted s [] sorted = tt
insert-IsSorted s (t ∷ ts) sorted = elim (Bool-cases (text_le s t)) [
  | inl before ↦ rw before (before, sorted)
  | inr behind ↦ rw behind (insert-behind s t ts (text_le-total s t behind) sorted)
]

sort-IsSorted : (ts : List Text) → IsSorted (sort ts)
unfolding IsSorted sort
sort-IsSorted [] = tt
sort-IsSorted (t ∷ ts) = insert-IsSorted t (sort ts) (sort-IsSorted ts)

sort-sorted : (ts : List Text) → IsSorted ts → sort ts ≡ ts
unfolding IsSorted sort insert
sort-sorted [] h = refl
sort-sorted (s ∷ []) h = refl
sort-sorted (s ∷ t ∷ ts) (before, rest) = rw (sort-sorted (t ∷ ts) rest) (rw before refl)

pub sort-sort : (ts : List Text) → sort (sort ts) ≡ sort ts
sort-sort ts = sort-sorted (sort ts) (sort-IsSorted ts)
