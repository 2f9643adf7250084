-- ===== src/Response/Spaces.antt =====
-- The parts of JavaScript's text handling that the response code uses: white space, trimming, words.
use mathlib.Core.List.{reverse}
use plugin_rest_cache.Prelude.{
  ℕ, Bool, ◌&&◌, ◌||◌, Option, none, some, List, [], ◌∷◌, leb, ◌==◌, if◌then◌else◌, Text,
}
use plugin_rest_cache.Context.{lower_unit}

-- `\s`
unfoldable pub is_space : ℕ → Bool
is_space c =
    (leb 9 c && leb c 13)
    || (c == 32 || c == 0xa0 || c == 0x1680 || (leb 0x2000 c && leb c 0x200a) || c == 0x2028)
    || (c == 0x2029 || c == 0x202f || c == 0x205f || c == 0x3000 || c == 0xfeff)

-- The text behind `\s*`.
unfoldable pub skip_space : Text → Text
unfolding is_space
skip_space [] = []
skip_space (c ∷ s) = if is_space c then skip_space s else c ∷ s

-- `s.trim()`
unfoldable pub trim : Text → Text
unfolding skip_space
trim s = reverse (skip_space (reverse (skip_space s)))

-- The text behind a word, whatever its case.
unfoldable pub after_word : Text → Text → Option Text
unfolding lower_unit
after_word [] s = some s
after_word (a ∷ word) [] = none
after_word (a ∷ word) (c ∷ s) = if a == lower_unit c then after_word word s else none

-- The first part of `s.split(c)`, and the other parts.
unfoldable pub split : ℕ → Text → Text × List Text
split c [] = ([], [])
split c (a ∷ s) =
    let (part, parts) = split c s in if a == c then ([], part ∷ parts) else (a ∷ part, parts)
