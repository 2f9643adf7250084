-- ===== src/Response/Refusals.antt =====
-- packages/plugin-rest-cache/server/src/utils/middlewares/isCacheable.ts: no refusal is missed.
use mathlib.Core.Path.{subst}
use plugin_rest_cache.Prelude.{
  ℕ, ◌≤◌, ◌≡◌, refl, sym, ◌↔◌, inl, inr, Bool, true, false, ◌||◌, some, [], ◌∷◌, ◌++◌, arith,
  ==_iff, ==_refl, Text, lit,
}
use plugin_rest_cache.Json.{Json}
use plugin_rest_cache.Context.{lower_unit, to_lower_case}
use plugin_rest_cache.Response.{Response}
use plugin_rest_cache.Response.Spaces.{is_space, skip_space, after_word}
use plugin_rest_cache.Response.Cacheable.{
  ends, word_ends, directive_at, directive_behind, forbids, is_cacheable, cacheable, IsShareable,
  shareable, accepted,
}
use plugin_rest_cache.Response.Directives.{
  Spaces, Directive, Forbidding, first, behind, forbids-Forbidding,
}

-- The text does not begin with a space.
abbrev pub Tight : Text → Type 0
Tight [] = Unit
Tight (c ∷ s) = is_space c ≡ false

pub skip_space-append : (before s : Text) → Spaces before → Tight s → skip_space (before ++ s) ≡ s
unfolding skip_space
skip_space-append [] [] h t = refl
skip_space-append [] (c ∷ s) h t = rw t refl
skip_space-append (b ∷ before) s (space, h) t = rw space (skip_space-append before s h t)

after_word-append : (word r : Text) → after_word (to_lower_case word) (word ++ r) ≡ some r
unfolding after_word to_lower_case
after_word-append [] r = refl
after_word-append (c ∷ word) r = rw (==_refl (lower_unit c)) (after_word-append word r)

ends-Tight : (rest : Text) → ends rest ≡ true → Tight rest
unfolding ends is_space
ends-Tight [] h = tt
ends-Tight (c ∷ rest) h = let e : c ≡ b',' = (==_iff c b',').0 h in rw e refl

letter_is_no_space : (c : ℕ) → 97 ≤ lower_unit c → lower_unit c ≤ 122 → is_space c ≡ false
unfolding lower_unit is_space
letter_is_no_space c h k = ground arith

-- A word with a letter in front.
abbrev Lettered : Text → Type 0
Lettered [] = ⊥
Lettered (c ∷ w) = (97 ≤ c) × (c ≤ 122)

Lettered-Tight : (word r : Text) → Lettered (to_lower_case word) → Tight (word ++ r)
unfolding to_lower_case
Lettered-Tight [] r h = absurd h
Lettered-Tight (c ∷ word) r (h, k) = letter_is_no_space c h k

word_ends-of :
    (w before word after rest : Text)
    → Spaces before
    → Spaces after
    → ends rest ≡ true
    → Lettered w
    → to_lower_case word ≡ w
    → word_ends w (skip_space (before ++ (word ++ (after ++ rest)))) ≡ true
unfolding word_ends
word_ends-of w before word after rest h k e l lower =
    let tight = Lettered-Tight word (after ++ rest) (subst Lettered (sym lower) l) in
    let found : after_word w (word ++ (after ++ rest)) ≡ some (after ++ rest) =
      subst (λ x. after_word x (word ++ (after ++ rest)) ≡ some (after ++ rest)) lower
        (after_word-append word (after ++ rest)) in
    rw (skip_space-append before (word ++ (after ++ rest)) h tight)
      (rw (found, word_ends) (rw (skip_space-append after rest k (ends-Tight rest e)) e))

or_left : (b c : Bool) → b ≡ true → (b || c) ≡ true
or_left b c h = ground arith

or_right : (b c : Bool) → c ≡ true → (b || c) ≡ true
or_right b c h = ground arith

Directive-directive_at : (s : Text) → Directive s → directive_at s ≡ true
unfolding directive_at
Directive-directive_at s d = rw d.parts (elim d.named [
  | inl e ↦ or_left _ _ (
      word_ends-of (lit "no-store") d.before d.word d.after d.rest d.spaces.0 d.spaces.1 d.stops
        (omega arith) e)
  | inr e ↦ or_right _ _ (
      word_ends-of (lit "private") d.before d.word d.after d.rest d.spaces.0 d.spaces.1 d.stops
        (omega arith) e)
])

directive_behind-of :
    (front tail : Text) → directive_at tail ≡ true → directive_behind (front ++ b',' ∷ tail) ≡ true
unfolding directive_behind
directive_behind-of [] tail h = rw h refl
directive_behind-of (c ∷ front) tail h = or_right _ _ (directive_behind-of front tail h)

Forbidding-forbids : (s : Text) → Forbidding s → forbids s ≡ true
unfolding forbids
Forbidding-forbids s (first d) = or_left _ _ (Directive-directive_at s d)
Forbidding-forbids s (behind front tail parts d) =
    or_right (directive_at s) (directive_behind s)
      (rw parts (directive_behind-of front tail (Directive-directive_at tail d)))

-- The test of Cache-Control holds exactly if the header is a directive no-store or private in any
-- case, with spaces around it, between commas or the ends.
pub forbids_iff : (s : Text) → (forbids s ≡ true) ↔ Forbidding s
forbids_iff s = (forbids-Forbidding s, Forbidding-forbids s)

-- isCacheable accepts exactly the responses that the handler left to Koa, with a status from 200 to
-- 300, 300 included, a truthy JSON body, no Set-Cookie and no Cache-Control that forbids it.
pub is_cacheable_iff :
    (ctx : Response) → (is_cacheable ctx ≡ cacheable) ↔ ((v : Json) × IsShareable ctx v)
is_cacheable_iff ctx = (shareable ctx, λ (v, s). accepted ctx v s)
