-- ===== src/Prelude/Strings.antt =====
-- JavaScript strings as lists of UTF-16 code units, with the operations that the sources use.
use Prim.Native.Char.{code}
use Prim.Native.Nat.{ℕ}
use Prim.Native.String.{String}
use mathlib.Core.Path.{◌≡◌, refl, ap₂, sym}
use mathlib.Core.Logic.{◌↔◌, ◌≢◌, inl, inr}
use mathlib.Core.Bool.{Bool, true, false, ◌&&◌, not}
use mathlib.Core.List.{List, [], ◌∷◌, ◌++◌}
use native.Mathlib.Omega.{arith}
use plugin_rest_cache.Prelude.Tests.{◌==◌, ==_iff, and_parts, Bool-cases}
use plugin_rest_cache.Prelude.Lists.{All, length, drop, every, All-append}

abbrev pub Text : Type 0
Text = List ℕ

-- The code units of an ASCII literal.
abbrev pub lit : String → Text
lit String.[] = []
lit (String.◌∷◌ c s) = code c ∷ lit s

-- `a === b`.
unfoldable pub text_eq : Text → Text → Bool
text_eq [] [] = true
text_eq [] (_ ∷ _) = false
text_eq (_ ∷ _) [] = false
text_eq (a ∷ s) (b ∷ t) = a == b && text_eq s t

pub text_eq_sound : (s t : Text) → text_eq s t ≡ true → s ≡ t
unfolding text_eq
text_eq_sound [] [] h = refl
text_eq_sound [] (b ∷ t) h = cc
text_eq_sound (a ∷ s) [] h = cc
text_eq_sound (a ∷ s) (b ∷ t) h =
    let (here, later) = and_parts (a == b) (text_eq s t) h in
    ap₂ ◌∷◌ ((==_iff a b).0 here) (text_eq_sound s t later)

pub text_eq_refl : (s : Text) → text_eq s s ≡ true
unfolding text_eq
text_eq_refl [] = refl
text_eq_refl (a ∷ s) = ground (arith, text_eq_refl s)

pub text_eq_iff : (s t : Text) → (text_eq s t ≡ true) ↔ (s ≡ t)
text_eq_iff s t = (text_eq_sound s t, λ e. rw e (text_eq_refl t))

pub text_eq-false : (s t : Text) → s ≢ t → text_eq s t ≡ false
text_eq-false s t h = elim (Bool-cases (text_eq s t)) [
  | inl same ↦ absurd (h (text_eq_sound s t same))
  | inr other ↦ other
]

-- `s.startsWith(p)`.
unfoldable pub starts_with : Text → Text → Bool
starts_with s [] = true
starts_with [] (_ ∷ _) = false
starts_with (a ∷ s) (b ∷ p) = a == b && starts_with s p

-- A text begins with a prefix exactly when the rest behind it completes it.
pub starts_with-append : (p s : Text) → starts_with (p ++ s) p ≡ true
unfolding starts_with
starts_with-append [] s = refl
starts_with-append (a ∷ p) s = ground (arith, starts_with-append p s)

pub append-drop_of_starts_with : (p s : Text) → starts_with s p ≡ true → p ++ drop (length p) s ≡ s
unfolding starts_with
append-drop_of_starts_with [] s h = refl
append-drop_of_starts_with (b ∷ p) [] h = cc
append-drop_of_starts_with (b ∷ p) (a ∷ s) h =
    let (here, later) = and_parts (a == b) (starts_with s p) h in
    ap₂ ◌∷◌ (sym ((==_iff a b).0 here)) (append-drop_of_starts_with p s later)

pub drop-append : (p s : Text) → drop (length p) (p ++ s) ≡ s
drop-append [] s = refl
drop-append (a ∷ p) s = drop-append p s

-- No unit of the text is `c`.
abbrev pub Free : ℕ → Text → Type 0
Free c = All (λ x. x ≢ c)

pub Free-append : (c : ℕ) (s t : Text) → Free c s → Free c t → Free c (s ++ t)
Free-append c = All-append (λ x. x ≢ c)

pub Free-of_every : (c : ℕ) (s : Text) → every (λ x. not (x == c)) s ≡ true → Free c s
Free-of_every c [] h = tt
Free-of_every c (x ∷ s) h =
    let (here, later) = and_parts (not (x == c)) (every (λ x'. not (x' == c)) s) h in
    (λ e. cc (here, (==_iff x c).1 e), Free-of_every c s later)

-- A text splits at its first separator in one way only.
pub cut_unique :
    (c : ℕ) (a a' b b' : Text)
    → Free c a
    → Free c a'
    → a ++ c ∷ b ≡ a' ++ c ∷ b'
    → (a ≡ a') × (b ≡ b')
cut_unique c [] [] b b' h h' e = (refl, cc)
cut_unique c [] (x ∷ a') b b' h (n, h') e = absurd (n (cc))
cut_unique c (x ∷ a) [] b b' (n, h) h' e = absurd (n (cc))
cut_unique c (x ∷ a) (y ∷ a') b b' (n, h) (n', h') e =
    let (same, rest) = cut_unique c a a' b b' h h' (cc) in (ap₂ ◌∷◌ (cc) same, rest)

-- Two texts with one prefix have equal rests.
pub append_cancel : (p s t : Text) → p ++ s ≡ p ++ t → s ≡ t
append_cancel [] s t e = e
append_cancel (a ∷ p) s t e = append_cancel p s t (cc)
