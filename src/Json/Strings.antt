-- ===== src/Json/Strings.antt =====
-- A quoted string is read back, whatever its units are.
use plugin_rest_cache.Prelude.{
  ℕ, zero, suc, ◌+◌, ◌*◌, ◌/◌, ◌%◌, ◌<◌, ◌≡◌, refl, ap, ◌∙◌, [], ◌∷◌, ◌++◌, true, false, some, none,
  arith, inl, inr, Bool-cases, Option-cases, if◌then◌else◌, leb, Text, ◌&&◌, ◌||◌, ltb, ◌==◌, All,
}
use plugin_rest_cache.Json.{
  hex_digit, unicode_escape, short_escape, quote_unit, quote, is_high_surrogate, is_low_surrogate,
  is_surrogate,
}
use plugin_rest_cache.Json.Parse.{
  plain, hex, hex_value, unescape, push, string_from, is_num, number_from,
}

hex_value-hex_digit : (d : ℕ) → d < 16 → hex_value (hex_digit d) ≡ some d
unfolding hex_digit
hex_value-hex_digit d h = ground arith

string_from-digit :
    (n a d : ℕ) (k : Text)
    → d < 16
    → string_from (hex (suc n) a) (hex_digit d ∷ k) ≡ string_from (hex n (a * 16 + d)) k
unfolding string_from
string_from-digit n a d k h = rw (hex_value-hex_digit d h, string_from) refl

string_from-last_digit :
    (a d : ℕ) (k : Text)
    → d < 16
    → string_from (hex zero a) (hex_digit d ∷ k) ≡ push (a * 16 + d) (string_from plain k)
unfolding string_from
string_from-last_digit a d k h = rw (hex_value-hex_digit d h, string_from) refl

string_from-unicode_escape :
    (c : ℕ) (k : Text)
    → c < 65536
    → string_from plain (unicode_escape c k) ≡ push c (string_from plain k)
unfolding string_from
string_from-unicode_escape c k h =
    let a = 0 * 16 + c / 4096 % 16 in
    let a' = a * 16 + c / 256 % 16 in
    let a'' = a' * 16 + c / 16 % 16 in
    let tail = hex_digit (c % 16) ∷ k in
    let tail' = hex_digit (c / 16 % 16) ∷ tail in
    let value : a'' * 16 + c % 16 ≡ c = omega arith in
    string_from-digit 2 0 (c / 4096 % 16) (hex_digit (c / 256 % 16) ∷ tail') (omega arith)
    ∙ string_from-digit 1 a (c / 256 % 16) tail' (omega arith)
    ∙ string_from-digit 0 a' (c / 16 % 16) tail (omega arith)
    ∙ string_from-last_digit a'' (c % 16) k (omega arith)
    ∙ ap (λ x. push x (string_from plain k)) value

unescape-short_escape :
    (c e : ℕ) → short_escape c ≡ some e → (unescape e ≡ some c) × ((e == b'u') ≡ false)
unfolding short_escape unescape
unescape-short_escape c e h = ground arith

raw_unit :
    (c : ℕ) → short_escape c ≡ none → ltb c 32 ≡ false → ((c == 34) ≡ false) × ((c == 92) ≡ false)
unfolding short_escape
raw_unit c h low = ground arith

surrogate_bound : (c : ℕ) → (ltb c 32 || is_surrogate c) ≡ true → c < 65536
surrogate_bound c h = ground arith

string_from-short :
    (c e : ℕ) (k : Text)
    → short_escape c ≡ some e
    → string_from plain (b'\\' ∷ e ∷ k) ≡ push c (string_from plain k)
unfolding string_from
string_from-short c e k h =
    let (back, plain_letter) = unescape-short_escape c e h in rw (plain_letter, back, string_from)

string_from-raw :
    (c : ℕ) (k : Text)
    → (c == 34) ≡ false
    → (c == 92) ≡ false
    → ltb c 32 ≡ false
    → string_from plain (c ∷ k) ≡ push c (string_from plain k)
unfolding string_from
string_from-raw c k not_quote not_slash not_low = rw (not_quote, not_slash, not_low)

string_from-unescaped :
    (c : ℕ) (k : Text)
    → short_escape c ≡ none
    → string_from plain (if ltb c 32 || is_surrogate c then unicode_escape c k else c ∷ k)
      ≡ push c (string_from plain k)
string_from-unescaped c k h = elim (Bool-cases (ltb c 32 || is_surrogate c)) [
  | inl long ↦ rw long (string_from-unicode_escape c k (surrogate_bound c long))
  | inr raw ↦
      let low : ltb c 32 ≡ false = ground arith in
      let (not_quote, not_slash) = raw_unit c h low in
      rw raw (string_from-raw c k not_quote not_slash low)
]

-- A quoted unit is read as the unit.
string_from-quote_unit :
    (c : ℕ) (k : Text) → string_from plain (quote_unit c k) ≡ push c (string_from plain k)
unfolding quote_unit
string_from-quote_unit c k = elim (Option-cases (short_escape c)) [
  | inl long ↦ rw (long, quote_unit) (string_from-unescaped c k long)
  | inr (e, short) ↦ rw (short, quote_unit) (string_from-short c e k short)
]

surrogate_raw :
    (c : ℕ) (k : Text)
    → leb 0xd800 c ≡ true
    → string_from plain (c ∷ k) ≡ push c (string_from plain k)
surrogate_raw c k h = string_from-raw c k (ground arith) (ground arith) (ground arith)

-- The quoted text, up to its closing quote, is read as the text.
pub string_from-quote : (s k : Text) → string_from plain (quote s (34 ∷ k)) ≡ some (s, k)
unfolding quote string_from
string_from-quote [] k = refl
string_from-quote (c ∷ []) k = string_from-quote_unit c (34 ∷ k)
string_from-quote (c ∷ d ∷ s) k = elim (Bool-cases (is_high_surrogate c && is_low_surrogate d)) [
  | inl pair ↦ rw pair (
      surrogate_raw c _ (ground arith)
      ∙ ap (push c) (surrogate_raw d _ (ground arith))
      ∙ ap (λ r. push c (push d r)) (string_from-quote s k))
  | inr single ↦ rw single (string_from-quote_unit c _ ∙ ap (push c) (string_from-quote (d ∷ s) k))
]

-- A number token is read whole when no number unit follows it.
abbrev pub Stops : Text → Type 0
Stops [] = Unit
Stops (c ∷ k) = is_num c ≡ false

pub number_from-append :
    (t k : Text) → All (λ c. is_num c ≡ true) t → Stops k → number_from (t ++ k) ≡ (t, k)
unfolding number_from
number_from-append [] [] h stop = refl
number_from-append [] (c ∷ k) h stop = rw stop
number_from-append (c ∷ t) k (here, h) stop = rw (here, number_from-append t k h stop)
