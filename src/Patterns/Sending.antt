-- ===== src/Patterns/Sending.antt =====
-- packages/plugin-rest-cache/server/src/utils/config/getRouteRegExp.ts: the values that a pattern has one
-- spelling for, and the items that are printed for them.
use mathlib.Core.List.{append-nil}
use mathlib.Core.Path.{subst}
use plugin_rest_cache.Prelude.{
  ℕ, ◌<◌, ◌≡◌, refl, sym, ap, ◌≢◌, inl, inr, Bool, true, false, ◌&&◌, ◌||◌, not, List, [], ◌∷◌,
  ◌++◌, map, arith, ◌==◌, if◌then◌else◌, Bool-cases, if_false, length, length-append, All, Text,
  Free, Free-append,
}
use plugin_rest_cache.Patterns.Matcher.{Item, unit}
use plugin_rest_cache.Patterns.Values.{
  is_special, escape_reg_exp, is_path_literal, percent_bytes, percent_encode, is_sent_either_way,
  char_to_pattern, param_to_pattern,
}
use plugin_rest_cache.Json.{is_surrogate}
use plugin_rest_cache.Uri.Inject.{utf8_pos}
use plugin_rest_cache.Patterns.Spelling.{
  literal_item, IsEncoded, percent_encode-IsEncoded, Spelled, encoded-Spelled, literal-Spelled,
  Spelled-append,
}

-- A code point that every client writes alike in a path, and that does not end a segment.
abbrev pub IsSendable : ℕ → Type 0
IsSendable c =
    (c < 0x110000) × ((is_path_literal c || not (is_sent_either_way c)) ≡ true) × (c ≢ b'/')

-- How a client writes it: as it is, or percent-encoded.
unfoldable pub sent_char : ℕ → Text
unfolding percent_encode
sent_char c = if is_path_literal c then c ∷ [] else percent_encode c

unfoldable pub sent : List ℕ → Text
unfolding sent_char
sent [] = []
sent (c ∷ cs) = sent_char c ++ sent cs

unfoldable pub items_of_char : ℕ → List Item
items_of_char c = if is_path_literal c then literal_item c ∷ [] else map unit (percent_encode c)

literal_no_mark : (c : ℕ) → is_path_literal c ≡ true → c ≢ b'?'
unfolding is_path_literal
literal_no_mark c h e = absurd (ground arith)

either_form : (a b : Bool) → (a || not b) ≡ true → a ≡ false → b ≡ false
either_form a b h k = ground arith

char-Spelled : (c : ℕ) → IsSendable c → Spelled (char_to_pattern c) (items_of_char c) (sent_char c)
unfolding char_to_pattern items_of_char sent_char
char-Spelled c (h, k, apart) = elim (Bool-cases (is_path_literal c)) [
  | inl path_char ↦
      rw (path_char, char_to_pattern, items_of_char, sent_char)
        (literal-Spelled c (literal_no_mark c path_char))
  | inr other ↦
      rw (other, either_form _ _ k other, char_to_pattern, items_of_char, sent_char)
        (encoded-Spelled (percent_encode c) (percent_encode-IsEncoded c h))
]

unfoldable pub items_of_chars : List ℕ → List Item
unfolding items_of_char
items_of_chars [] = []
items_of_chars (c ∷ cs) = items_of_char c ++ items_of_chars cs

percent_no_literal : (c : ℕ) → IsSendable c → (c == b'%') ≡ false
unfolding is_path_literal is_sent_either_way
percent_no_literal c (h, k, apart) = ground arith

not_encoded : (c : ℕ) (b : Bool) → (c == b'%') ≡ false → (c == b'%' && b) ≡ false
not_encoded c b h = ap (λ x. x && b) h

param_to_pattern-cons :
    (c : ℕ) (cs : List ℕ)
    → IsSendable c
    → param_to_pattern (c ∷ cs) ≡ char_to_pattern c ++ param_to_pattern cs
unfolding param_to_pattern
param_to_pattern-cons c [] h = sym (append-nil (char_to_pattern c))
param_to_pattern-cons c (d ∷ []) h = refl
param_to_pattern-cons c (d ∷ e ∷ cs) h = if_false _ _ _ (not_encoded c _ (percent_no_literal c h))

pub chars-Spelled :
    (cs : List ℕ) → All IsSendable cs → Spelled (param_to_pattern cs) (items_of_chars cs) (sent cs)
unfolding items_of_chars sent param_to_pattern
chars-Spelled [] h = encoded-Spelled [] tt
chars-Spelled (c ∷ cs) (h, hs) =
    subst (λ p. Spelled p (items_of_char c ++ items_of_chars cs) (sent_char c ++ sent cs))
      (sym (param_to_pattern-cons c cs h))
      (Spelled-append (char_to_pattern c) (param_to_pattern cs) (items_of_char c)
        (items_of_chars cs) (sent_char c) (sent cs) (char-Spelled c h) (chars-Spelled cs hs))

percent_bytes-pos : (bs : List ℕ) → 0 < length bs → 0 < length (percent_bytes bs)
unfolding percent_bytes
percent_bytes-pos [] h = h
percent_bytes-pos (b ∷ bs) h = omega arith

escape_reg_exp-pos : (c : ℕ) → 0 < length (escape_reg_exp c)
unfolding escape_reg_exp
escape_reg_exp-pos c = elim (Bool-cases (is_special c)) [
  | inl syntax ↦ rw (syntax, escape_reg_exp) (omega arith)
  | inr plain ↦ rw (plain, escape_reg_exp) (omega arith)
]

char_to_pattern-pos : (c : ℕ) → IsSendable c → 0 < length (char_to_pattern c)
unfolding char_to_pattern percent_encode
char_to_pattern-pos c (h, k, apart) = elim (Bool-cases (is_path_literal c)) [
  | inl path_char ↦ rw (path_char, char_to_pattern) (escape_reg_exp-pos c)
  | inr other ↦
      rw (other, either_form _ _ k other, char_to_pattern)
        (percent_bytes-pos _ (utf8_pos (if is_surrogate c then 0xfffd else c)))
]

pub value_pattern-pos :
    (cs : List ℕ) → All IsSendable cs → 0 < length cs → 0 < length (param_to_pattern cs)
value_pattern-pos [] h k = absurd (omega arith)
value_pattern-pos (c ∷ cs) (h, hs) k =
    subst (λ p. 0 < length p) (sym (param_to_pattern-cons c cs h))
      (subst (λ n. 0 < n) (sym (length-append (char_to_pattern c) (param_to_pattern cs)))
        (omega (arith, char_to_pattern-pos c h)))

encoded-Free : (t : Text) → All IsEncoded t → Free b'/' t
encoded-Free [] h = tt
encoded-Free (c ∷ t) ((plain, low, slash, mark), h) = (slash, encoded-Free t h)

escape_reg_exp-Free : (c : ℕ) → c ≢ b'/' → Free b'/' (escape_reg_exp c)
unfolding escape_reg_exp
escape_reg_exp-Free c apart = elim (Bool-cases (is_special c)) [
  | inl syntax ↦ rw (syntax, escape_reg_exp) (λ e. absurd (omega arith), (apart, tt))
  | inr plain ↦ rw (plain, escape_reg_exp) (apart, tt)
]

char_to_pattern-Free : (c : ℕ) → IsSendable c → Free b'/' (char_to_pattern c)
unfolding char_to_pattern
char_to_pattern-Free c (h, k, apart) = elim (Bool-cases (is_path_literal c)) [
  | inl path_char ↦ rw (path_char, char_to_pattern) (escape_reg_exp-Free c apart)
  | inr other ↦
      rw (other, either_form _ _ k other, char_to_pattern)
        (encoded-Free (percent_encode c) (percent_encode-IsEncoded c h))
]

pub value_pattern-Free : (cs : List ℕ) → All IsSendable cs → Free b'/' (param_to_pattern cs)
unfolding param_to_pattern
value_pattern-Free [] h = tt
value_pattern-Free (c ∷ cs) (h, hs) = subst (Free b'/') (sym (param_to_pattern-cons c cs h)) (
    Free-append b'/' (char_to_pattern c) (param_to_pattern cs) (char_to_pattern-Free c h)
      (value_pattern-Free cs hs))
