-- ===== src/Patterns/Spelling.antt =====
-- packages/plugin-rest-cache/server/src/utils/config/getRouteRegExp.ts: texts
-- that are printed from literal items, and the paths that they stand for.
use mathlib.Core.List.{append_assoc}
use mathlib.Core.Path.{ap₂, subst}
use plugin_rest_cache.Prelude.{
  ℕ, ◌/◌, ◌%◌, ◌≤◌, ◌<◌, ◌≡◌, refl, sym, ap, ◌∙◌, ◌≢◌, ◌⊎◌, inl, inr, Bool, true, false, ◌&&◌, ◌||◌,
  not, List, [], ◌∷◌, ◌++◌, map, arith, ltb, ◌==◌, if◌then◌else◌, Bool-cases, if_true, All,
  All-append, Text, Free, Free-append,
}
use plugin_rest_cache.Context.{to_lower_case, lower_unit}
use plugin_rest_cache.Patterns.{lower_case_pattern}
use plugin_rest_cache.Patterns.Matcher.{
  Item, unit, escaped, segment, print_item, print, is_escapable,
}
use plugin_rest_cache.Patterns.Parsed.{IsItem}
use plugin_rest_cache.Patterns.Pieces.{is_line_end}
use plugin_rest_cache.Patterns.Lowered.{lower_case_pattern-cons, lower_plain}
use plugin_rest_cache.Patterns.Values.{
  is_special, escape_reg_exp, lower_hex_digit, percent_bytes, percent_encode,
}
use plugin_rest_cache.Json.{is_surrogate}
use plugin_rest_cache.Uri.Inject.{AreBytes, utf8-bytes}

abbrev pub literal_item : ℕ → Item
literal_item c = if is_special c then escaped c else unit (lower_unit c)

abbrev pub IsLiteral : Item → Type 0
IsLiteral (unit c) = Unit
IsLiteral (escaped c) = Unit
IsLiteral segment = ⊥

abbrev pub literal_of : Item → ℕ
literal_of (unit c) = c
literal_of (escaped c) = c
literal_of segment = 0

-- A unit of a percent-encoding.
abbrev pub IsEncoded : ℕ → Type 0
IsEncoded c = (is_special c ≡ false) × (lower_unit c ≡ c) × (c ≢ b'/') × (c ≢ b'?')

pub digit_range :
    (d : ℕ)
    → d < 16
    → ((b'0' ≤ lower_hex_digit d) × (lower_hex_digit d ≤ b'9'))
      ⊎ ((b'a' ≤ lower_hex_digit d) × (lower_hex_digit d ≤ b'f'))
unfolding lower_hex_digit
digit_range d h = elim (Bool-cases (ltb d 10)) [
  | inl small ↦ inl (ground arith)
  | inr large ↦ inr (ground arith)
]

pub range-IsEncoded : (c : ℕ) → ((b'0' ≤ c) × (c ≤ b'9')) ⊎ ((b'a' ≤ c) × (c ≤ b'f')) → IsEncoded c
unfolding is_special lower_unit
range-IsEncoded c (inl (h, k)) =
    (ground arith, ground arith, λ e. absurd (omega arith), λ e. absurd (omega arith))
range-IsEncoded c (inr (h, k)) =
    (ground arith, ground arith, λ e. absurd (omega arith), λ e. absurd (omega arith))

pub percent-IsEncoded : IsEncoded b'%'
unfolding is_special lower_unit
percent-IsEncoded = (refl, refl, λ e. absurd (omega arith), λ e. absurd (omega arith))

pub percent_bytes-IsEncoded : (bs : List ℕ) → AreBytes bs → All IsEncoded (percent_bytes bs)
unfolding percent_bytes
percent_bytes-IsEncoded [] h = tt
percent_bytes-IsEncoded (b ∷ bs) (h, hs) = (
  percent-IsEncoded,
  (
    range-IsEncoded _ (digit_range (b / 16) (omega arith)),
    (range-IsEncoded _ (digit_range (b % 16) (omega arith)), percent_bytes-IsEncoded bs hs),
  ),
)

pub replaced_bound : (b : Bool) (c : ℕ) → c < 0x110000 → (if b then 0xfffd else c) < 0x110000
replaced_bound b c h = ground arith

pub percent_encode-IsEncoded : (c : ℕ) → c < 0x110000 → All IsEncoded (percent_encode c)
unfolding percent_encode
percent_encode-IsEncoded c h =
    percent_bytes-IsEncoded _ (utf8-bytes _ (replaced_bound (is_surrogate c) c h))

-- What the items of a text say about the text.
pub record Spelled (pattern : Text) (items : List Item) (path : Text) : Type 0 where
  pub lowered : (s : Text) → lower_case_pattern (pattern ++ s) ≡ print items ++ lower_case_pattern s
  pub are_items : All IsItem items
  pub are_literal : All IsLiteral items
  pub same : map literal_of items ≡ to_lower_case path
  pub no_mark : Free b'?' (to_lower_case path)

pub encoded-Spelled : (t : Text) → All IsEncoded t → Spelled t (map unit t) t
unfolding to_lower_case print print_item lower_case_pattern
encoded-Spelled [] h = record {
  lowered = λ s. refl;
  are_items = tt;
  are_literal = tt;
  same = refl;
  no_mark = tt;
}
encoded-Spelled (c ∷ t) ((plain, low, slash, mark), h) =
    let rest = encoded-Spelled t h in
    record {
      lowered = λ s. lower_case_pattern-cons c (t ++ s) plain ∙ ap₂ ◌∷◌ low (rest.lowered s);
      are_items = (plain, rest.are_items);
      are_literal = (tt, rest.are_literal);
      same = ap₂ ◌∷◌ (sym low) rest.same;
      no_mark = (λ e. mark (sym low ∙ e), rest.no_mark);
    }

pub no_line_end : (c : ℕ) → is_special c ≡ true → (b'\\' == b'\\' && not (is_line_end c)) ≡ true
unfolding is_special is_line_end
no_line_end c h = ground arith

pub special_low : (c : ℕ) → is_special c ≡ true → lower_unit c ≡ c
unfolding is_special lower_unit
special_low c h = ground arith

pub mark_special : is_special b'?' ≡ true
unfolding is_special
mark_special = refl

pub special-Spelled :
    (c : ℕ) → is_special c ≡ true → c ≢ b'?' → Spelled (b'\\' ∷ c ∷ []) (escaped c ∷ []) (c ∷ [])
unfolding to_lower_case print print_item lower_case_pattern is_escapable
special-Spelled c h mark =
    let low = special_low c h in
    record {
      lowered = λ s. if_true _ _ _ (no_line_end c h);
      are_items = (ap (λ b. b || c == b'/') h, tt);
      are_literal = (tt, tt);
      same = ap (λ x. x ∷ []) (sym low);
      no_mark = (λ e. mark (sym low ∙ e), tt);
    }

pub plain-Spelled :
    (c : ℕ) → is_special c ≡ false → Spelled (c ∷ []) (unit (lower_unit c) ∷ []) (c ∷ [])
unfolding to_lower_case print print_item lower_case_pattern
plain-Spelled c plain = record {
  lowered = λ s. lower_case_pattern-cons c s plain;
  are_items = (lower_plain c plain, tt);
  are_literal = (tt, tt);
  same = refl;
  no_mark = (λ e. cc (lower_plain c plain, mark_special, e), tt);
}

pub literal-Spelled : (c : ℕ) → c ≢ b'?' → Spelled (escape_reg_exp c) (literal_item c ∷ []) (c ∷ [])
unfolding escape_reg_exp
literal-Spelled c mark = elim (Bool-cases (is_special c)) [
  | inl syntax ↦ rw (syntax, escape_reg_exp) (special-Spelled c syntax mark)
  | inr plain ↦ rw (plain, escape_reg_exp) (plain-Spelled c plain)
]

pub print-append : (is js : List Item) → print (is ++ js) ≡ print is ++ print js
unfolding print
print-append [] js = refl
print-append (i ∷ is) js =
    ap (λ t. print_item i ++ t) (print-append is js)
    ∙ sym (append_assoc (print_item i) (print is) (print js))

pub to_lower_case-append :
    (s t : Text) → to_lower_case (s ++ t) ≡ to_lower_case s ++ to_lower_case t
unfolding to_lower_case
to_lower_case-append [] t = refl
to_lower_case-append (c ∷ s) t = ap (◌∷◌ (lower_unit c)) (to_lower_case-append s t)

pub map-append_items :
    (is js : List Item) → map literal_of (is ++ js) ≡ map literal_of is ++ map literal_of js
map-append_items [] js = refl
map-append_items (i ∷ is) js = ap (◌∷◌ (literal_of i)) (map-append_items is js)

pub Spelled-append :
    (p q : Text) (is js : List Item) (s t : Text)
    → Spelled p is s
    → Spelled q js t
    → Spelled (p ++ q) (is ++ js) (s ++ t)
Spelled-append p q is js s t a b = record {
  lowered = λ u.
      ap lower_case_pattern (append_assoc p q u)
      ∙ (a.lowered (q ++ u)
          ∙ (ap (λ x. print is ++ x) (b.lowered u)
              ∙ (sym (append_assoc (print is) (print js) (lower_case_pattern u))
                  ∙ ap (λ x. x ++ lower_case_pattern u) (sym (print-append is js)))));
  are_items = All-append IsItem is js a.are_items b.are_items;
  are_literal = All-append IsLiteral is js a.are_literal b.are_literal;
  same = map-append_items is js ∙ (ap₂ ◌++◌ a.same b.same ∙ sym (to_lower_case-append s t));
  no_mark =
      subst (Free b'?') (sym (to_lower_case-append s t))
        (Free-append b'?' (to_lower_case s) (to_lower_case t) a.no_mark b.no_mark);
}
