-- ===== src/Patterns/Parsed.antt =====
-- What the model of RegExp in Patterns/Matcher reads of a printed pattern.
use plugin_rest_cache.Prelude.{
  ℕ, ◌≡◌, refl, ap, ◌∙◌, true, false, Option, some, List, [], ◌∷◌, ◌++◌, arith, ◌==◌, ==_refl,
  if_true, if_false, All, Text, lit,
}
use plugin_rest_cache.Patterns.Values.{is_special}
use plugin_rest_cache.Patterns.Matcher.{
  Item, unit, escaped, segment, print_item, print, outside, in_group, is_escapable, with_item,
  parse_items, matches, reg_exp,
}
use plugin_rest_cache.Store.Log.{RegExp}

-- A literal is no syntax character, and what is escaped can be.
abbrev pub IsItem : Item → Type 0
IsItem (unit c) = is_special c ≡ false
IsItem (escaped c) = is_escapable c ≡ true
IsItem segment = Unit

in_group-body :
    (e : ℕ) (body s : Text)
    → parse_items (in_group (e ∷ body)) ((e ∷ body) ++ s)
      ≡ with_item segment (parse_items outside s)
unfolding parse_items
in_group-body e [] s = if_true (e == e) _ _ (==_refl e)
in_group-body e (d ∷ body) s = if_true (e == e) _ _ (==_refl e) ∙ in_group-body d body s

not_syntax : (c : ℕ) → is_special c ≡ false → ((c == b'\\') ≡ false) × ((c == b'(') ≡ false)
unfolding is_special
not_syntax c h = ground arith

parse_item :
    (i : Item) (s : Text)
    → IsItem i
    → parse_items outside (print_item i ++ s) ≡ with_item i (parse_items outside s)
unfolding parse_items print_item
parse_item (unit c) s h =
    let (a, b) = not_syntax c h in if_false _ _ _ a ∙ (if_false _ _ _ b ∙ if_false _ _ _ h)
parse_item (escaped c) s h = if_true (is_escapable c) _ _ h
parse_item segment s h = in_group-body b'[' (lit "^\\/#\\?]+)") s

pub parse_items-print :
    (items : List Item) → All IsItem items → parse_items outside (print items) ≡ some items
unfolding print parse_items
parse_items-print [] h = refl
parse_items-print (i ∷ items) (h, hs) =
    parse_item i (print items) h ∙ ap (with_item i) (parse_items-print items hs)

pub reg_exp-print :
    (other : Text → Option RegExp) (items : List Item)
    → All IsItem items
    → reg_exp other (b'^' ∷ print items) ≡ some (matches items)
unfolding reg_exp
reg_exp-print other items h = rw (parse_items-print items h, reg_exp) refl
