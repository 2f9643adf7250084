-- ===== src/Json/Cost.antt =====
-- How many rounds the parser needs for a printed value, and that its length covers them.
use plugin_rest_cache.Prelude.{
  ℕ, ◌+◌, ◌*◌, ◌≤◌, ◌≢◌, [], ◌∷◌, true, false, ◌≡◌, refl, arith, Text, length, length-append, All,
}
use plugin_rest_cache.Json.{
  Json, null, bool, num, str, arr, obj, Items, nil, cons, Fields, end, field, quote_unit, quote,
  print, print_items, print_fields,
}
use plugin_rest_cache.Json.Parse.{is_num}

unfoldable mutual
  pub cost : Json → ℕ
  cost null = 1
  cost (bool b) = 1
  cost (num t) = 1
  cost (str s) = 1
  cost (arr nil) = 2
  cost (arr (cons v vs)) = 2 + cost v + cost_items vs
  cost (obj end) = 2
  cost (obj (field n v fs)) = 3 + cost v + cost_fields fs

  pub cost_items : Items → ℕ
  cost_items nil = 1
  cost_items (cons v vs) = 1 + cost v + cost_items vs

  pub cost_fields : Fields → ℕ
  cost_fields end = 1
  cost_fields (field n v fs) = 2 + cost v + cost_fields fs

pub cost_pos : (v : Json) → 1 ≤ cost v
unfolding cost
cost_pos (arr nil) = omega arith
cost_pos (arr (cons v vs)) = omega arith
cost_pos (obj end) = omega arith
cost_pos (obj (field n v fs)) = omega arith
cost_pos _ = omega arith

pub cost_items_pos : (vs : Items) → 1 ≤ cost_items vs
unfolding cost
cost_items_pos nil = omega arith
cost_items_pos (cons v vs) = omega arith

pub cost_fields_pos : (fs : Fields) → 1 ≤ cost_fields fs
unfolding cost
cost_fields_pos end = omega arith
cost_fields_pos (field n v fs) = omega arith

-- Every number in the value is a token that `JSON.stringify` can print.
abbrev mutual
  pub IsPrintable : Json → Type 0
  IsPrintable null = Unit
  IsPrintable (bool b) = Unit
  IsPrintable (num t) = (t ≢ []) × All (λ c. is_num c ≡ true) t
  IsPrintable (str s) = Unit
  IsPrintable (arr vs) = ArePrintable vs
  IsPrintable (obj fs) = ArePrintableFields fs

  pub ArePrintable : Items → Type 0
  ArePrintable nil = Unit
  ArePrintable (cons v vs) = IsPrintable v × ArePrintable vs

  pub ArePrintableFields : Fields → Type 0
  ArePrintableFields end = Unit
  ArePrintableFields (field n v fs) = IsPrintable v × ArePrintableFields fs

quote_unit-length : (c : ℕ) (k : Text) → length k ≤ length (quote_unit c k)
unfolding quote_unit
quote_unit-length c k = ground arith

quote-length : (s k : Text) → length k ≤ length (quote s k)
unfolding quote
quote-length [] k = omega arith
quote-length (c ∷ []) k = quote_unit-length c k
quote-length (c ∷ d ∷ s) k =
    ground (arith, quote-length s k, quote-length (d ∷ s) k, quote_unit-length c (quote (d ∷ s) k))

mutual
  unfolding print cost

  cost-print :
      (v : Json) (k : Text) → IsPrintable v → cost v + 3 * length k ≤ 3 * length (print v k)
  cost-print null k h = omega arith
  cost-print (bool true) k h = omega arith
  cost-print (bool false) k h = omega arith
  cost-print (num []) k h = absurd (h.0 refl)
  cost-print (num (c ∷ t)) k h = omega (arith, length-append t k)
  cost-print (str s) k h = omega (arith, quote-length s (34 ∷ k))
  cost-print (arr nil) k h = omega arith
  cost-print (arr (cons v vs)) k h =
      omega (arith, cost-print v (print_items vs k) h.0, cost_items-print vs k h.1)
  cost-print (obj end) k h = omega arith
  cost-print (obj (field n v fs)) k h = omega (
    arith,
    quote-length n (34 ∷ b':' ∷ print v (print_fields fs k)),
    cost-print v (print_fields fs k) h.0,
    cost_fields-print fs k h.1,
  )

  cost_items-print :
      (vs : Items) (k : Text)
      → ArePrintable vs
      → cost_items vs + 3 * length k ≤ 3 * length (print_items vs k)
  cost_items-print nil k h = omega arith
  cost_items-print (cons v vs) k h =
      omega (arith, cost-print v (print_items vs k) h.0, cost_items-print vs k h.1)

  cost_fields-print :
      (fs : Fields) (k : Text)
      → ArePrintableFields fs
      → cost_fields fs + 3 * length k ≤ 3 * length (print_fields fs k)
  cost_fields-print end k h = omega arith
  cost_fields-print (field n v fs) k h = omega (
    arith,
    quote-length n (34 ∷ b':' ∷ print v (print_fields fs k)),
    cost-print v (print_fields fs k) h.0,
    cost_fields-print fs k h.1,
  )

-- The length of the printed text pays for the rounds.
pub cost-le : (v : Json) → IsPrintable v → cost v ≤ 3 * length (print v [])
cost-le v h = omega (arith, cost-print v [] h)
