-- ===== src/Json/RoundTrip.antt =====
-- `JSON.parse` after `JSON.stringify`.
use plugin_rest_cache.Prelude.{
  ℕ, zero, suc, ◌≤◌, ◌≡◌, refl, ap, ◌∙◌, [], ◌∷◌, ◌++◌, true, false, some, arith, Text, lit, ◌==◌,
  starts_with,
}
use plugin_rest_cache.Json.{
  Json, null, bool, num, str, arr, obj, Items, nil, cons, Fields, end, field, quote, print,
  print_items, print_fields, stringify,
}
use plugin_rest_cache.Json.Parse.{
  ◌>>=◌, is_num, num_of, number_from, scalar_from, parse_value, parse_array, parse_items,
  parse_field, parse_fields, parse, whole,
}
use plugin_rest_cache.Json.Strings.{string_from-quote, Stops, number_from-append}
use plugin_rest_cache.Json.Cost.{
  cost, cost_items, cost_fields, cost_pos, cost_items_pos, cost_fields_pos, IsPrintable,
  ArePrintable, ArePrintableFields, cost-le,
}

-- A number token starts no word.
not_word : (c w : ℕ) → is_num c ≡ true → is_num w ≡ false → (c == w) ≡ false
not_word c w h g = ground arith

scalar_from-num :
    (c : ℕ) (t k : Text)
    → is_num c ≡ true
    → number_from (c ∷ t ++ k) ≡ (c ∷ t, k)
    → scalar_from (c ∷ t ++ k) ≡ some (num (c ∷ t), k)
unfolding scalar_from starts_with
scalar_from-num c t k h e =
    rw
      (
        not_word c b'n' h (ground arith),
        not_word c b't' h (ground arith),
        not_word c b'f' h (ground arith),
      )
      (ap num_of e)

scalar_words :
    (k : Text)
    → (scalar_from (lit "null" ++ k) ≡ some (null, k))
      × (scalar_from (lit "true" ++ k) ≡ some (bool true, k))
      × (scalar_from (lit "false" ++ k) ≡ some (bool false, k))
unfolding scalar_from starts_with
scalar_words k = (refl, refl, refl)

parse_value-scalar :
    (f c : ℕ) (s : Text)
    → (c == 34) ≡ false
    → (c == b'[') ≡ false
    → (c == b'{') ≡ false
    → parse_value (suc f) (c ∷ s) ≡ scalar_from (c ∷ s)
unfolding parse_value
parse_value-scalar f c s a b d = rw (a, b, d)

-- No value starts with `]`.
print-starts :
    (v : Json) (k : Text)
    → IsPrintable v
    → (c : ℕ) × (s : Text) × (print v k ≡ c ∷ s) × ((c == b']') ≡ false)
unfolding print
print-starts null k h = (_, _, refl, refl)
print-starts (bool true) k h = (_, _, refl, refl)
print-starts (bool false) k h = (_, _, refl, refl)
print-starts (num []) k h = absurd (h.0 refl)
print-starts (num (c ∷ t)) k h = (c, t ++ k, refl, not_word c b']' h.1.0 refl)
print-starts (str s) k h = (_, _, refl, refl)
print-starts (arr nil) k h = (_, _, refl, refl)
print-starts (arr (cons v vs)) k h = (_, _, refl, refl)
print-starts (obj end) k h = (_, _, refl, refl)
print-starts (obj (field n v fs)) k h = (_, _, refl, refl)

parse_array-open :
    (f : ℕ) (s : Text) (c : ℕ) (s' : Text)
    → s ≡ c ∷ s'
    → (c == b']') ≡ false
    → parse_array (suc f) s
      ≡ (parse_value f s >>= λ p. parse_items f p.1 >>= λ q. some (arr (cons p.0 q.0), q.1))
unfolding parse_value
parse_array-open f s c s' e h = rw e (rw h)

Stops-items : (vs : Items) (k : Text) → Stops (print_items vs k)
unfolding print
Stops-items nil k = refl
Stops-items (cons v vs) k = refl

Stops-fields : (fs : Fields) (k : Text) → Stops (print_fields fs k)
unfolding print
Stops-fields end k = refl
Stops-fields (field n v fs) k = refl

parse_field-step :
    (n : Text) (v : Json) (fs : Fields) (f : ℕ) (k k' : Text)
    → parse_value f (print v k') ≡ some (v, k')
    → parse_fields f k' ≡ some (fs, k)
    → parse_field (suc f) (34 ∷ quote n (34 ∷ b':' ∷ print v k')) ≡ some (field n v fs, k)
unfolding parse_value
parse_field-step n v fs f k k' here later =
    rw (string_from-quote n (b':' ∷ print v k')) (rw here (rw later refl))

mutual
  unfolding parse_value print cost

  parse_value-print :
      (v : Json) (f : ℕ) (k : Text)
      → cost v ≤ f
      → IsPrintable v
      → Stops k
      → parse_value f (print v k) ≡ some (v, k)
  parse_value-print null (suc f) k le h stop = (scalar_words k).0
  parse_value-print (bool true) (suc f) k le h stop = (scalar_words k).1
  parse_value-print (bool false) (suc f) k le h stop = (scalar_words k).2
  parse_value-print (num []) (suc f) k le h stop = absurd (h.0 refl)
  parse_value-print (num (c ∷ t)) (suc f) k le h stop =
      parse_value-scalar f c (t ++ k) (not_word c 34 h.1.0 refl) (not_word c b'[' h.1.0 refl)
        (not_word c b'{' h.1.0 refl)
      ∙ scalar_from-num c t k h.1.0 (number_from-append (c ∷ t) k h.1 stop)
  parse_value-print (str s) (suc f) k le h stop = rw (string_from-quote s k) refl
  parse_value-print (arr nil) (suc (suc f)) k le h stop = refl
  parse_value-print (arr (cons v vs)) (suc (suc f)) k le h stop =
      let (c, s, e, other) = print-starts v (print_items vs k) h.0 in
      parse_array-open f _ c s e other
      ∙ rw (parse_value-print v f (print_items vs k) (omega arith) h.0 (Stops-items vs k))
          (rw (parse_items-print vs f k (omega arith) h.1) refl)
  parse_value-print (obj end) (suc (suc f)) k le h stop = refl
  parse_value-print (obj (field n v fs)) (suc (suc (suc f))) k le h stop =
      let k' = print_fields fs k in
      let here = parse_value-print v f k' (omega arith) h.0 (Stops-fields fs k) in
      let later = parse_fields-print fs f k (omega arith) h.1 in
      rw (parse_field-step n v fs f k k' here later) refl
  parse_value-print v zero k le h stop = absurd (omega (arith, cost_pos v))
  parse_value-print (arr nil) (suc zero) k le h stop = absurd (omega arith)
  parse_value-print (arr (cons v vs)) (suc zero) k le h stop = absurd (omega arith)
  parse_value-print (obj end) (suc zero) k le h stop = absurd (omega arith)
  parse_value-print (obj (field n v fs)) (suc zero) k le h stop = absurd (omega arith)
  parse_value-print (obj (field n v fs)) (suc (suc zero)) k le h stop =
      absurd (omega (arith, cost_pos v))

  parse_items-print :
      (vs : Items) (f : ℕ) (k : Text)
      → cost_items vs ≤ f
      → ArePrintable vs
      → parse_items f (print_items vs k) ≡ some (vs, k)
  parse_items-print vs zero k le h = absurd (omega (arith, cost_items_pos vs))
  parse_items-print nil (suc f) k le h = refl
  parse_items-print (cons v vs) (suc f) k le h =
      rw (parse_value-print v f (print_items vs k) (omega arith) h.0 (Stops-items vs k))
        (rw (parse_items-print vs f k (omega arith) h.1) refl)

  parse_fields-print :
      (fs : Fields) (f : ℕ) (k : Text)
      → cost_fields fs ≤ f
      → ArePrintableFields fs
      → parse_fields f (print_fields fs k) ≡ some (fs, k)
  parse_fields-print fs zero k le h = absurd (omega (arith, cost_fields_pos fs))
  parse_fields-print end (suc f) k le h = refl
  parse_fields-print (field n v fs) (suc (suc f)) k le h =
      let k' = print_fields fs k in
      let here = parse_value-print v f k' (omega arith) h.0 (Stops-fields fs k) in
      let later = parse_fields-print fs f k (omega arith) h.1 in
      parse_field-step n v fs f k k' here later
  parse_fields-print (field n v fs) (suc zero) k le h = absurd (omega arith)

-- Parsing what JSON.stringify prints gives the value back, if its numbers are printed numbers.
pub parse-stringify : (v : Json) → IsPrintable v → parse (stringify v) ≡ some v
unfolding parse stringify
parse-stringify v h = ap whole (parse_value-print v _ [] (omega (arith, cost-le v h)) h tt)
