-- ===== src/Patterns/Exact.antt =====
-- The requests that a pattern of packages/plugin-rest-cache/server/src/utils/config/getRouteRegExp.ts with
-- values in it clears.
use mathlib.Core.List.{append-nil, append_assoc}
use mathlib.Core.Option
use mathlib.Core.Path.{subst}
use plugin_rest_cache.Prelude.{
  ℕ, ◌<◌, ◌≡◌, refl, sym, ap, ◌∙◌, ◌↔◌, Bool, true, false, Option, none, some, List, [], ◌∷◌, ◌++◌,
  map, arith, leb, ◌==◌, ==_iff, and_parts, if_false, none≢some, some_injective, length, any, All,
  All-append, Text, lit, Free, cut_unique,
}
use plugin_rest_cache.Context.{Request, to_lower_case}
use plugin_rest_cache.Keys.{generate_cache_key}
use plugin_rest_cache.Keys.Config.{CacheKeysConfig}
use plugin_rest_cache.Keys.Path.{request_path}
use plugin_rest_cache.Keys.Paths.{request_path-Free}
use plugin_rest_cache.Patterns.{
  get_route_reg_exp, Params, resolved_path, collapse_slashes, lower_case_pattern, anchored,
}
use plugin_rest_cache.Patterns.Given.{AreValues, filled, missing, found, outcome}
use plugin_rest_cache.Patterns.Slashes.{doubled, undoubled-Follows, collapse_slashes-undoubled}
use plugin_rest_cache.Patterns.Matcher.{
  Item, unit, escaped, segment, print_item, print, is_escapable, match_unit, matches, reg_exp,
}
use plugin_rest_cache.Patterns.Parsed.{IsItem}
use plugin_rest_cache.Patterns.Pieces.{pieces}
use plugin_rest_cache.Patterns.Spelling.{Spelled, IsLiteral, literal_of}
use plugin_rest_cache.Patterns.Sources.{IsPlain, has_empty_segment}
use plugin_rest_cache.Patterns.Lowered.{lower_nothing}
use plugin_rest_cache.Patterns.Segments.{met}
use plugin_rest_cache.Patterns.Serving.{accepts-printed}
use plugin_rest_cache.Purging.Matched.{accepts}
use plugin_rest_cache.Response.Decisions.{CacheRouteConfig}
use plugin_rest_cache.Store.Log.{RegExp}

abbrev mark : List Item
mark = escaped b'?' ∷ []

met_by :
    (c : ℕ) (follow : Text → Bool) (s : Text)
    → match_unit c follow s ≡ true
    → (rest : Text) × (s ≡ c ∷ rest) × (follow rest ≡ true)
unfolding match_unit
met_by c follow [] h = absurd (ground arith)
met_by c follow (d ∷ s) h =
    let (same, later) = and_parts (c == d) _ h in
    (s, ap (λ x. x ∷ s) (sym ((==_iff c d).0 same)), later)

matches-literal :
    (i : Item) (items : List Item) (s : Text)
    → IsLiteral i
    → matches (i ∷ items) s ≡ match_unit (literal_of i) (matches items) s
unfolding matches
matches-literal (unit c) items s h = refl
matches-literal (escaped c) items s h = refl
matches-literal segment items s h = absurd h

-- A literal pattern with a mark behind it accepts what begins with its text and a mark.
literal_begins :
    (items : List Item) (s : Text)
    → All IsLiteral items
    → matches (items ++ mark) s ≡ true
    → (rest : Text) × (s ≡ map literal_of items ++ b'?' ∷ rest)
unfolding matches
literal_begins [] s hs h = let (rest, e, later) = met_by b'?' _ s h in (rest, e)
literal_begins (i ∷ items) s (l, hs) h =
    let (rest, e, later) =
      met_by (literal_of i) (matches (items ++ mark)) s
        (sym (matches-literal i (items ++ mark) s l) ∙ h) in
    let (after, f) = literal_begins items rest hs later in (after, e ∙ ap (◌∷◌ (literal_of i)) f)

begins_literal :
    (items : List Item) (rest : Text)
    → All IsLiteral items
    → matches (items ++ mark) (map literal_of items ++ b'?' ∷ rest) ≡ true
unfolding matches
begins_literal [] rest hs = met b'?' (matches []) rest refl
begins_literal (i ∷ items) rest (l, hs) =
    matches-literal i (items ++ mark) _ l
    ∙ met (literal_of i) (matches (items ++ mark)) _ (begins_literal items rest hs)

literal_iff :
    (items : List Item) (s rest : Text)
    → All IsLiteral items
    → Free b'?' (map literal_of items)
    → Free b'?' s
    → (matches (items ++ mark) (s ++ b'?' ∷ rest) ≡ true) ↔ (map literal_of items ≡ s)
literal_iff items s rest hs unmarked free = (
  λ h.
      let (after, e) = literal_begins items (s ++ b'?' ∷ rest) hs h in
      let (same, later) = cut_unique b'?' s (map literal_of items) rest after free unmarked e in
      sym same,
  λ e.
      subst (λ t. matches (items ++ mark) (t ++ b'?' ∷ rest) ≡ true) e
        (begins_literal items rest hs),
)

mark-IsItem : All IsItem mark
unfolding is_escapable
mark-IsItem = (refl, tt)

print-mark : (items : List Item) → print (items ++ mark) ≡ print items ++ lit "\\?"
unfolding print print_item
print-mark [] = refl
print-mark (i ∷ items) =
    ap (λ t. print_item i ++ t) (print-mark items)
    ∙ sym (append_assoc (print_item i) (print items) (lit "\\?"))

-- The pattern that is found, printed from its items.
anchored-Spelled :
    (pattern path : Text) (items : List Item)
    → Spelled pattern items path
    → anchored (lower_case_pattern pattern) ≡ b'^' ∷ print (items ++ mark)
unfolding anchored
anchored-Spelled pattern path items spelled =
    ap (λ t. anchored (lower_case_pattern t)) (sym (append-nil pattern))
    ∙ (ap anchored (
          spelled.lowered []
          ∙ (ap (λ t. print items ++ t) lower_nothing ∙ append-nil (print items)))
        ∙ ap (◌∷◌ b'^') (sym (print-mark items)))

abbrev given_sources : Option Text → ℕ → List Text
given_sources pattern times = elim pattern [
  | none ↦ []
  | some found' ↦ anchored (lower_case_pattern (collapse_slashes found' times)) ∷ []
]

module _ (other : Text → Option RegExp) (route : CacheRouteConfig) (given : Params) where
  sources-missing :
      0 < length route.param_names
      → resolved_path given (pieces route.path) ≡ none
      → get_route_reg_exp route (some given) false ≡ []
  unfolding get_route_reg_exp
  sources-missing named e =
      if_false (leb (length route.param_names) 0) _ _ (ground arith)
      ∙ ap (λ o. given_sources o (length given)) e

  sources-found :
      (pattern : Text)
      → 0 < length route.param_names
      → resolved_path given (pieces route.path) ≡ some pattern
      → doubled pattern ≡ false
      → get_route_reg_exp route (some given) false ≡ anchored (lower_case_pattern pattern) ∷ []
  unfolding get_route_reg_exp
  sources-found pattern named e flat =
      if_false (leb (length route.param_names) 0) _ _ (ground arith)
      ∙ (ap (λ o. given_sources o (length given)) e
          ∙ ap (λ t. anchored (lower_case_pattern t) ∷ [])
              (collapse_slashes-undoubled pattern (length given) flat))

-- A purge with parameters, and a key that is a path with any text behind its `?`.
pub given_at :
    (other : Text → Option RegExp) (route : CacheRouteConfig) (given : Params) (asked tail : Text)
    → 0 < length route.param_names
    → All IsPlain (pieces route.path)
    → has_empty_segment (pieces route.path) ≡ false
    → AreValues given
    → Free b'?' asked
    → (any
          (accepts (reg_exp other) (asked ++ b'?' ∷ tail))
          (get_route_reg_exp route (some given) false)
        ≡ true)
      ↔ (Option.map to_lower_case (filled given (pieces route.path)) ≡ some asked)
given_at other route given asked tail named plain apart values free =
    elim (outcome given (pieces route.path) values plain) [
      | missing e f ↦ (
        λ h. cc (
          ap (any (accepts (reg_exp other) (asked ++ b'?' ∷ tail)))
              (sources-missing other route given named e),
          h,
        ),
        λ h. absurd (none≢some (sym (ap (Option.map to_lower_case) f) ∙ h)),
      )
      | found pattern path items e f spelled follows ↦
          let same : any (accepts (reg_exp other) (asked ++ b'?' ∷ tail))
                (get_route_reg_exp route (some given) false)
              ≡ matches (items ++ mark) (asked ++ b'?' ∷ tail) =
            accepts-printed other (items ++ mark) _ (asked ++ b'?' ∷ tail)
              (All-append IsItem items mark spelled.are_items mark-IsItem)
              (sources-found other route given pattern named e
                  (undoubled-Follows (pieces route.path) pattern apart follows)
                ∙ ap (λ t. t ∷ []) (anchored-Spelled pattern path items spelled)) in
          let (to, from) =
            literal_iff items (asked) _ spelled.are_literal
              (subst (Free b'?') (sym spelled.same) spelled.no_mark) free in
          (
            λ h. ap (Option.map to_lower_case) f ∙ ap some (sym spelled.same ∙ to (sym same ∙ h)),
            λ h.
                same
                ∙ from (spelled.same ∙ some_injective (sym (ap (Option.map to_lower_case) f) ∙ h)),
          )
    ]

-- For a route with parameters whose path has no pattern syntax, constraint, modifier or empty segment, a purge
-- with parameters whose values are not empty and written alike by every client, without a `/`, accepts the key
-- of a request exactly if every parameter of the path is given and the request's path is, in lower case, the
-- route's with the values in it, encoded as in a URL, whatever else the key is made of.
pub given_iff :
    (other : Text → Option RegExp) (route : CacheRouteConfig) (given : Params) (ctx : Request)
    (keys : CacheKeysConfig)
    → 0 < length route.param_names
    → All IsPlain (pieces route.path)
    → has_empty_segment (pieces route.path) ≡ false
    → AreValues given
    → Free b'?' ctx.path
    → (any
          (accepts (reg_exp other) (generate_cache_key ctx keys))
          (get_route_reg_exp route (some given) false)
        ≡ true)
      ↔ (Option.map to_lower_case (filled given (pieces route.path)) ≡ some (request_path ctx.path))
unfolding generate_cache_key
given_iff other route given ctx keys named plain apart values free =
    given_at other route given (request_path ctx.path) _ named plain apart values
      (request_path-Free ctx.path free)
