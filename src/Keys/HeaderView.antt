-- ===== src/Keys/HeaderView.antt =====
-- What the header part of a key stands for, and that the part determines it.
use mathlib.Core.Path.{ap₂, subst}
use plugin_rest_cache.Prelude.{
  ◌≡◌, refl, ap, sym, ◌∙◌, List, [], ◌∷◌, map, Text, All, Free, some, none, inl, inr, Option-cases,
}
use plugin_rest_cache.Context.{Request, lookup, to_lower_case}
use plugin_rest_cache.Keys.Query.{join}
use plugin_rest_cache.Keys.Headers.{header_part, header_parts, generate_headers_key}
use plugin_rest_cache.Keys.Escape.{escape_key_name, escape_key_value}
use plugin_rest_cache.Keys.Escape.Scalars.{
  IsWellFormed, escape_key_name-FreeOf, escape_key_value-FreeOf, escape_key_name-injective,
  escape_key_value-injective,
}
use plugin_rest_cache.Keys.Escape.Printed.{}
use plugin_rest_cache.Keys.Parts.{Pair, pair_text, IsPair, join_unique, join-Free}

-- The configured headers that the request carries, by lower-case name.
pub headers_view : Request → List Text → List (Text × Text)
headers_view r [] = []
headers_view r (name ∷ names) = elim (lookup (to_lower_case name) r.header) [
  | none ↦ headers_view r names
  | some value ↦ (to_lower_case name, value) ∷ headers_view r names
]

-- The configured names and the values that the request has for them are well-formed.
abbrev pub AreHeaders : Request → List Text → Type 0
AreHeaders r [] = Unit
AreHeaders r (name ∷ names) =
    IsWellFormed (to_lower_case name)
    × ((v : Text) → lookup (to_lower_case name) r.header ≡ some v → IsWellFormed v)
    × AreHeaders r names

abbrev escaped_header : Pair → Pair
escaped_header p = (escape_key_name p.0, escape_key_value p.1)

abbrev IsHeader : Pair → Type 0
IsHeader p = IsWellFormed p.0 × IsWellFormed p.1

headers_view-AreHeaders :
    (r : Request) (names : List Text) → AreHeaders r names → All IsHeader (headers_view r names)
unfolding headers_view
headers_view-AreHeaders r [] h = tt
headers_view-AreHeaders r (name ∷ names) (wf, value, h) =
    elim (Option-cases (lookup (to_lower_case name) r.header)) [
      | inl missing ↦ rw (missing, headers_view) (headers_view-AreHeaders r names h)
      | inr (v, found) ↦
          rw (found, headers_view) ((wf, value v found), headers_view-AreHeaders r names h)
    ]

header_parts-view :
    (r : Request) (names : List Text)
    → header_parts r names ≡ map pair_text (map escaped_header (headers_view r names))
unfolding header_parts header_part headers_view
header_parts-view r [] = refl
header_parts-view r (name ∷ names) = elim (Option-cases (lookup (to_lower_case name) r.header)) [
  | inl missing ↦ rw (missing, header_parts, header_part, headers_view) (header_parts-view r names)
  | inr (v, found) ↦
      rw (found, header_parts, header_part, headers_view)
        (ap (◌∷◌ (pair_text (escaped_header (to_lower_case name, v)))) (header_parts-view r names))
]

escaped_header-IsPair : (ps : List Pair) → All IsHeader ps → All IsPair (map escaped_header ps)
escaped_header-IsPair [] h = tt
escaped_header-IsPair (p ∷ ps) ((name, value), h) = (
  (escape_key_name-FreeOf p.0 name.0, escape_key_value-FreeOf p.1 value.0),
  escaped_header-IsPair ps h,
)

escaped_header-injective :
    (ps qs : List Pair)
    → All IsHeader ps
    → All IsHeader qs
    → map escaped_header ps ≡ map escaped_header qs
    → ps ≡ qs
escaped_header-injective [] [] h k e = refl
escaped_header-injective [] (q ∷ qs) h k e = cc
escaped_header-injective (p ∷ ps) [] h k e = cc
escaped_header-injective (p ∷ ps) (q ∷ qs) (h, hs) (k, ks) e =
    let names = escape_key_name-injective p.0 q.0 h.0 k.0 (cc) in
    let values = escape_key_value-injective p.1 q.1 h.1 k.1 (cc) in
    ap₂ ◌∷◌ (ap₂ (λ a b. (a, b)) names values) (escaped_header-injective ps qs hs ks (cc))

-- Requests with one header part carry the same values of the configured headers.
pub headers_key-view :
    (names : List Text) (r r' : Request)
    → AreHeaders r names
    → AreHeaders r' names
    → generate_headers_key r names ≡ generate_headers_key r' names
    → headers_view r names ≡ headers_view r' names
unfolding generate_headers_key
headers_key-view names r r' h k e =
    let seen = headers_view-AreHeaders r names h in
    let seen' = headers_view-AreHeaders r' names k in
    escaped_header-injective _ _ seen seen' (
      join_unique _ _ (escaped_header-IsPair _ seen) (escaped_header-IsPair _ seen')
        (ap join (sym (header_parts-view r names)) ∙ e ∙ ap join (header_parts-view r' names)))

-- The header part holds no `&`.
pub headers_key-Free :
    (names : List Text) (r : Request)
    → AreHeaders r names
    → Free b'&' (generate_headers_key r names)
unfolding generate_headers_key
headers_key-Free names r h =
    subst (Free b'&') (ap join (sym (header_parts-view r names)))
      (join-Free _ (escaped_header-IsPair _ (headers_view-AreHeaders r names h)))
