-- ===== src/Response/Passive.antt =====
-- packages/plugin-rest-cache/server/src/middlewares/recv.ts: what a Content-Type that is replayed can say.
use mathlib.Core.Path.{ap₂, subst}
use mathlib.Core.List.{Memᴰ, append_assoc}
use plugin_rest_cache.Prelude.{
  ℕ, ◌≡◌, refl, sym, ap, ◌∙◌, ◌≢◌, ◌⊎◌, inl, inr, Bool, true, false, ◌&&◌, ◌||◌, not, Option, none,
  some, List, [], ◌∷◌, ◌++◌, arith, ◌==◌, if◌then◌else◌, ==_iff, Bool-cases, or_cases, and_parts,
  none≢some, some_injective, drop, every, All, Text, lit, text_eq, text_eq_sound, text_eq_refl,
  append-drop_of_starts_with, Free, Free-append, Free-of_every,
}
use plugin_rest_cache.Context.{to_lower_case}
use plugin_rest_cache.Json.{Json, null, bool, num, str, arr, obj}
use plugin_rest_cache.Response.Spaces.{is_space, skip_space, trim, split}
use plugin_rest_cache.Response.Directives.{Spaces}
use plugin_rest_cache.Response.Words.{
  Stopped, skip_space_parts, trim_parts, split_here, split_two, split_there, Mem-every, trim_tight,
  trim-Spaces,
}
use plugin_rest_cache.Response.Replay.{
  passive_types, markup_types, in_set, unquote, parameter, charset_ok, opens_markup, is_replayable,
  replayed_type,
}
use plugin_rest_cache.Store.Entry.{kept_type}

-- The text ends, or goes on behind a semicolon.
pub data Ended : Text → Type 0 where
  at_end : Ended []
  at_semicolon : (s : Text) → Ended (b';' ∷ s)

-- The type, in lower case, is a media type with spaces around it and perhaps parameters behind it.
pub record Media (type mime : Text) : Type 0 where
  pub before : Text
  pub after : Text
  pub params : Text
  pub parts : to_lower_case type ≡ before ++ (mime ++ (after ++ params))
  pub spaces : Spaces before × Spaces after
  pub stops : Ended params

-- The media types that a browser shows as they are.
pub data PassiveMedia : Text → Type 0 where
  plain : PassiveMedia (lit "text/plain")
  csv : PassiveMedia (lit "text/csv")
  tabs : PassiveMedia (lit "text/tab-separated-values")
  json : PassiveMedia (lit "application/json")

-- The body opens with an angle bracket, behind spaces.
abbrev pub Markup : Text → Type 0
Markup body = (before : Text) × (rest : Text) × (body ≡ before ++ b'<' ∷ rest) × Spaces before

-- A unit that neither ends a value nor is quotes or a space.
abbrev pub IsBare : ℕ → Type 0
IsBare c = (is_space c ≡ false) × (c ≢ b'"') × (c ≢ b'=') × (c ≢ b';')

-- A charset that the type declares without quotes is UTF-8.
abbrev pub DeclaresUtf8 : Text → Type 0
DeclaresUtf8 type =
    (front before v params : Text)
    → to_lower_case type ≡ front ++ b';' ∷ ((before ++ (lit "charset=" ++ v)) ++ params)
    → Spaces before
    → All IsBare v
    → Ended params
    → v ≡ lit "utf-8"

-- The type makes the body no more active than Koa's own guess.
pub record IsPassive (type body : Text) : Type 0 where
  pub charset : DeclaresUtf8 type
  pub kind :
      ((mime : Text) × PassiveMedia mime × Media type mime)
      ⊎ (Media type (lit "application/xml") × Markup body)

split_first : (s : Text) → (tail : Text) × (s ≡ (split b';' s).0 ++ tail) × Ended tail
unfolding split
split_first [] = ([], refl, at_end)
split_first (a ∷ s) = elim (Bool-cases (a == b';')) [
  | inl stop ↦
      rw stop
        (a ∷ s, refl, subst (λ x. Ended (x ∷ s)) (sym ((==_iff a b';').0 stop)) (at_semicolon s))
  | inr other ↦ let (tail, e, stops) = split_first s in rw other (tail, ap (◌∷◌ a) e, stops)
]

unquote_bare : (v : Text) → All IsBare v → unquote v ≡ v
unfolding unquote
unquote_bare [] h = refl
unquote_bare (c ∷ v) ((space, quotes, equals, semicolon), h) = elim (Bool-cases (c == b'"')) [
  | inl same ↦ absurd (quotes ((==_iff c b'"').0 same))
  | inr other ↦ rw other (ap (◌∷◌ c) (unquote_bare v h))
]

space_is_no_separator : (c : ℕ) → is_space c ≡ true → (c ≢ b'=') × (c ≢ b';')
unfolding is_space
space_is_no_separator c h = (λ e. ground (arith, h, e), λ e. ground (arith, h, e))

Spaces-Free : (before : Text) → Spaces before → Free b'=' before × Free b';' before
Spaces-Free [] h = (tt, tt)
Spaces-Free (c ∷ s) (space, h) =
    let (equals, semicolons) = Spaces-Free s h in
    let (no_equals, no_semicolon) = space_is_no_separator c space in
    ((no_equals, equals), (no_semicolon, semicolons))

All-IsBare :
    (v : Text) → All IsBare v → All (λ c. is_space c ≡ false) v × (Free b'=' v × Free b';' v)
All-IsBare [] h = (tt, (tt, tt))
All-IsBare (c ∷ v) ((space, quotes, equals, semicolon), h) =
    let (spaces, (no_equals, no_semicolon)) = All-IsBare v h in
    ((space, spaces), ((equals, no_equals), (semicolon, no_semicolon)))

-- A parameter that names a charset, read.
parameter-charset :
    (before v : Text)
    → Spaces before
    → All IsBare v
    → parameter ((before ++ lit "charset") ++ b'=' ∷ v) ≡ (lit "charset", v)
unfolding parameter Stopped is_space
parameter-charset before v spaces bare =
    let (tight, (equals, semicolons)) = All-IsBare v bare in
    let free =
      Free-append b'=' before (lit "charset") (Spaces-Free before spaces).0
        (Free-of_every b'=' (lit "charset") refl) in
    ap₂ (λ name (values : List Text). (trim name, elim values [ [] ↦ [] | w ∷ _ ↦ trim w ]))
      (split_here b'=' (before ++ lit "charset") (b'=' ∷ v) free refl)
      (split_two b'=' (before ++ lit "charset") v free equals)
    ∙ ap₂ (λ x y. (x, y))
        (trim-Spaces before (lit "charset") spaces
          (refl, (refl, (refl, (refl, (refl, (refl, (refl, tt))))))))
        (trim_tight v tight)

charset_ok-utf8 :
    (before v : Text)
    → Spaces before
    → All IsBare v
    → charset_ok (before ++ (lit "charset=" ++ v)) ≡ true
    → v ≡ lit "utf-8"
unfolding charset_ok
charset_ok-utf8 before v spaces bare ok =
    let read : parameter (before ++ (lit "charset=" ++ v)) ≡ (lit "charset", v) =
      ap parameter (sym (append_assoc before (lit "charset") (b'=' ∷ v)))
      ∙ parameter-charset before v spaces bare in
    let tested : (not (text_eq (lit "charset") (lit "charset"))
          || text_eq (unquote v) (lit "utf-8"))
        ≡ true =
      ap (λ x. not (text_eq x.0 (lit "charset")) || text_eq (unquote x.1) (lit "utf-8")) (sym read)
      ∙ ok in
    sym (unquote_bare v bare)
    ∙ text_eq_sound (unquote v) (lit "utf-8") (ground (arith, tested, text_eq_refl (lit "charset")))

passive_media : (mime : Text) → in_set passive_types mime ≡ true → PassiveMedia mime
unfolding in_set passive_types
passive_media mime h = elim (or_cases (text_eq mime (lit "text/plain")) _ h) [
  | inl e ↦ subst PassiveMedia (sym (text_eq_sound mime _ e)) plain
  | inr h2 ↦ elim (or_cases (text_eq mime (lit "text/csv")) _ h2) [
    | inl e ↦ subst PassiveMedia (sym (text_eq_sound mime _ e)) csv
    | inr h3 ↦ elim (or_cases (text_eq mime (lit "text/tab-separated-values")) _ h3) [
      | inl e ↦ subst PassiveMedia (sym (text_eq_sound mime _ e)) tabs
      | inr h4 ↦ elim (or_cases (text_eq mime (lit "application/json")) _ h4) [
        | inl e ↦ subst PassiveMedia (sym (text_eq_sound mime _ e)) json
        | inr e ↦ cc
      ]
    ]
  ]
]

xml_media : (mime : Text) → in_set markup_types mime ≡ true → mime ≡ lit "application/xml"
unfolding in_set markup_types
xml_media mime h = elim (or_cases (text_eq mime (lit "application/xml")) false h) [
  | inl e ↦ text_eq_sound mime (lit "application/xml") e
  | inr e ↦ cc
]

opens_markup-Markup : (body : Text) → opens_markup body ≡ true → Markup body
unfolding opens_markup
opens_markup-Markup body h =
    let (before, e, spaces) = skip_space_parts body in
    let opened = append-drop_of_starts_with (lit "<") (skip_space body) h in
    (before, drop 1 (skip_space body), e ∙ ap (λ x. before ++ x) (sym opened), spaces)

-- The media type that the code reads is one of the type's.
Media-read : (type : Text) → Media type (trim (split b';' (to_lower_case type)).0)
Media-read type =
    let (tail, e, stops) = split_first (to_lower_case type) in
    let (before, after, parts, front, back) = trim_parts (split b';' (to_lower_case type)).0 in
    let mime = trim (split b';' (to_lower_case type)).0 in
    record {
      before = before;
      after = after;
      params = tail;
      parts =
          e
          ∙ (ap (λ x. x ++ tail) parts
              ∙ (append_assoc before (mime ++ after) tail
                  ∙ ap (λ x. before ++ x) (append_assoc mime after tail)));
      spaces = (front, back);
      stops = stops;
    }

Ended-Stopped : (s : Text) → Ended s → Stopped b';' s
unfolding Stopped
Ended-Stopped _ at_end = tt
Ended-Stopped _ (at_semicolon s) = refl

declares_utf8 :
    (type : Text) → every charset_ok (split b';' (to_lower_case type)).1 ≡ true → DeclaresUtf8 type
declares_utf8 type h front before v params parts spaces bare ends =
    let param = before ++ (lit "charset=" ++ v) in
    let free : Free b';' param =
      Free-append b';' before (lit "charset=" ++ v) (Spaces-Free before spaces).1 (
        Free-append b';' (lit "charset=") v (Free-of_every b';' (lit "charset=") refl)
          (All-IsBare v bare).1.1) in
    charset_ok-utf8 before v spaces bare (
      Mem-every charset_ok param (split b';' (to_lower_case type)).1 h (
        subst (λ x. Memᴰ param (split b';' x).1) (sym parts)
          (split_there b';' front param params free (Ended-Stopped params ends))))

replayable_tests :
    (a b c d : Bool)
    → (if not a then false else if b then true else (c && d)) ≡ true
    → (a ≡ true) × ((b ≡ true) ⊎ ((c ≡ true) × (d ≡ true)))
replayable_tests true true c d h = (refl, inl refl)
replayable_tests true false c d h = (refl, inr (and_parts c d h))
replayable_tests false b c d h = cc

is_replayable-IsPassive : (type body : Text) → is_replayable type body ≡ true → IsPassive type body
unfolding is_replayable
is_replayable-IsPassive type body h =
    let mime = trim (split b';' (to_lower_case type)).0 in
    let (charsets, kind) =
      replayable_tests (every charset_ok (split b';' (to_lower_case type)).1)
        (in_set passive_types mime) (in_set markup_types mime) (opens_markup body) h in
    record {
      charset = declares_utf8 type charsets;
      kind = elim kind [
        | inl e ↦ inl (mime, passive_media mime e, Media-read type)
        | inr (xml, markup) ↦ inr (
          subst (Media type) (xml_media mime xml) (Media-read type),
          opens_markup-Markup body markup,
        )
      ];
    }

-- Whatever entry is replayed, a Content-Type is set only if it is the stored one and the body is a
-- text; its media type, in any case and with spaces around it, is text/plain, text/csv, text/tab-
-- separated-values or application/json, or application/xml for a body that opens with an angle
-- bracket behind spaces; and a charset that a parameter declares with no quotes and no spaces in it
-- is utf-8.
pub replayed_type-IsPassive :
    (v : Json) (kept : Option Text) (type : Text)
    → replayed_type v kept ≡ some type
    → (kept_type kept ≡ some type) × (body : Text) × (v ≡ str body) × IsPassive type body
unfolding replayed_type
replayed_type-IsPassive (str body) none type h = cc
replayed_type-IsPassive (str body) (some []) type h = cc
replayed_type-IsPassive (str body) (some (c ∷ t)) type h =
    elim (Bool-cases (is_replayable (c ∷ t) body)) [
      | inl ok ↦
          let e : c ∷ t ≡ type = some_injective (rw (ok, replayed_type) at h) in
          (
            ap some e,
            body,
            refl,
            is_replayable-IsPassive type body (subst (λ x. is_replayable x body ≡ true) e ok),
          )
      | inr no' ↦ absurd (none≢some (rw (no', replayed_type) at h))
    ]
replayed_type-IsPassive null kept type h = cc
replayed_type-IsPassive (bool b) kept type h = cc
replayed_type-IsPassive (num b) kept type h = cc
replayed_type-IsPassive (arr b) kept type h = cc
replayed_type-IsPassive (obj b) kept type h = cc
