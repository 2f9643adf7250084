-- ===== src/Store/Listing.antt =====
-- packages/plugin-rest-cache/server/src/services/cacheStore.ts: keys with and without the prefix.
use plugin_rest_cache.Prelude.{
  text_eq-false, ◌≡◌, refl, sym, ap, ◌∙◌, inl, inr, Bool, false, ◌&&◌, ◌||◌, List, [], ◌∷◌, ◌++◌,
  map, arith, ==_refl, Bool-cases, length, drop, any, filter, Text, text_eq, text_eq_sound,
  starts_with, starts_with-append, append-drop_of_starts_with,
}
use plugin_rest_cache.Store.{logical_keys}

-- Whether a list of texts has a text.
abbrev pub has : List Text → Text → Bool
has keys key = any (text_eq key) keys

pub text_eq-append : (p s t : Text) → text_eq (p ++ s) (p ++ t) ≡ text_eq s t
unfolding text_eq
text_eq-append [] s t = refl
text_eq-append (a ∷ p) s t = rw (==_refl a) (text_eq-append p s t)

-- Keys that get the prefix: those with it are there as they were, and there is no other.
pub has-prefixed : (p t : Text) (keys : List Text) → has (map (◌++◌ p) keys) (p ++ t) ≡ has keys t
has-prefixed p t [] = refl
has-prefixed p t (k ∷ keys) = rw (text_eq-append p t k, has-prefixed p t keys) refl

pub has-prefixed_other :
    (p j : Text) (keys : List Text) → starts_with j p ≡ false → has (map (◌++◌ p) keys) j ≡ false
has-prefixed_other p j [] h = refl
has-prefixed_other p j (k ∷ keys) h =
    let differs : text_eq j (p ++ k) ≡ false =
      text_eq-false j (p ++ k) (λ e. cc (h, ap (λ s. starts_with s p) e, starts_with-append p k)) in
    rw (differs, has-prefixed_other p j keys h) refl

stripped :
    (p t : Text) (listed : List Text)
    → has (map (drop (length p)) (filter (λ key. starts_with key p) listed)) t ≡ has listed (p ++ t)
stripped p t [] = refl
stripped p t (k ∷ listed) = elim (Bool-cases (starts_with k p)) [
  | inl own ↦
      let whole = append-drop_of_starts_with p k own in
      rw own (
        rw (stripped p t listed) (
          ap (λ b. b || has listed (p ++ t))
            (sym (text_eq-append p t (drop (length p) k)) ∙ ap (text_eq (p ++ t)) whole)))
  | inr other ↦
      let differs : text_eq (p ++ t) k ≡ false =
        text_eq-false (p ++ t) k
          (λ e. cc (other, ap (λ s. starts_with s p) e, starts_with-append p t)) in
      rw (other, differs) (stripped p t listed)
]

pub has-logical_keys :
    (p t : Text) (listed : List Text) → has (logical_keys p listed) t ≡ has listed (p ++ t)
unfolding logical_keys
has-logical_keys [] t listed = refl
has-logical_keys (c ∷ p) t listed = stripped (c ∷ p) t listed

pub has-filter :
    (q : Text → Bool) (t : Text) (keys : List Text) → has (filter q keys) t ≡ (q t && has keys t)
has-filter q t [] = ground arith
has-filter q t (k ∷ keys) = elim (Bool-cases (text_eq t k)) [
  | inl same ↦
      let e : q k ≡ q t = ap q (sym (text_eq_sound t k same)) in
      elim (Bool-cases (q k)) [
        | inl kept ↦ rw (kept, same) (sym (rw (sym e ∙ kept) refl))
        | inr gone ↦ rw (gone, sym e ∙ gone) (has-filter q t keys ∙ rw (sym e ∙ gone) refl)
      ]
  | inr other ↦ elim (Bool-cases (q k)) [
    | inl kept ↦ rw (kept, other) (has-filter q t keys)
    | inr gone ↦ rw (gone, other) (has-filter q t keys)
  ]
]
