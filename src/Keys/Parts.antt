-- ===== src/Keys/Parts.antt =====
-- A comma-separated list of `name=value` pairs splits in one way only.
use mathlib.Core.Path.{ap₂, subst}
use mathlib.Core.List.{append_assoc}
use plugin_rest_cache.Prelude.{
  ℕ, ◌≡◌, refl, ap, sym, ◌∙◌, List, [], ◌∷◌, ◌++◌, map, Bool, true, arith, Text, All, Free,
  Free-append, cut_unique,
}
use plugin_rest_cache.Keys.Query.{join}
use plugin_rest_cache.Keys.Escape.Scalars.{FreeOf, is_separator, is_strict}

abbrev pub Pair : Type 0
Pair = Text × Text

abbrev pub pair_text : Pair → Text
pair_text p = p.0 ++ b'=' ∷ p.1

-- The name holds no separator, the value no `&` and no `=`.
abbrev pub IsPair : Pair → Type 0
IsPair p = FreeOf is_separator p.0 × FreeOf is_strict p.1

pub Free-of_FreeOf : (p : ℕ → Bool) (c : ℕ) (s : Text) → p c ≡ true → FreeOf p s → Free c s
Free-of_FreeOf p c [] h f = tt
Free-of_FreeOf p c (x ∷ s) h (g, f) = (λ e. cc (ap p e), Free-of_FreeOf p c s h f)

-- The value of the open pair, and the pairs behind it.
tail_text : Text → List Pair → Text
tail_text v [] = v
tail_text v (p ∷ ps) = v ++ b',' ∷ p.0 ++ b'=' ∷ tail_text p.1 ps

join-tail_text :
    (p : Pair) (ps : List Pair) → join (map pair_text (p ∷ ps)) ≡ p.0 ++ b'=' ∷ tail_text p.1 ps
unfolding join tail_text
join-tail_text p [] = refl
join-tail_text p (q ∷ ps) =
    append_assoc p.0 (b'=' ∷ p.1) (b',' ∷ join (map pair_text (q ∷ ps)))
    ∙ ap (λ r. p.0 ++ (b'=' ∷ (p.1 ++ b',' ∷ r))) (join-tail_text q ps)
    ∙ ap (λ r. p.0 ++ (b'=' ∷ r)) (sym (append_assoc p.1 (b',' ∷ q.0) (b'=' ∷ tail_text q.1 ps)))

inside_apart : (c : ℕ) (a b : Text) → Free c (a ++ c ∷ b) → ⊥
inside_apart c [] b h = h.0 refl
inside_apart c (x ∷ a) b h = inside_apart c a b h.1

-- A text splits at its last separator in one way only.
cut_last_unique :
    (c : ℕ) (a a' b b' : Text)
    → Free c b
    → Free c b'
    → a ++ c ∷ b ≡ a' ++ c ∷ b'
    → (a ≡ a') × (b ≡ b')
cut_last_unique c [] [] b b' h h' e = (refl, cc)
cut_last_unique c [] (x ∷ a') b b' h h' e =
    let inside : b ≡ a' ++ c ∷ b' = cc in absurd (inside_apart c a' b' (subst (Free c) inside h))
cut_last_unique c (x ∷ a) [] b b' h h' e =
    let inside : b' ≡ a ++ c ∷ b = cc in absurd (inside_apart c a b (subst (Free c) inside h'))
cut_last_unique c (x ∷ a) (y ∷ a') b b' h h' e =
    let (same, rest) = cut_last_unique c a a' b b' h h' (cc) in (ap₂ ◌∷◌ (cc) same, rest)

-- The text of a further pair holds a `=`, which a value does not.
last_apart :
    (v w : Text) (p : Pair) (ps : List Pair) → FreeOf is_strict v → v ≡ tail_text w (p ∷ ps) → ⊥
unfolding tail_text
last_apart v w p ps h e =
    inside_apart b'=' (w ++ b',' ∷ p.0) (tail_text p.1 ps)
      (subst (Free b'=') e (Free-of_FreeOf is_strict b'=' v refl h))

name_Free : (v : Text) (p : Pair) → FreeOf is_strict v → IsPair p → Free b'=' (v ++ b',' ∷ p.0)
name_Free v p h k =
    Free-append b'=' v (b',' ∷ p.0) (Free-of_FreeOf is_strict b'=' v refl h)
      (λ e. absurd (omega arith), Free-of_FreeOf is_separator b'=' p.0 refl k.0)

tail_text_unique :
    (v w : Text) (ps qs : List Pair)
    → FreeOf is_strict v
    → FreeOf is_strict w
    → All IsPair ps
    → All IsPair qs
    → tail_text v ps ≡ tail_text w qs
    → (v ≡ w) × (ps ≡ qs)
unfolding tail_text
tail_text_unique v w [] [] hv hw h k e = (e, refl)
tail_text_unique v w [] (q ∷ qs) hv hw h k e = absurd (last_apart v w q qs hv e)
tail_text_unique v w (p ∷ ps) [] hv hw h k e = absurd (last_apart w v p ps hw (sym e))
tail_text_unique v w (p ∷ ps) (q ∷ qs) hv hw (h, hs) (k, ks) e =
    let (front, back) =
      cut_unique b'=' (v ++ b',' ∷ p.0) (w ++ b',' ∷ q.0) _ _ (name_Free v p hv h)
        (name_Free w q hw k) e in
    let (values, names) =
      cut_last_unique b',' v w p.0 q.0 (Free-of_FreeOf is_separator b',' p.0 refl h.0)
        (Free-of_FreeOf is_separator b',' q.0 refl k.0) front in
    let (later, rest) = tail_text_unique p.1 q.1 ps qs h.1 k.1 hs ks back in
    (values, ap₂ ◌∷◌ (cc) rest)

empty_apart : (p : Pair) (ps : List Pair) → ◌≡◌ {A = Text} [] (join (map pair_text (p ∷ ps))) → ⊥
empty_apart p ps e = inside_apart b'=' p.0 _ (subst (Free b'=') (e ∙ join-tail_text p ps) tt)

-- A list of pairs can be read back from its text: no pair can pose as two, nor two as one.
pub join_unique :
    (ps qs : List Pair)
    → All IsPair ps
    → All IsPair qs
    → join (map pair_text ps) ≡ join (map pair_text qs)
    → ps ≡ qs
unfolding join
join_unique [] [] h k e = refl
join_unique [] (q ∷ qs) h k e = absurd (empty_apart q qs e)
join_unique (p ∷ ps) [] h k e = absurd (empty_apart p ps (sym e))
join_unique (p ∷ ps) (q ∷ qs) (h, hs) (k, ks) e =
    let (names, rest) =
      cut_unique b'=' p.0 q.0 _ _ (Free-of_FreeOf is_separator b'=' p.0 refl h.0)
        (Free-of_FreeOf is_separator b'=' q.0 refl k.0)
        (sym (join-tail_text p ps) ∙ e ∙ join-tail_text q qs) in
    let (values, later) = tail_text_unique p.1 q.1 ps qs h.1 k.1 hs ks rest in ap₂ ◌∷◌ (cc) later

pair_Free : (p : Pair) → IsPair p → Free b'&' (pair_text p)
pair_Free p h =
    Free-append b'&' p.0 (b'=' ∷ p.1) (Free-of_FreeOf is_separator b'&' p.0 refl h.0)
      (λ e. absurd (omega arith), Free-of_FreeOf is_strict b'&' p.1 refl h.1)

-- A list of pairs holds no `&`.
pub join-Free : (ps : List Pair) → All IsPair ps → Free b'&' (join (map pair_text ps))
unfolding join
join-Free [] h = tt
join-Free (p ∷ []) (h, _) = pair_Free p h
join-Free (p ∷ q ∷ ps) (h, hs) =
    Free-append b'&' (pair_text p) (b',' ∷ join (map pair_text (q ∷ ps))) (pair_Free p h)
      (λ e. absurd (omega arith), join-Free (q ∷ ps) hs)
