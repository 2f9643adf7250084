-- ===== src/Patterns/Slashes.antt =====
-- packages/plugin-rest-cache/server/src/utils/config/getRouteRegExp.ts: the slashes
-- of a pattern with values in it.
use plugin_rest_cache.Prelude.{
  ℕ, zero, suc, ◌≡◌, refl, ap, ◌∙◌, ◌≢◌, Bool, true, false, ◌&&◌, ◌||◌, List, [], ◌∷◌, ◌++◌, arith,
  ◌==◌, if_false, Text, Free,
}
use plugin_rest_cache.Patterns.{slash_text, collapse_once, collapse_slashes}
use plugin_rest_cache.Patterns.Pieces.{Piece, raw, token}
use plugin_rest_cache.Patterns.Sources.{has_empty_segment, opens_slash, either_part, no_empty_later}

-- The pattern has the slashes of the pieces, and values without a slash.
abbrev pub Follows : List Piece → Text → Type 0
Follows [] pattern = pattern ≡ []
Follows (raw c ∷ ps) pattern = (rest : Text) × (pattern ≡ c ∷ rest) × Follows ps rest
Follows (token slash name more optional ∷ ps) pattern =
    (c : ℕ) × (value : Text) × (rest : Text) × (pattern ≡ slash_text slash ++ ((c ∷ value) ++ rest))
    × Free b'/' (c ∷ value)
    × Follows ps rest

abbrev pub first_slash : Text → Bool
first_slash [] = false
first_slash (c ∷ s) = c == b'/'

abbrev pub doubled : Text → Bool
doubled [] = false
doubled (c ∷ s) = (c == b'/' && first_slash s) || doubled s

pub collapse_once-undoubled : (s : Text) → doubled s ≡ false → collapse_once s ≡ s
unfolding collapse_once
collapse_once-undoubled [] h = refl
collapse_once-undoubled (c ∷ []) h = refl
collapse_once-undoubled (c ∷ d ∷ s) h =
    let (apart, later) = either_part (c == b'/' && d == b'/') _ h in
    if_false _ _ _ apart ∙ ap (◌∷◌ c) (collapse_once-undoubled (d ∷ s) later)

pub collapse_slashes-undoubled :
    (s : Text) (times : ℕ) → doubled s ≡ false → collapse_slashes s times ≡ s
unfolding collapse_slashes
collapse_slashes-undoubled s zero h = refl
collapse_slashes-undoubled s (suc times) h =
    ap (λ t. collapse_slashes t times) (collapse_once-undoubled s h)
    ∙ collapse_slashes-undoubled s times h

pub doubled-value : (value s : Text) → Free b'/' value → doubled (value ++ s) ≡ doubled s
doubled-value [] s h = refl
doubled-value (c ∷ value) s (h, hs) = ground (arith, doubled-value value s hs)

pub first-Follows :
    (p : Piece) (ps : List Piece) (s : Text) → Follows (p ∷ ps) s → first_slash s ≡ opens_slash p
unfolding slash_text
first-Follows (raw c) ps s (rest, e, h) = ap first_slash e
first-Follows (token true name more optional) ps s (c, value, rest, e, free, h) = ap first_slash e
first-Follows (token false name more optional) ps s (c, value, rest, e, (apart, free), h) =
    ap first_slash e ∙ ground arith

pub neither : (a b : Bool) → a ≡ false → b ≡ false → (a || b) ≡ false
neither a b h k = ground arith

pub nothing_doubled : (c : ℕ) → doubled (c ∷ []) ≡ false
nothing_doubled c = ground arith

pub no_slash_there : (c : ℕ) → c ≢ b'/' → (c == b'/') ≡ false
no_slash_there c apart = ground arith

pub undoubled-Follows :
    (ps : List Piece) (s : Text) → has_empty_segment ps ≡ false → Follows ps s → doubled s ≡ false
unfolding has_empty_segment slash_text
undoubled-Follows [] s k h = ap doubled h
undoubled-Follows (raw c ∷ []) s k (rest, e, h) =
    ap doubled e ∙ (ap (λ t. doubled (c ∷ t)) h ∙ nothing_doubled c)
undoubled-Follows (raw c ∷ p ∷ ps) s k (rest, e, h) =
    let (apart, later) = either_part (c == b'/' && opens_slash p) _ k in
    ap doubled e
    ∙ neither _ _ (ap (λ b. c == b'/' && b) (first-Follows p ps rest h) ∙ apart)
        (undoubled-Follows (p ∷ ps) rest later h)
undoubled-Follows (token true name more optional ∷ ps) s k (c, value, rest, e, (apart, free), h) =
    ap doubled e
    ∙ neither _ _ (no_slash_there c apart) (
        doubled-value (c ∷ value) rest (apart, free)
        ∙ undoubled-Follows ps rest (no_empty_later (token true name more optional) ps k) h)
undoubled-Follows (token false name more optional ∷ ps) s k (c, value, rest, e, free, h) =
    ap doubled e
    ∙ (doubled-value (c ∷ value) rest free
        ∙ undoubled-Follows ps rest (no_empty_later (token false name more optional) ps k) h)
