-- ===== src/Uri/Inject.antt =====
-- The escapes of code points form a prefix code, so `encodeURIComponent` is injective.
use mathlib.Core.Option
use plugin_rest_cache.Prelude.{
  ℕ, ◌/◌, ◌%◌, ◌<◌, ◌≡◌, refl, ◌≢◌, sym, ap, ◌∙◌, List, [], ◌∷◌, true, some, arith, ltb,
  if◌then◌else◌, Text, All, length,
}
use mathlib.Core.Path.{ap₂}
use plugin_rest_cache.Uri.{
  utf8, upper_hex_digit, percent, is_unreserved, encode_point, encode_points, encode_uri_component,
}
use plugin_rest_cache.Uri.Points.{IsUtf16, code_points-injective, ArePoints, code_points-bounded}

upper_hex_digit-injective :
    (d e : ℕ) → d < 16 → e < 16 → upper_hex_digit d ≡ upper_hex_digit e → d ≡ e
unfolding upper_hex_digit
upper_hex_digit-injective d e h k p = ground arith

abbrev pub AreBytes : List ℕ → Type 0
AreBytes = All (λ b. b < 256)

same_byte : (b c : ℕ) → b / 16 ≡ c / 16 → b % 16 ≡ c % 16 → b ≡ c
same_byte b c h k = omega arith

percent_head :
    (b c : ℕ) (bs cs : List ℕ) (k l : Text)
    → b < 256
    → c < 256
    → percent (b ∷ bs) k ≡ percent (c ∷ cs) l
    → (b ≡ c) × (percent bs k ≡ percent cs l)
unfolding percent
percent_head b c bs cs k l h h' e = (
  same_byte b c (upper_hex_digit-injective (b / 16) (c / 16) (omega arith) (omega arith) (cc))
      (upper_hex_digit-injective (b % 16) (c % 16) (omega arith) (omega arith) (cc)),
  cc,
)

percent_cancel :
    (bs cs : List ℕ) (k l : Text)
    → AreBytes bs
    → AreBytes cs
    → length bs ≡ length cs
    → percent bs k ≡ percent cs l
    → (bs ≡ cs) × (k ≡ l)
unfolding percent
percent_cancel [] [] k l h h' n e = (refl, e)
percent_cancel [] (c ∷ cs) k l h h' n e = absurd (omega arith)
percent_cancel (b ∷ bs) [] k l h h' n e = absurd (omega arith)
percent_cancel (b ∷ bs) (c ∷ cs) k l (h, hs) (h', hs') n e =
    let (same, rest) = percent_head b c bs cs k l h h' e in
    let (sames, ends) = percent_cancel bs cs k l hs hs' (omega arith) rest in
    (ap₂ ◌∷◌ same sames, ends)

-- How many bytes a lead byte announces.
announced : ℕ → ℕ
announced b = if ltb b 0xc0 then 1 else if ltb b 0xe0 then 2 else if ltb b 0xf0 then 3 else 4

announced_length : List ℕ → ℕ
announced_length [] = 0
announced_length (b ∷ bs) = announced b

utf8-announced : (c : ℕ) → c < 0x110000 → length (utf8 c) ≡ announced_length (utf8 c)
unfolding utf8 announced announced_length
utf8-announced c h = ground arith

pub utf8-bytes : (c : ℕ) → c < 0x110000 → AreBytes (utf8 c)
unfolding utf8
utf8-bytes c h = ground arith

pub utf8_pos : (c : ℕ) → 0 < length (utf8 c)
unfolding utf8
utf8_pos c = ground arith

percent-announced :
    (bs cs : List ℕ) (k l : Text)
    → AreBytes bs
    → AreBytes cs
    → 0 < length bs
    → 0 < length cs
    → percent bs k ≡ percent cs l
    → announced_length bs ≡ announced_length cs
unfolding announced_length
percent-announced [] cs k l h h' n m e = absurd (omega arith)
percent-announced (b ∷ bs) [] k l h h' n m e = absurd (omega arith)
percent-announced (b ∷ bs) (c ∷ cs) k l h h' n m e =
    ap announced (percent_head b c bs cs k l h.0 h'.0 e).0

utf8-injective : (c d : ℕ) → c < 0x110000 → d < 0x110000 → utf8 c ≡ utf8 d → c ≡ d
unfolding utf8
utf8-injective c d h k e = ground arith

escapes_cancel :
    (c d : ℕ) (k l : Text)
    → c < 0x110000
    → d < 0x110000
    → percent (utf8 c) k ≡ percent (utf8 d) l
    → (c ≡ d) × (k ≡ l)
escapes_cancel c d k l h h' e =
    let bytes = utf8-bytes c h in
    let bytes' = utf8-bytes d h' in
    let lead = percent-announced (utf8 c) (utf8 d) k l bytes bytes' (utf8_pos c) (utf8_pos d) e in
    let long : length (utf8 c) ≡ length (utf8 d) =
      omega (arith, utf8-announced c h, utf8-announced d h', lead) in
    let (same, ends) = percent_cancel (utf8 c) (utf8 d) k l bytes bytes' long e in
    (utf8-injective c d h h' same, ends)

-- An escape starts with `%`, which is no unreserved unit.
unreserved_apart : (c d : ℕ) (k l : Text) → is_unreserved c ≡ true → c ∷ k ≡ percent (utf8 d) l → ⊥
unfolding is_unreserved percent utf8
unreserved_apart c d k l h e = ground arith

encode_point_cancel :
    (c d : ℕ) (k l : Text)
    → c < 0x110000
    → d < 0x110000
    → encode_point c k ≡ encode_point d l
    → (c ≡ d) × (k ≡ l)
unfolding encode_point
encode_point_cancel c d k l h h' e =
    ground (arith, escapes_cancel c d k l h h', unreserved_apart c d k l, unreserved_apart d c l k)

encode_point-cons : (c : ℕ) (k : Text) → encode_point c k ≢ []
unfolding encode_point percent utf8
encode_point-cons c k e = ground arith

encode_points-injective :
    (ps qs : List ℕ) → ArePoints ps → ArePoints qs → encode_points ps ≡ encode_points qs → ps ≡ qs
unfolding encode_points
encode_points-injective [] [] h h' e = refl
encode_points-injective [] (q ∷ qs) h h' e = absurd (encode_point-cons q _ (sym e))
encode_points-injective (p ∷ ps) [] h h' e = absurd (encode_point-cons p _ e)
encode_points-injective (p ∷ ps) (q ∷ qs) (h, hs) (h', hs') e =
    let (same, rest) = encode_point_cancel p q _ _ h h' e in
    ap₂ ◌∷◌ same (encode_points-injective ps qs hs hs' rest)

-- Two texts of 16-bit units that encodeURIComponent maps to one text are equal.
pub encode_uri_component-injective :
    (s t : Text) {e : Text}
    → IsUtf16 s
    → IsUtf16 t
    → encode_uri_component s ≡ some e
    → encode_uri_component t ≡ some e
    → s ≡ t
unfolding encode_uri_component
encode_uri_component-injective s t h h' p q =
    let (ps, here, same) = (Option.map-eq-some_iff _ _).0 p in
    let (qs, there, same') = (Option.map-eq-some_iff _ _).0 q in
    let points =
      encode_points-injective ps qs (code_points-bounded s h here) (code_points-bounded t h' there)
        (same ∙ sym same') in
    code_points-injective s t h h' here (there ∙ ap some (sym points))
