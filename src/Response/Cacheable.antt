-- ===== src/Response/Cacheable.antt =====
-- packages/plugin-rest-cache/server/src/utils/middlewares/isCacheable.ts
use plugin_rest_cache.Prelude.{
  ℕ, ◌≤◌, ◌≡◌, refl, sym, ap, ◌∙◌, ◌≢◌, inl, inr, Bool, true, false, ◌&&◌, ◌||◌, not, none, some,
  [], ◌∷◌, arith, leb, ◌==◌, if◌then◌else◌, Bool-cases, Text, lit,
}
use plugin_rest_cache.Json.{Json}
use plugin_rest_cache.Response.{
  Body, value, stream, buffer, Response, get_header, body_truthy, truthy,
}
use plugin_rest_cache.Response.Spaces.{skip_space, after_word}

-- `(,|$)`
unfoldable pub ends : Text → Bool
ends [] = true
ends (c ∷ s) = c == b','

-- `word\s*(,|$)`
unfoldable pub word_ends : Text → Text → Bool
unfolding skip_space after_word ends
word_ends word s = elim (after_word word s) [ none ↦ false | some rest ↦ ends (skip_space rest) ]

-- `\s*(no-store|private)\s*(,|$)`, in any case.
unfoldable pub directive_at : Text → Bool
unfolding word_ends skip_space
directive_at s =
    word_ends (lit "no-store") (skip_space s) || word_ends (lit "private") (skip_space s)

-- The same behind some comma.
unfoldable pub directive_behind : Text → Bool
unfolding directive_at
directive_behind [] = false
directive_behind (c ∷ s) = (c == b',' && directive_at s) || directive_behind s

-- `/(^|,)\s*(no-store|private)\s*(,|$)/i.test(cacheControl)`
unfoldable pub forbids : Text → Bool
unfolding directive_at directive_behind
forbids s = directive_at s || directive_behind s

pub data Reason : Type 0 where
  responded empty_body : Reason
  other_status : ℕ → Reason
  streamed binary sets_cookie : Reason
  cache_control : Text → Reason

pub data CacheabilityVerdict : Type 0 where
  cacheable : CacheabilityVerdict
  refused : Reason → CacheabilityVerdict

-- The tests of the headers, in order: Set-Cookie, then Cache-Control.
unfoldable pub headers_verdict : Text → Text → CacheabilityVerdict
unfolding forbids
headers_verdict (_ ∷ _) control = refused sets_cookie
headers_verdict [] control = if forbids control then refused (cache_control control) else cacheable

-- The tests from `.pipe` on.
unfoldable pub body_verdict : Body → Response → CacheabilityVerdict
unfolding headers_verdict get_header
body_verdict stream ctx = refused streamed
body_verdict buffer ctx = refused binary
body_verdict (value _) ctx =
    headers_verdict (get_header (lit "Set-Cookie") ctx) (get_header (lit "Cache-Control") ctx)

unfoldable pub is_cacheable : Response → CacheabilityVerdict
unfolding body_verdict body_truthy
is_cacheable ctx =
    if not ctx.respond
    then refused responded
    else if not (body_truthy ctx.body)
    then refused empty_body
    else if not (leb 200 ctx.status && leb ctx.status 300)
    then refused (other_status ctx.status)
    else body_verdict ctx.body ctx

cacheable≢refused : {r : Reason} → cacheable ≢ refused r
cacheable≢refused e = cc

not-false : (b : Bool) → not b ≡ false → b ≡ true
not-false true h = refl
not-false false h = cc

-- What the response of an accepted request is.
pub record IsShareable (ctx : Response) (v : Json) : Type 0 where
  pub answered : ctx.respond ≡ true
  pub succeeded : (200 ≤ ctx.status) × (ctx.status ≤ 300)
  pub body : ctx.body ≡ value v
  pub not_empty : truthy v ≡ true
  pub no_cookie : get_header (lit "Set-Cookie") ctx ≡ []
  pub allowed : forbids (get_header (lit "Cache-Control") ctx) ≡ false

headers_verdict-cacheable :
    (cookie control : Text)
    → headers_verdict cookie control ≡ cacheable
    → (cookie ≡ []) × (forbids control ≡ false)
unfolding headers_verdict
headers_verdict-cacheable (c ∷ s) control h = cc
headers_verdict-cacheable [] control h = elim (Bool-cases (forbids control)) [
  | inl f ↦ absurd (cacheable≢refused {r = cache_control control} (sym h ∙ rw f refl))
  | inr f ↦ (refl, f)
]

body_verdict-cacheable :
    (body : Body) (ctx : Response)
    → body_verdict body ctx ≡ cacheable
    → (v : Json) × (body ≡ value v)
      × (headers_verdict (get_header (lit "Set-Cookie") ctx) (get_header (lit "Cache-Control") ctx)
          ≡ cacheable)
unfolding body_verdict
body_verdict-cacheable stream ctx h = cc
body_verdict-cacheable buffer ctx h = cc
body_verdict-cacheable (value v) ctx h = (v, refl, h)

refusing :
    (b : Bool) (r : Reason) (rest : CacheabilityVerdict)
    → (if b then refused r else rest) ≡ cacheable
    → (b ≡ false) × (rest ≡ cacheable)
refusing true r rest h = cc
refusing false r rest h = (refl, h)

in_range_bounds : (n : ℕ) → (leb 200 n && leb n 300) ≡ true → (200 ≤ n) × (n ≤ 300)
in_range_bounds n h = ground arith

in_range_true : (n : ℕ) → (200 ≤ n) × (n ≤ 300) → (leb 200 n && leb n 300) ≡ true
in_range_true n h = ground arith

pub shareable : (ctx : Response) → is_cacheable ctx ≡ cacheable → (v : Json) × IsShareable ctx v
unfolding is_cacheable
shareable ctx h =
    let in_range = leb 200 ctx.status && leb ctx.status 300 in
    let rest3 = body_verdict ctx.body ctx in
    let rest2 = if not in_range then refused (other_status ctx.status) else rest3 in
    let rest1 = if not (body_truthy ctx.body) then refused empty_body else rest2 in
    let (a, h1) = refusing (not ctx.respond) responded rest1 h in
    let (b, h2) = refusing (not (body_truthy ctx.body)) empty_body rest2 h1 in
    let (c, h3) = refusing (not in_range) (other_status ctx.status) rest3 h2 in
    let (v, is_value, h4) = body_verdict-cacheable ctx.body ctx h3 in
    let (no_cookie, allowed) =
      headers_verdict-cacheable (get_header (lit "Set-Cookie") ctx)
        (get_header (lit "Cache-Control") ctx) h4 in
    (
      v,
      record {
        answered = not-false ctx.respond a;
        succeeded = in_range_bounds ctx.status (not-false in_range c);
        body = is_value;
        not_empty = ap body_truthy (sym is_value) ∙ not-false (body_truthy ctx.body) b;
        no_cookie = no_cookie;
        allowed = allowed;
      },
    )

pub accepted : (ctx : Response) (v : Json) → IsShareable ctx v → is_cacheable ctx ≡ cacheable
unfolding is_cacheable headers_verdict
accepted ctx v s =
    rw (s.answered, s.body, in_range_true ctx.status s.succeeded)
      (rw (s.not_empty) (rw (s.no_cookie) (rw (s.allowed) refl)))
