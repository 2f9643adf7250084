-- ===== src/Keys/Paths.antt =====
-- The path part of a key holds a `?` only if the request path does.
use plugin_rest_cache.Prelude.{
  Bool, true, false, [], ◌∷◌, ◌++◌, List, arith, ◌==◌, Text, lit, All, Free, Free-append,
  Bool-cases, inl, inr,
}
use plugin_rest_cache.Context.{to_lower_case}
use plugin_rest_cache.Keys.Path.{
  segments_from, resolve, resolve_all, join_slash, finish, normalize, strip_slash, request_path,
}

abbrev FreeOfMark : Text → Type 0
FreeOfMark = Free b'?'

to_lower_case-Free : (s : Text) → FreeOfMark s → FreeOfMark (to_lower_case s)
unfolding to_lower_case
to_lower_case-Free [] h = tt
to_lower_case-Free (c ∷ s) (h, hs) = (ground arith, to_lower_case-Free s hs)

segments_from-Free :
    (cur s : Text) → FreeOfMark cur → FreeOfMark s → All FreeOfMark (segments_from cur s)
unfolding segments_from
segments_from-Free cur [] h k = (h, tt)
segments_from-Free cur (c ∷ s) h (k, ks) = elim (Bool-cases (c == b'/')) [
  | inl slash ↦ rw slash (h, segments_from-Free [] s tt ks)
  | inr other ↦
      rw other (segments_from-Free (cur ++ c ∷ []) s (Free-append b'?' cur (c ∷ []) h (k, tt)) ks)
]

resolve-Free :
    (above : Bool) (kept : List Text) (s : Text)
    → All FreeOfMark kept
    → FreeOfMark s
    → All FreeOfMark (resolve above kept s)
unfolding resolve
resolve-Free above kept [] h k = h
resolve-Free above [] (c ∷ s) h k = ground arith
resolve-Free above (top ∷ kept) (c ∷ s) h k = ground arith

resolve_all-Free :
    (above : Bool) (kept ss : List Text)
    → All FreeOfMark kept
    → All FreeOfMark ss
    → All FreeOfMark (resolve_all above kept ss)
unfolding resolve_all
resolve_all-Free above kept [] h k = h
resolve_all-Free above kept (s ∷ ss) h (k, ks) =
    resolve_all-Free above (resolve above kept s) ss (resolve-Free above kept s h k) ks

join_slash-Free : (ss : List Text) → All FreeOfMark ss → FreeOfMark (join_slash ss)
unfolding join_slash
join_slash-Free [] h = tt
join_slash-Free (s ∷ []) h = h.0
join_slash-Free (s ∷ t ∷ ss) (h, hs) =
    Free-append b'?' (join_slash (t ∷ ss)) (b'/' ∷ s) (join_slash-Free (t ∷ ss) hs)
      (λ e. absurd (omega arith), h)

finish-Free :
    (absolute trailing : Bool) (s : Text) → FreeOfMark s → FreeOfMark (finish absolute trailing s)
finish-Free true trailing [] h = (λ e. absurd (omega arith), tt)
finish-Free false true [] h = (λ e. absurd (omega arith), (λ e. absurd (omega arith), tt))
finish-Free false false [] h = (λ e. absurd (omega arith), tt)
finish-Free true true (c ∷ s) h = (
  λ e. absurd (omega arith),
  Free-append b'?' (c ∷ s) (lit "/") h (λ e. absurd (omega arith), tt),
)
finish-Free false true (c ∷ s) h =
    Free-append b'?' (c ∷ s) (lit "/") h (λ e. absurd (omega arith), tt)
finish-Free true false (c ∷ s) h = (λ e. absurd (omega arith), h)
finish-Free false false (c ∷ s) h = h

normalize-Free : (p : Text) → FreeOfMark p → FreeOfMark (normalize p)
unfolding normalize
normalize-Free [] h = (λ e. absurd (omega arith), tt)
normalize-Free (c ∷ s) h =
    finish-Free _ _ _
      (join_slash-Free _ (resolve_all-Free _ [] _ tt (segments_from-Free [] (c ∷ s) tt h)))

strip_slash-Free : (p : Text) → FreeOfMark p → FreeOfMark (strip_slash p)
unfolding strip_slash
strip_slash-Free [] h = tt
strip_slash-Free (c ∷ []) h = ground arith
strip_slash-Free (c ∷ d ∷ s) (h, hs) = (h, strip_slash-Free (d ∷ s) hs)

pub request_path-Free : (p : Text) → Free b'?' p → Free b'?' (request_path p)
unfolding request_path
request_path-Free p h = strip_slash-Free _ (to_lower_case-Free _ (normalize-Free p h))
