-- ===== src/Keys/Path.antt =====
-- The path part of the key: `path.posix.normalize`, lower case, and no trailing slash.
use plugin_rest_cache.Prelude.{
  Bool, false, not, ◌&&◌, List, [], ◌∷◌, ◌++◌, ◌==◌, if◌then◌else◌, Text, lit, text_eq,
}
use plugin_rest_cache.Context.{to_lower_case}

-- The segments between slashes, first to last; `cur` is the open one.
unfoldable pub segments_from : Text → Text → List Text
segments_from cur [] = cur ∷ []
segments_from cur (c ∷ s) =
    let closed = cur ∷ segments_from [] s in
    let longer = segments_from (cur ++ c ∷ []) s in if c == b'/' then closed else longer

-- One segment of Node's normalizeString; the kept segments stand last first.
unfoldable pub resolve : Bool → List Text → Text → List Text
resolve above kept [] = kept
resolve above [] (c ∷ s) =
    if text_eq (c ∷ s) (lit ".")
    then []
    else if text_eq (c ∷ s) (lit "..") && not above
    then []
    else (c ∷ s) ∷ []
resolve above (top ∷ kept) (c ∷ s) =
    if text_eq (c ∷ s) (lit ".")
    then top ∷ kept
    else if text_eq (c ∷ s) (lit "..")
    then (if text_eq top (lit "..") then (c ∷ s) ∷ top ∷ kept else kept)
    else (c ∷ s) ∷ top ∷ kept

unfoldable pub resolve_all : Bool → List Text → List Text → List Text
unfolding resolve
resolve_all above kept [] = kept
resolve_all above kept (s ∷ ss) = resolve_all above (resolve above kept s) ss

-- The kept segments, joined by slashes.
unfoldable pub join_slash : List Text → Text
join_slash [] = []
join_slash (s ∷ []) = s
join_slash (s ∷ t ∷ ss) = join_slash (t ∷ ss) ++ b'/' ∷ s

abbrev pub is_absolute : Text → Bool
is_absolute [] = false
is_absolute (c ∷ s) = c == b'/'

unfoldable pub ends_with_slash : Text → Bool
ends_with_slash [] = false
ends_with_slash (c ∷ []) = c == b'/'
ends_with_slash (c ∷ d ∷ s) = ends_with_slash (d ∷ s)

abbrev pub finish : Bool → Bool → Text → Text
finish absolute trailing [] = if absolute then lit "/" else if trailing then lit "./" else lit "."
finish absolute trailing (c ∷ s) =
    let body = if trailing then (c ∷ s) ++ lit "/" else c ∷ s in
    if absolute then b'/' ∷ body else body

-- `path.posix.normalize(p)`.
unfoldable pub normalize : Text → Text
unfolding segments_from resolve_all join_slash ends_with_slash
normalize [] = lit "."
normalize (c ∷ s) =
    let absolute = is_absolute (c ∷ s) in
    finish absolute (ends_with_slash (c ∷ s))
      (join_slash (resolve_all (not absolute) [] (segments_from [] (c ∷ s))))

-- `p.replace(/\/$/, '')`
unfoldable pub strip_slash : Text → Text
strip_slash [] = []
strip_slash (c ∷ []) = if c == b'/' then [] else c ∷ []
strip_slash (c ∷ d ∷ s) = c ∷ strip_slash (d ∷ s)

unfoldable pub request_path : Text → Text
unfolding normalize strip_slash
request_path p = strip_slash (to_lower_case (normalize p))
