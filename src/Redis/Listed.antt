-- ===== src/Redis/Listed.antt =====
-- packages/provider-rest-cache-redis/src/RedisCacheProvider.ts: what keys() lists.
use mathlib.Core.List.{Memᴰ}
use plugin_rest_cache.Prelude.{
  ℕ, zero, suc, ◌<◌, ◌≡◌, refl, sym, ap, ◌⊎◌, inl, inr, Bool, true, false, ◌||◌, Option, some, List,
  [], ◌∷◌, ◌++◌, map, arith, Bool-cases, or_cases, any-append, Text, lit, text_eq, text_eq_sound,
  text_eq_refl, starts_with-append, drop-append,
}
use plugin_rest_cache.Outcome.{Outcome, resolved}
use plugin_rest_cache.Redis.{KeyvRedisStore}
use plugin_rest_cache.Redis.Names.{
  Listings, prefix_of, unqualified, truthy, named, also, scan_node, scan_nodes, nodes_of,
  logical_name, scanned_keys, keys,
}
use plugin_rest_cache.Store.Listing.{has}

pub unqualified_lem : (prefix key : Text) → unqualified prefix (prefix ++ key) ≡ key
unfolding unqualified
unqualified_lem prefix key = rw (starts_with-append prefix key) (drop-append prefix key)

logical_name_lem :
    (namespace set_name key : Text)
    → logical_name namespace set_name (named set_name ++ (prefix_of namespace ++ key)) ≡ key
unfolding logical_name
logical_name_lem namespace set_name key =
    rw (drop-append (named set_name) (prefix_of namespace ++ key))
      (unqualified_lem (prefix_of namespace) key)

or_true : (b : Bool) → (b || true) ≡ true
or_true b = ground arith

pub has-map :
    (f : Text → Text) (names : List Text) (j : Text)
    → has names j ≡ true
    → has (map f names) (f j) ≡ true
has-map f [] j h = cc
has-map f (n ∷ names) j h = elim (or_cases (text_eq j n) (has names j) h) [
  | inl same ↦ rw (ap f (text_eq_sound j n same), text_eq_refl (f n)) refl
  | inr later ↦ rw (has-map f names j later) (or_true (text_eq (f j) (f n)))
]

member_cases {ℓ} : {A : Type ℓ} (a x : A) (xs : List A) → Memᴰ a (x ∷ xs) → (a ≡ x) ⊎ Memᴰ a xs
member_cases a x xs (Memᴰ.head e) = inl e
member_cases a x xs (Memᴰ.tail m) = inr m

module _ {R : Type 0} (listings : Listings R) (r : R) where
  -- A full iteration from a cursor comes to a page with the name.
  pub data Yields (node : ℕ) (pattern : Text) : Text → Text → Type 0 where
    on_page :
        (cursor next j : Text) (batch : List Text)
        → listings.scan node cursor pattern r ≡ resolved (next, batch)
        → has batch j ≡ true
        → Yields node pattern cursor j
    on_later :
        (cursor next j : Text) (batch : List Text)
        → listings.scan node cursor pattern r ≡ resolved (next, batch)
        → text_eq next (lit "0") ≡ false
        → Yields node pattern next j
        → Yields node pattern cursor j

  -- Every page is answered, and the cursors run out.
  abbrev pub Ends : (Text → ℕ) → Type 0
  Ends rank =
      (node : ℕ) (cursor pattern : Text)
      → (next : Text) × (batch : List Text) × (listings.scan node cursor pattern r
          ≡ resolved (next, batch))
        × (text_eq next (lit "0") ≡ false → rank next < rank cursor)

  Yields-first :
      (node : ℕ) (pattern cursor j next : Text) (batch : List Text)
      → Yields node pattern cursor j
      → listings.scan node cursor pattern r ≡ resolved (next, batch)
      → (has batch j ≡ true) ⊎ ((text_eq next (lit "0") ≡ false) × Yields node pattern next j)
  Yields-first node pattern cursor j next batch (on_page _ next' _ batch' e here) page =
      let same : batch' ≡ batch = cc in inl (rw (sym same) here)
  Yields-first node pattern cursor j next batch (on_later _ next' _ batch' e more later) page =
      let same : next' ≡ next = cc in inr (rw (sym same) (more, later))

  abbrev Found : Option (Outcome (List Text)) → (Text → Type 0) → Type 0
  Found answer Seen =
      (found : List Text) × (answer ≡ some (resolved found))
      × ((j : Text) → Seen j → has found j ≡ true)

  scan_node_lem :
      (rank : Text → ℕ)
      → Ends rank
      → (f node : ℕ) (pattern cursor : Text) → rank cursor < f
      → Found (scan_node listings f node pattern cursor r) (Yields node pattern cursor)
  unfolding scan_node also
  scan_node_lem rank ends zero node pattern cursor h = absurd (omega arith)
  scan_node_lem rank ends (suc f) node pattern cursor h =
      let (next, batch, page, falls) = ends node cursor pattern in
      elim (Bool-cases (text_eq next (lit "0"))) [
        | inl last ↦ (
          batch,
          rw (page, scan_node, last) refl,
          λ j y. elim (Yields-first node pattern cursor j next batch y page) [
            | inl here ↦ here
            | inr (more, _) ↦ cc
          ],
        )
        | inr more ↦
            let lower = falls more in
            let (found, ran, seen) = scan_node_lem rank ends f node pattern next (omega arith) in
            (
              batch ++ found,
              rw (page, scan_node, more, ran) refl,
              λ j y. elim (Yields-first node pattern cursor j next batch y page) [
                | inl here ↦ rw (any-append (text_eq j) batch found, here) refl
                | inr (_, later) ↦
                    rw (any-append (text_eq j) batch found, seen j later) (or_true (has batch j))
              ],
            )
      ]

  scan_nodes_lem :
      (rank : Text → ℕ)
      → Ends rank
      → (f : ℕ) → rank (lit "0") < f
      → (pattern : Text) (nodes : List ℕ)
      → Found
          (scan_nodes listings f pattern nodes r)
          (λ j. (node : ℕ) × Memᴰ node nodes × Yields node pattern (lit "0") j)
  unfolding scan_nodes also
  scan_nodes_lem rank ends f h pattern [] = ([], refl, λ j (node, m, y). elim m [ ])
  scan_nodes_lem rank ends f h pattern (node ∷ nodes) =
      let (found, ran, seen) = scan_node_lem rank ends f node pattern (lit "0") h in
      let (others, rest, seen_later) = scan_nodes_lem rank ends f h pattern nodes in
      (
        found ++ others,
        rw (ran, scan_nodes, rest) refl,
        λ j (n, m, y).
            rw (any-append (text_eq j) found others) (elim (member_cases n node nodes m) [
              | inl e ↦ rw (seen j (rw e at y)) refl
              | inr later ↦ rw (seen_later j (n, later, y)) (or_true (has found j))
            ]),
      )

  -- Without a tracking set, keys() ends with a list that has the key of every entry that a full SCAN
  -- of one of the nodes comes to, if every page is answered and the cursors run out.
  pub keys-scan :
      (store : KeyvRedisStore) (namespace set_name : Text)
      → store.has_client ≡ true
      → truthy store.namespace ≡ some namespace
      → truthy store.tracking_set ≡ some set_name
      → store.use_redis_sets ≡ false
      → (rank : Text → ℕ) → Ends rank
      → (f : ℕ) → rank (lit "0") < f
      → (listed : List Text) × (keys listings f store r ≡ some (resolved listed))
        × ((node : ℕ) (key : Text)
            → Memᴰ node (nodes_of listings store)
            → Yields node
                (named set_name ++ b'*' ∷ [])
                (lit "0")
                (named set_name ++ (prefix_of namespace ++ key))
            → has listed key ≡ true)
  unfolding keys scanned_keys logical_name
  keys-scan store namespace set_name client ns sn off rank ends f h =
      let pattern = named set_name ++ b'*' ∷ [] in
      let (found, ran, seen) = scan_nodes_lem rank ends f h pattern (nodes_of listings store) in
      (
        map (logical_name namespace set_name) found,
        rw (client, keys, ns, keys, sn, keys, off, scanned_keys, ran) refl,
        λ node key m y. rw (sym (logical_name_lem namespace set_name key)) (
            has-map (logical_name namespace set_name) found
              (named set_name ++ (prefix_of namespace ++ key)) (seen _ (node, m, y))),
      )
