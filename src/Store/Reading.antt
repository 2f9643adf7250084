-- ===== src/Store/Reading.antt =====
-- packages/plugin-rest-cache/server/src/services/cacheStore.ts: what is read back.
use plugin_rest_cache.Prelude.{
  ℕ, ◌≡◌, ap, refl, ◌∙◌, ◌≢◌, inl, inr, true, Option, none, some, [], ◌∷◌, ◌++◌, if◌then◌else◌,
  Bool-cases, Text, lit, text_eq,
}
use plugin_rest_cache.Outcome.{resolved, fulfils, in_time}
use plugin_rest_cache.Json.{Json, str, obj, field, end}
use plugin_rest_cache.Json.Cost.{IsPrintable}
use plugin_rest_cache.Json.Parse.{parse}
use plugin_rest_cache.Json.RoundTrip.{parse-stringify}
use plugin_rest_cache.Store.{CacheStore, settle_read, read_entry, set, hand_on}
use plugin_rest_cache.Store.Entry.{
  CacheEntry, CacheEntryMeta, kept_type, serialize, destructure, deserialize_entry,
}
use plugin_rest_cache.Store.Contract.{Provider}
use plugin_rest_cache.Store.Log.{Purges}
use plugin_rest_cache.Store.Listing.{text_eq-append}
use plugin_rest_cache.Store.Lawful.{Lawful}

-- The entry that a stored response reads back as.
abbrev pub stored : Json → CacheEntryMeta → CacheEntry
stored value meta = record { data' = some value; type = kept_type meta.type }

no_text : (v : Json) → parse [] ≢ some v
unfolding parse
no_text v e = cc

deserialize_parsed :
    (s : Text) (v : Json) → parse s ≡ some v → deserialize_entry (some s) ≡ destructure v
unfolding deserialize_entry
deserialize_parsed [] v e = absurd (no_text v e)
deserialize_parsed (c ∷ s) v e = rw (e, deserialize_entry) refl

destructure_typed :
    (value : Json) (c : ℕ) (t : Text)
    → destructure (obj (field (lit "data") value (field (lit "type") (str (c ∷ t)) end)))
      ≡ resolved (some (record { data' = some value; type = some (c ∷ t) }))
unfolding destructure text_eq
destructure_typed value c t = refl

destructure_untyped :
    (value : Json)
    → destructure (obj (field (lit "data") value end))
      ≡ resolved (some (record { data' = some value; type = none }))
unfolding destructure text_eq
destructure_untyped value = refl

stored_at :
    (value : Json) (type : Option Text)
    → IsPrintable value
    → deserialize_entry (some (serialize value (record { type = type })))
      ≡ resolved (some (record { data' = some value; type = kept_type type }))
unfolding serialize
stored_at value none h =
    deserialize_parsed _ _ (parse-stringify (obj (field (lit "data") value end)) (h, tt))
    ∙ destructure_untyped value
stored_at value (some []) h =
    deserialize_parsed _ _ (parse-stringify (obj (field (lit "data") value end)) (h, tt))
    ∙ destructure_untyped value
stored_at value (some (c ∷ t)) h =
    deserialize_parsed _ _ (
      parse-stringify (obj (field (lit "data") value (field (lit "type") (str (c ∷ t)) end)))
        (h, (tt, tt)))
    ∙ destructure_typed value c t

-- What serialize writes, deserializeEntry reads back: the data, and the type unless it is empty, if
-- the data's numbers are printed numbers.
pub deserialize_entry-serialize :
    (value : Json) (meta : CacheEntryMeta)
    → IsPrintable value
    → deserialize_entry (some (serialize value meta)) ≡ resolved (some (stored value meta))
deserialize_entry-serialize value meta h = stored_at value meta.type h

pub settle_read-serialize :
    (val : Json) (meta : CacheEntryMeta)
    → IsPrintable val
    → settle_read (in_time (fulfils (some (serialize val meta)))) ≡ some (stored val meta)
unfolding settle_read
settle_read-serialize val meta h = rw (deserialize_entry-serialize val meta h, settle_read) refl

module _ {P : Type 0} (api : Provider P) (lawful : Lawful api) (prefix : Text) where
  open lawful use {view, get-view, set-view}

  abbrev serving : P → Purges → CacheStore P
  serving p g = record { provider = some p; purges = g }

  -- What `getEntry` gives for a text that the provider holds.
  abbrev pub entry_of : Option Text → Option CacheEntry
  entry_of raw = settle_read (in_time (fulfils raw))

  pub read_entry_lem :
      (key : Text) (p : P) (g : Purges)
      → api.ready p ≡ true
      → (read_entry api prefix key (serving p g)).0 ≡ entry_of (view p (prefix ++ key))
  unfolding read_entry
  read_entry_lem key p g r =
      let (reply, still, after) = get-view (prefix ++ key) p r in rw (r, read_entry) (rw reply refl)

  nothing_stored : entry_of none ≡ none
  unfolding settle_read deserialize_entry
  nothing_stored = refl

  -- Where the provider holds nothing under a key, `getEntry` finds nothing.
  pub read_entry-none :
      (key : Text) (p : P) (store : CacheStore P)
      → store.provider ≡ some p
      → api.ready p ≡ true
      → view p (prefix ++ key) ≡ none
      → (read_entry api prefix key store).0 ≡ none
  read_entry-none key p store kept r absent =
      ap (λ o. (read_entry api prefix key (record { provider = o; purges = store.purges })).0) kept
      ∙ (read_entry_lem key p store.purges r ∙ (ap entry_of absent ∙ nothing_stored))

  pub set_lem :
      (key : Text) (val : Json) (max_age : ℕ) (meta : CacheEntryMeta) (p : P) (g : Purges)
      → api.ready p ≡ true
      → set api prefix key val max_age meta (serving p g)
        ≡ (resolved tt, serving (api.set (prefix ++ key) (serialize val meta) max_age p).1 g)
  unfolding set
  set_lem key val max_age meta p g r =
      let (reply, still, after) = set-view (prefix ++ key) (serialize val meta) max_age p r in
      rw (r, set) (rw (reply, hand_on) refl)

  -- With a provider that keeps its laws and is ready, after a set of a value whose numbers are printed
  -- numbers, getEntry of that key gives the value and a type that is not empty, and getEntry of any
  -- other key gives what it gave before.
  pub read_entry-set :
      (j key : Text) (val : Json) (max_age : ℕ) (meta : CacheEntryMeta) (p : P) (g : Purges)
      → api.ready p ≡ true
      → IsPrintable val
      → (read_entry api prefix j (set api prefix key val max_age meta (serving p g)).1).0 ≡ (
          if text_eq j key
          then some (stored val meta)
          else (read_entry api prefix j (serving p g)).0)
  read_entry-set j key val max_age meta p g r h =
      let (reply, still, after) = set-view (prefix ++ key) (serialize val meta) max_age p r in
      let p' = (api.set (prefix ++ key) (serialize val meta) max_age p).1 in
      rw (set_lem key val max_age meta p g r, read_entry_lem j p' g still, read_entry_lem j p g r)
        (rw (after (prefix ++ j), text_eq-append prefix j key)
          (elim (Bool-cases (text_eq j key)) [
            | inl same ↦ rw same (settle_read-serialize val meta h)
            | inr other ↦ rw other refl
          ]))

  -- A read of a ready provider leaves it ready, with what it holds.
  pub read_entry_run :
      (key : Text) (p : P) (g : Purges)
      → api.ready p ≡ true
      → read_entry api prefix key (serving p g)
        ≡ (entry_of (view p (prefix ++ key)), serving (api.get (prefix ++ key) p).1 g)
  unfolding read_entry
  read_entry_run key p g r =
      let (reply, still, after) = get-view (prefix ++ key) p r in rw (r, read_entry) (rw reply refl)
