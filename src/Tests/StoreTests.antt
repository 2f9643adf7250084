-- ===== src/Tests/StoreTests.antt =====
-- packages/plugin-rest-cache/server/src/services/cacheStore.ts: runs of the store.
use plugin_rest_cache.Prelude.{
  ◌-◌, ◌≡◌, refl, true, none, some, List, [], ◌∷◌, arith, leb, if◌then◌else◌, length, take, any,
  Text, lit, text_eq, starts_with,
}
use plugin_rest_cache.Outcome.{resolved}
use plugin_rest_cache.Json.{Json, str, obj, end, field}
use plugin_rest_cache.Store.{CacheStore, read_entry, set, clear_by_regexp, reset, del_many}
use plugin_rest_cache.Store.Entry.{CacheEntryMeta, serialize}
use plugin_rest_cache.Store.Log.{
  Patterns, RegExp, no_purges, covers, purged_since, record_purge, purge_log_size,
}
use plugin_rest_cache.Store.History.{purges, purged_since-purges}
use plugin_rest_cache.Store.Table.{Table, table_api, table_lawful, held}
use plugin_rest_cache.Store.Clearing.{Leaves, clear_by_regexp_lem, reset_lem, after_purge}
use plugin_rest_cache.Store.Reading.{stored, read_entry-set}
use plugin_rest_cache.Store.Failing.{
  clear_by_regexp_outcome, other_outcomes, outcome_if, listing_rejected, writing_rejected,
}

abbrev prefix : Text
prefix = lit "cms:"

abbrev articles : RegExp
articles key = starts_with key (lit "/api/articles")

abbrev table : Table
table =
    (lit "cms:/api/articles", lit "{\"data\":1}")
    ∷ (lit "cms:/api/pages", lit "{\"data\":2}")
    ∷ (lit "other", lit "kept")
    ∷ []

abbrev store : CacheStore Table
store = record { provider = some table; purges = no_purges }

abbrev two_purges : List Patterns
two_purges = some [] ∷ some (articles ∷ []) ∷ []

purged_since-purges_example : purged_since (purges two_purges) 0 (lit "/api/articles") ≡ (
    if leb (length two_purges - 0) purge_log_size
    then any (covers (lit "/api/articles")) (take (length two_purges - 0) two_purges)
    else true)
purged_since-purges_example = purged_since-purges two_purges 0 (lit "/api/articles") (omega arith)

clear_by_regexp_lem_example :
    Leaves table_api table_lawful prefix
      (record_purge (some (articles ∷ [])) no_purges)
      (after_purge table_api table_lawful prefix (articles ∷ []) (held table))
      (clear_by_regexp table_api prefix (articles ∷ []) store)
clear_by_regexp_lem_example =
    clear_by_regexp_lem table_api table_lawful prefix (articles ∷ []) table no_purges refl

reset_lem_example :
    Leaves table_api table_lawful prefix
      (record_purge none no_purges)
      (λ j. if starts_with j prefix then none else held table j)
      (reset table_api prefix store)
reset_lem_example = reset_lem table_api table_lawful prefix table no_purges refl

abbrev article : Json
article = obj (field (lit "title") (str (lit "A")) end)

abbrev meta : CacheEntryMeta
meta = record { type = none }

read_entry-set_example :
    (read_entry table_api prefix
      (lit "/api/tags")
      (set table_api prefix (lit "/api/tags") article 1000 meta store).1).0
    ≡ (if text_eq (lit "/api/tags") (lit "/api/tags")
        then some (stored article meta)
        else (read_entry table_api prefix (lit "/api/tags") store).0)
read_entry-set_example =
    read_entry-set table_api table_lawful prefix (lit "/api/tags") (lit "/api/tags") article 1000
      meta table no_purges refl (tt, tt)

clear_by_regexp_outcome_example :
    ((clear_by_regexp table_api prefix (articles ∷ []) store).0
      ≡ outcome_if (listing_rejected table_api prefix store))
    × ((clear_by_regexp table_api prefix (articles ∷ []) store).1.purges
        ≡ record_purge (some (articles ∷ [])) no_purges)
clear_by_regexp_outcome_example = clear_by_regexp_outcome table_api prefix (articles ∷ []) store

other_outcomes_example :
    ((reset table_api prefix store).0 ≡ resolved tt)
    × ((del_many table_api prefix (lit "/api/tags" ∷ []) store).0 ≡ resolved tt)
    × ((set table_api prefix (lit "/api/tags") article 1000 meta store).0
        ≡ outcome_if (
            writing_rejected table_api prefix
              (lit "/api/tags")
              (serialize article meta)
              1000
              store))
other_outcomes_example =
    other_outcomes table_api prefix (lit "/api/tags") article 1000 meta (lit "/api/tags" ∷ []) store

-- The purge removes the article, and leaves the page and the key without the prefix.
cleared :
    (clear_by_regexp table_api prefix (articles ∷ []) store).1.provider
    ≡ some ((lit "cms:/api/pages", lit "{\"data\":2}") ∷ (lit "other", lit "kept") ∷ [])
unfolding clear_by_regexp starts_with text_eq
cleared = refl
