-- ===== src/Store.antt =====
-- packages/plugin-rest-cache/server/src/services/cacheStore.ts
pub mod Entry
pub mod Contract
pub mod Log
pub mod History
pub mod Listing
pub mod Lawful
pub mod Table
pub mod Clearing
pub mod Reading
pub mod Failing
use plugin_rest_cache.Prelude.{
  ℕ, Bool, false, Option, none, some, List, [], ◌∷◌, ◌++◌, map, if◌then◌else◌, length, drop, any,
  filter, Text, starts_with,
}
use plugin_rest_cache.Outcome.{
  Outcome, resolved, rejected, Reply, fulfils, rejects, throws, Timed, in_time, late,
}
use plugin_rest_cache.Json.{Json}
use Entry.{CacheEntry, CacheEntryMeta, serialize, deserialize_entry}
use Contract.{Provider}
use Log.{Purges, RegExp, no_purges, record_purge}

-- The service: its provider, `none` before `init`, and its record of purges.
pub record CacheStore (P : Type 0) : Type 0 where
  pub provider : Option P
  pub purges : Purges

unfoldable pub create_cache_store_service : {P : Type 0} → CacheStore P
create_cache_store_service = record { provider = none; purges = no_purges }

-- What `readEntry` makes of the provider's answer.
unfoldable pub settle_read : Timed (Option Text) → Option CacheEntry
unfolding deserialize_entry
settle_read (in_time (fulfils raw)) = elim (deserialize_entry raw) [
  | resolved entry ↦ entry
  | rejected ↦ none
]
settle_read (in_time rejects) = none
settle_read (in_time throws) = none
settle_read late = none

-- `try { return call() } catch`: the promise is handed on, only an exception is caught.
unfoldable pub hand_on {ℓ} : {A : Type ℓ} → A → Reply A → Outcome A
hand_on fallback (fulfils a) = resolved a
hand_on fallback rejects = rejected
hand_on fallback throws = resolved fallback

-- `try { return await call() } catch`
unfoldable pub awaited {ℓ} : {A : Type ℓ} → A → Reply A → Outcome A
awaited fallback (fulfils a) = resolved a
awaited fallback rejects = resolved fallback
awaited fallback throws = resolved fallback

-- The keys of this cache in the provider's listing, without the prefix.
unfoldable pub logical_keys : Text → List Text → List Text
logical_keys [] listed = listed
logical_keys (c ∷ prefix) listed =
    map (drop (length (c ∷ prefix))) (filter (λ key. starts_with key (c ∷ prefix)) listed)

-- `shouldDel`
abbrev pub should_del : List RegExp → Text → Bool
should_del reg_exps key = any (λ r. r key) reg_exps

module _ {P : Type 0} (api : Provider P) (keys_prefix : Text) where
  unfoldable pub init : P → CacheStore P → CacheStore P
  init new_provider s = record s { provider = some new_provider }

  unfoldable pub ready : CacheStore P → Bool
  ready s = elim s.provider [ none ↦ false | some p ↦ api.ready p ]

  -- The provider, unless it is `unusable`.
  unfoldable pub usable : CacheStore P → Option P
  usable s = elim s.provider [ none ↦ none | some p ↦ if api.ready p then some p else none ]

  unfoldable pub read_entry : Text → CacheStore P → Option CacheEntry × CacheStore P
  unfolding usable settle_read
  read_entry key s = elim (usable s) [
    | none ↦ (none, s)
    | some p ↦
        let (reply, p') = api.get (keys_prefix ++ key) p in
        (settle_read reply, record s { provider = some p' })
  ]

  abbrev pub get_entry : Text → CacheStore P → Option CacheEntry × CacheStore P
  get_entry = read_entry

  -- The stored body; `none` for null and for undefined.
  unfoldable pub get : Text → CacheStore P → Option Json × CacheStore P
  unfolding read_entry
  get key s =
      let (entry, s') = read_entry key s in (elim entry [ none ↦ none | some e ↦ e.data' ], s')

  unfoldable pub set :
      Text → Json → ℕ → CacheEntryMeta → CacheStore P → Outcome (Unit {0}) × CacheStore P
  unfolding usable hand_on serialize
  set key val max_age meta s = elim (usable s) [
    | none ↦ (resolved tt, s)
    | some p ↦
        let (reply, p') = api.set (keys_prefix ++ key) (serialize val meta) max_age p in
        (hand_on tt reply, record s { provider = some p' })
  ]

  unfoldable pub del : Text → CacheStore P → Outcome (Unit {0}) × CacheStore P
  unfolding usable hand_on
  del key s = elim (usable s) [
    | none ↦ (resolved tt, s)
    | some p ↦
        let (reply, p') = api.del (keys_prefix ++ key) p in
        (hand_on tt reply, record s { provider = some p' })
  ]

  unfoldable pub del_many : List Text → CacheStore P → Outcome (Unit {0}) × CacheStore P
  unfolding usable awaited
  del_many [] s = (resolved tt, s)
  del_many (key ∷ keys) s = elim (usable s) [
    | none ↦ (resolved tt, s)
    | some p ↦
        let (reply, p') = api.del_many (map (◌++◌ keys_prefix) (key ∷ keys)) p in
        (awaited tt reply, record s { provider = some p' })
  ]

  -- `none` where the source gives null.
  unfoldable pub keys : CacheStore P → Outcome (Option (List Text)) × CacheStore P
  unfolding usable logical_keys
  keys s = elim (usable s) [
    | none ↦ (resolved none, s)
    | some p ↦
        let (reply, p') = api.keys keys_prefix p in
        (
          elim reply [
            | fulfils listed ↦ resolved (some (logical_keys keys_prefix listed))
            | rejects ↦ rejected
            | throws ↦ resolved none
          ],
          record s { provider = some p' },
        )
  ]

  -- `await this.delMany(chosen((await this.keys()) || []))`
  unfoldable pub del_chosen :
      (List Text → List Text) → CacheStore P → Outcome (Unit {0}) × CacheStore P
  unfolding keys del_many
  del_chosen chosen s =
      let (listing, s') = keys s in
      elim listing [
        | rejected ↦ (rejected, s')
        | resolved none ↦ del_many (chosen []) s'
        | resolved (some ks) ↦ del_many (chosen ks) s'
      ]

  unfoldable pub clear_by_regexp : List RegExp → CacheStore P → Outcome (Unit {0}) × CacheStore P
  unfolding del_chosen record_purge
  clear_by_regexp reg_exps s =
      del_chosen (filter (should_del reg_exps))
        (record s { purges = record_purge (some reg_exps) s.purges })

  -- Caught, whatever was awaited: every failure ends as null.
  unfoldable pub caught : Outcome (Unit {0}) × CacheStore P → Outcome (Unit {0}) × CacheStore P
  caught (outcome, s) = (resolved tt, s)

  unfoldable pub clear_all : P → CacheStore P → Outcome (Unit {0}) × CacheStore P
  unfolding awaited
  clear_all p s =
      let (reply, p') = api.clear p in (awaited tt reply, record s { provider = some p' })

  unfoldable pub reset : CacheStore P → Outcome (Unit {0}) × CacheStore P
  unfolding usable caught del_chosen record_purge clear_all
  reset s = elim (usable s) [
    | none ↦ (resolved tt, s)
    | some p ↦
        let s' : CacheStore P = record s { purges = record_purge none s.purges } in
        elim keys_prefix [ [] ↦ clear_all p s' | _ ∷ _ ↦ caught (del_chosen (λ ks. ks) s') ]
  ]
