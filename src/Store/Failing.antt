-- ===== src/Store/Failing.antt =====
-- packages/plugin-rest-cache/server/src/services/cacheStore.ts: what a failing provider can do.
use plugin_rest_cache.Prelude.{
  ℕ, ◌≡◌, refl, ap, ◌∙◌, inl, inr, Bool, true, false, Option, none, some, List, [], ◌∷◌, ◌++◌, map,
  if◌then◌else◌, Option-cases, filter, Text,
}
use plugin_rest_cache.Outcome.{Outcome, resolved, rejected, Reply, fulfils, rejects, throws}
use plugin_rest_cache.Store.{
  CacheStore, should_del, usable, awaited, keys, set, hand_on, del_many, del_chosen,
  clear_by_regexp, clear_all, caught, reset,
}
use plugin_rest_cache.Store.Entry.{CacheEntryMeta, serialize}
use plugin_rest_cache.Json.{Json}
use plugin_rest_cache.Store.Contract.{Provider}
use plugin_rest_cache.Store.Log.{RegExp, record_purge}

abbrev pub is_rejects {ℓ} : {A : Type ℓ} → Reply A → Bool
is_rejects (fulfils a) = false
is_rejects rejects = true
is_rejects throws = false

abbrev pub outcome_if : Bool → Outcome (Unit {0})
outcome_if b = if b then rejected else resolved tt

-- No law is assumed of the provider here: any call may fail, and may change it in any way.
module _ {P : Type 0} (api : Provider P) (prefix : Text) where
  -- The provider can be used, and the promise of its listing is rejected.
  abbrev pub listing_rejected : CacheStore P → Bool
  listing_rejected s = elim (usable api prefix s) [
    | none ↦ false
    | some p ↦ is_rejects (api.keys prefix p).0
  ]

  abbrev pub writing_rejected : Text → Text → ℕ → CacheStore P → Bool
  writing_rejected key text max_age s = elim (usable api prefix s) [
    | none ↦ false
    | some p ↦ is_rejects (api.set (prefix ++ key) text max_age p).0
  ]

  awaited_lem : (reply : Reply (Unit {0})) → awaited tt reply ≡ resolved tt
  unfolding awaited
  awaited_lem (fulfils tt) = refl
  awaited_lem rejects = refl
  awaited_lem throws = refl

  pub del_many-resolved :
      (ks : List Text) (s : CacheStore P) → (del_many api prefix ks s).0 ≡ resolved tt
  unfolding del_many
  del_many-resolved [] s = refl
  del_many-resolved (k ∷ ks) s = elim (Option-cases (usable api prefix s)) [
    | inl e ↦ rw (e, del_many) refl
    | inr (p, e) ↦ rw (e, del_many) (awaited_lem (api.del_many (map (◌++◌ prefix) (k ∷ ks)) p).0)
  ]

  abbrev is_rejected : Outcome (Option (List Text)) → Bool
  is_rejected (resolved listing) = false
  is_rejected rejected = true

  del_chosen_of :
      (chosen : List Text → List Text) (s : CacheStore P) (listing : Outcome (Option (List Text)))
      → (keys api prefix s).0 ≡ listing
      → (del_chosen api prefix chosen s).0 ≡ outcome_if (is_rejected listing)
  unfolding del_chosen
  del_chosen_of chosen s rejected e = rw (e, del_chosen) refl
  del_chosen_of chosen s (resolved none) e =
      rw (e, del_chosen) (del_many-resolved (chosen []) (keys api prefix s).1)
  del_chosen_of chosen s (resolved (some ks)) e =
      rw (e, del_chosen) (del_many-resolved (chosen ks) (keys api prefix s).1)

  listing_of :
      (s : CacheStore P) (p : P) (reply : Reply (List Text))
      → usable api prefix s ≡ some p
      → (api.keys prefix p).0 ≡ reply
      → is_rejected (keys api prefix s).0 ≡ is_rejects reply
  unfolding keys
  listing_of s p (fulfils listed) e f = rw (e, keys) (rw f refl)
  listing_of s p rejects e f = rw (e, keys) (rw f refl)
  listing_of s p throws e f = rw (e, keys) (rw f refl)

  keys_reply : (s : CacheStore P) → is_rejected (keys api prefix s).0 ≡ listing_rejected s
  unfolding keys
  keys_reply s = elim (Option-cases (usable api prefix s)) [
    | inl e ↦ rw (e, keys) (rw (e, listing_rejected) refl)
    | inr (p, e) ↦ listing_of s p (api.keys prefix p).0 e refl ∙ rw (e, listing_rejected) refl
  ]

  del_chosen_reply :
      (chosen : List Text → List Text) (s : CacheStore P)
      → (del_chosen api prefix chosen s).0 ≡ outcome_if (listing_rejected s)
  del_chosen_reply chosen s =
      del_chosen_of chosen s (keys api prefix s).0 refl ∙ ap outcome_if (keys_reply s)

  clear_by_regexp_reply :
      (reg_exps : List RegExp) (s : CacheStore P)
      → (clear_by_regexp api prefix reg_exps s).0 ≡ outcome_if (listing_rejected s)
  unfolding clear_by_regexp usable
  clear_by_regexp_reply reg_exps s =
      del_chosen_reply (filter (should_del reg_exps))
        (record s { purges = record_purge (some reg_exps) s.purges })

  set_of : (reply : Reply (Unit {0})) → hand_on tt reply ≡ outcome_if (is_rejects reply)
  unfolding hand_on
  set_of (fulfils tt) = refl
  set_of rejects = refl
  set_of throws = refl

  pub set_reply :
      (key : Text) (val : Json) (max_age : ℕ) (meta : CacheEntryMeta) (s : CacheStore P)
      → (set api prefix key val max_age meta s).0
        ≡ outcome_if (writing_rejected key (serialize val meta) max_age s)
  unfolding set
  set_reply key val max_age meta s = elim (Option-cases (usable api prefix s)) [
    | inl e ↦ rw (e, set) (rw (e, writing_rejected) refl)
    | inr (p, e) ↦
        rw (e, set)
          (set_of (api.set (prefix ++ key) (serialize val meta) max_age p).0
            ∙ rw (e, writing_rejected) refl)
  ]

  del_many-purges :
      (ks : List Text) (s : CacheStore P) → (del_many api prefix ks s).1.purges ≡ s.purges
  unfolding del_many
  del_many-purges [] s = refl
  del_many-purges (k ∷ ks) s = elim (Option-cases (usable api prefix s)) [
    | inl e ↦ rw (e, del_many) refl
    | inr (p, e) ↦ rw (e, del_many) refl
  ]

  keys-purges : (s : CacheStore P) → (keys api prefix s).1.purges ≡ s.purges
  unfolding keys
  keys-purges s = elim (Option-cases (usable api prefix s)) [
    | inl e ↦ rw (e, keys) refl
    | inr (p, e) ↦ rw (e, keys) refl
  ]

  del_chosen_purges :
      (chosen : List Text → List Text) (s : CacheStore P) (listing : Outcome (Option (List Text)))
      → (keys api prefix s).0 ≡ listing
      → (del_chosen api prefix chosen s).1.purges ≡ s.purges
  unfolding del_chosen
  del_chosen_purges chosen s rejected e = rw (e, del_chosen) (keys-purges s)
  del_chosen_purges chosen s (resolved none) e =
      rw (e, del_chosen) (del_many-purges (chosen []) (keys api prefix s).1 ∙ keys-purges s)
  del_chosen_purges chosen s (resolved (some ks)) e =
      rw (e, del_chosen) (del_many-purges (chosen ks) (keys api prefix s).1 ∙ keys-purges s)

  clear_by_regexp-purges :
      (reg_exps : List RegExp) (s : CacheStore P)
      → (clear_by_regexp api prefix reg_exps s).1.purges ≡ record_purge (some reg_exps) s.purges
  unfolding clear_by_regexp
  clear_by_regexp-purges reg_exps s =
      let s' : CacheStore P = record s { purges = record_purge (some reg_exps) s.purges } in
      del_chosen_purges (filter (should_del reg_exps)) s' (keys api prefix s').0 refl

  -- With any provider, clearByRegexp records its purge, and rejects exactly if the provider is usable
  -- and rejects the listing of its keys.
  pub clear_by_regexp_outcome :
      (reg_exps : List RegExp) (s : CacheStore P)
      → ((clear_by_regexp api prefix reg_exps s).0 ≡ outcome_if (listing_rejected s))
        × ((clear_by_regexp api prefix reg_exps s).1.purges ≡ record_purge (some reg_exps) s.purges)
  clear_by_regexp_outcome reg_exps s =
      (clear_by_regexp_reply reg_exps s, clear_by_regexp-purges reg_exps s)

module _ {P : Type 0} (api : Provider P) where
  reset_reply_from : (prefix : Text) (s : CacheStore P) → (reset api prefix s).0 ≡ resolved tt
  unfolding reset caught clear_all
  reset_reply_from [] s = elim (Option-cases (usable api [] s)) [
    | inl e ↦ rw (e, reset) refl
    | inr (p, e) ↦ rw (e, reset) (awaited_lem api [] (api.clear p).0)
  ]
  reset_reply_from (c ∷ prefix) s = elim (Option-cases (usable api (c ∷ prefix) s)) [
    | inl e ↦ rw (e, reset) refl
    | inr (p, e) ↦ rw (e, reset) refl
  ]

  -- With any provider, reset and delMany resolve, and set rejects exactly if the provider is usable and
  -- rejects the write.
  pub other_outcomes :
      (prefix key : Text) (val : Json) (max_age : ℕ) (meta : CacheEntryMeta) (ks : List Text)
      (s : CacheStore P)
      → ((reset api prefix s).0 ≡ resolved tt)
        × ((del_many api prefix ks s).0 ≡ resolved tt)
        × ((set api prefix key val max_age meta s).0
            ≡ outcome_if (writing_rejected api prefix key (serialize val meta) max_age s))
  other_outcomes prefix key val max_age meta ks s = (
    reset_reply_from prefix s,
    del_many-resolved api prefix ks s,
    set_reply api prefix key val max_age meta s,
  )
