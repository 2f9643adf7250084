-- ===== src/Providers/Batches.antt =====
-- packages/plugin-rest-cache/server/src/types/CacheProvider.ts: the default delMany deletes all keys.
use plugin_rest_cache.Prelude.{
  ℕ, zero, suc, ◌≤◌, ◌≡◌, refl, ap, ◌∙◌, Bool, true, Option, none, List, [], ◌∷◌, ◌++◌, arith,
  if◌then◌else◌, length, take, drop, take-append-drop, any-append, Text, text_eq,
}
use plugin_rest_cache.Outcome.{Reply, fulfils}
use plugin_rest_cache.Store.Listing.{has}
use plugin_rest_cache.Providers.Base.{concurrency, del_together, del_batches, default_del_many}

-- What is left when some keys are deleted.
abbrev pub less : List Text → (Text → Option Text) → Text → Option Text
less keys entries j = if has keys j then none else entries j

drop-le {ℓ} : {A : Type ℓ} (n : ℕ) (xs : List A) → length (drop n xs) ≤ length xs
drop-le zero xs = omega arith
drop-le (suc n) [] = omega arith
drop-le (suc n) (x ∷ xs) = omega (arith, drop-le n xs)

module _ {P : Type 0} (del : Text → P → Reply (Unit {0}) × P) (view : P → Text → Option Text)
    (is_ready : P → Bool)
    (deletes : (k : Text) (p : P)
      → is_ready p ≡ true
      → ((del k p).0 ≡ fulfils tt)
        × (is_ready (del k p).1 ≡ true)
        × ((j : Text) → view (del k p).1 j ≡ (if text_eq j k then none else view p j))) where
  abbrev pub Deleted : List Text → P → Reply (Unit {0}) × P → Type 0
  Deleted keys p done =
      (done.0 ≡ fulfils tt)
      × (is_ready done.1 ≡ true)
      × ((j : Text) → view done.1 j ≡ less keys (view p) j)

  less-append :
      (xs ys : List Text) (entries : Text → Option Text) (j : Text)
      → less ys (less xs entries) j ≡ less (xs ++ ys) entries j
  less-append xs ys entries j = ground (arith, any-append (text_eq j) xs ys)

  del_together_lem :
      (keys : List Text) (p : P) → is_ready p ≡ true → Deleted keys p (del_together del keys p)
  unfolding del_together
  del_together_lem [] p r = (refl, r, λ j. refl)
  del_together_lem (k ∷ keys) p r =
      let (reply, still, gone) = deletes k p r in
      let (replies, ready', all) = del_together_lem keys (del k p).1 still in
      (
        rw (reply, del_together) replies,
        rw (reply, del_together) ready',
        λ j. rw (reply, del_together) (all j ∙ ground (arith, gone j)),
      )

  del_batches_lem :
      (f : ℕ) (keys : List Text) (p : P)
      → length keys ≤ f
      → is_ready p ≡ true
      → Deleted keys p (del_batches del f keys p)
  unfolding del_batches
  del_batches_lem zero [] p h r = (refl, r, λ j. refl)
  del_batches_lem zero (k ∷ keys) p h r = absurd (omega arith)
  del_batches_lem (suc f) [] p h r = (refl, r, λ j. refl)
  del_batches_lem (suc f) (k ∷ keys) p h r =
      let chunk = take concurrency (k ∷ keys) in
      let rest = drop concurrency (k ∷ keys) in
      let p' = (del_together del chunk p).1 in
      let (reply, still, here) = del_together_lem chunk p r in
      let (replies, ready', later) =
        del_batches_lem f rest p' (omega (arith, drop-le 15 keys)) still in
      (
        rw (reply, del_batches) replies,
        rw (reply, del_batches) ready',
        λ j.
            rw (reply, del_batches)
              (later j
                ∙ ap (λ o. if has rest j then none else o) (here j)
                ∙ less-append chunk rest (view p) j
                ∙ ap (λ ks. less ks (view p) j) (take-append-drop concurrency (k ∷ keys))),
      )

  -- Over a del that deletes its key whenever the provider is ready, the default delMany ends,
  -- fulfils, and deletes exactly the keys it is given.
  pub default_del_many_lem :
      (keys : List Text) (p : P) → is_ready p ≡ true → Deleted keys p (default_del_many del keys p)
  unfolding default_del_many
  default_del_many_lem keys p r = del_batches_lem (length keys) keys p (omega arith) r
