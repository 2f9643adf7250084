-- ===== src/Response/Served.antt =====
-- packages/plugin-rest-cache/server/src/middlewares/recv.ts: what a HIT serves.
use plugin_rest_cache.Prelude.{
  ℕ, ◌≡◌, refl, ◌∙◌, inl, inr, true, some, [], ◌∷◌, Bool-cases, Text, lit, text_eq, text_eq_refl,
}
use plugin_rest_cache.Json.{Json, null, bool, num, str, arr, obj}
use plugin_rest_cache.Json.Cost.{IsPrintable}
use plugin_rest_cache.Response.{value, Response, get_header, truthy}
use plugin_rest_cache.Response.Cacheable.{is_cacheable, cacheable, shareable}
use plugin_rest_cache.Response.Replay.{is_replayable, type_to_keep, keep, replayed_type}
use plugin_rest_cache.Store.{read_entry, set}
use plugin_rest_cache.Store.Entry.{CacheEntry, CacheEntryMeta, kept_type}
use plugin_rest_cache.Store.Contract.{Provider}
use plugin_rest_cache.Store.Lawful.{Lawful}
use plugin_rest_cache.Store.Log.{Purges}
use plugin_rest_cache.Store.Reading.{stored, read_entry-set}

replayed-keep :
    (v : Json) (type : Text)
    → replayed_type v (kept_type (keep (value v) type)) ≡ keep (value v) type
unfolding replayed_type keep kept_type text_eq
replayed-keep (str body) [] = refl
replayed-keep (str body) (c ∷ t) = elim (Bool-cases (is_replayable (c ∷ t) body)) [
  | inl ok ↦ rw ok (rw ok refl)
  | inr not_ok ↦ rw not_ok refl
]
replayed-keep null type = refl
replayed-keep (bool b) type = refl
replayed-keep (num b) type = refl
replayed-keep (arr b) type = refl
replayed-keep (obj b) type = refl

module _ {P : Type 0} (api : Provider P) (lawful : Lawful api) (prefix : Text) where
  -- A response that isCacheable accepts, stored by set with the type that typeToKeep keeps, is found by
  -- getEntry with its body, which is truthy, and is replayed with the type that was kept, if the
  -- provider keeps its laws and is ready and the body's numbers are printed numbers.
  pub stored-served :
      (ctx : Response) (key : Text) (max_age : ℕ) (p : P) (g : Purges)
      → api.ready p ≡ true
      → is_cacheable ctx ≡ cacheable
      → ((v : Json) → ctx.body ≡ value v → IsPrintable v)
      → (v : Json) × (entry : CacheEntry) × (ctx.body ≡ value v)
        × ((read_entry api prefix key
              (set api prefix key v max_age
                (record { type = type_to_keep ctx })
                (record { provider = some p; purges = g })).1).0
            ≡ some entry)
        × (entry.data' ≡ some v)
        × (truthy v ≡ true)
        × (replayed_type v entry.type ≡ type_to_keep ctx)
  unfolding type_to_keep
  stored-served ctx key max_age p g r ok printable =
      let (v, s) = shareable ctx ok in
      let meta : CacheEntryMeta = record { type = type_to_keep ctx } in
      (
        v,
        stored v meta,
        s.body,
        read_entry-set api lawful prefix key key v max_age meta p g r (printable v s.body)
            ∙ rw (text_eq_refl key) refl,
        refl,
        s.not_empty,
        rw (s.body) (replayed-keep v (get_header (lit "Content-Type") ctx)),
      )
