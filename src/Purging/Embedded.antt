-- ===== src/Purging/Embedded.antt =====
-- packages/plugin-rest-cache/server/src/utils/middlewares/registerDocumentServiceMiddleware.ts: a write
-- to a content type that is not cached.
use mathlib.Core.Path.{ap₂, subst}
use plugin_rest_cache.Prelude.{
  text_eq-false, ◌≡◌, refl, sym, ap, ◌∙◌, ◌≢◌, ◌↔◌, inl, inr, Bool, true, false, ◌&&◌, ◌||◌, not,
  Option, none, some, List, [], ◌∷◌, ◌++◌, arith, if◌then◌else◌, Bool-cases, Option-cases,
  and_parts, not_iff, some_injective, length, drop, any, filter, any-append, Text, text_eq,
  text_eq_sound, text_eq_refl, text_eq_iff, starts_with,
}
use plugin_rest_cache.Outcome.{resolved}
use plugin_rest_cache.Purging.{CachePluginStrategy, get, is_cached, get_cache_keys_regexp}
use plugin_rest_cache.Purging.Matched.{combined, belongs, get_cache_keys_regexp_lem}
use plugin_rest_cache.Purging.Triggers.{
  DocumentServiceContext, State, lookup, Call, embedding, cached_types_embedding, wildcard_regexps,
  purge_related, purge_embedding, purge_after, document_service_middleware,
}
use plugin_rest_cache.Purging.Written.{Holds, Holds-same, Leaves-Holds, middleware_returns}
use plugin_rest_cache.Keys.Config.{default_to}
use plugin_rest_cache.Purging.Scope.{IsWrite, IsWrite-has}
use plugin_rest_cache.Related.{TraversableSchema}
use plugin_rest_cache.Related.Graph.{content_type, Related}
use plugin_rest_cache.Related.Exact.{get_related_models_uid_lem}
use plugin_rest_cache.Store.{CacheStore, should_del, clear_by_regexp}
use plugin_rest_cache.Store.Clearing.{serving, clear_by_regexp_lem, Leaves-entries}
use plugin_rest_cache.Store.Contract.{Provider}
use plugin_rest_cache.Store.Lawful.{Lawful}
use plugin_rest_cache.Store.Listing.{has, has-filter}
use plugin_rest_cache.Store.Log.{Purges, RegExp}

both_true : (a b : Bool) → a ≡ true → b ≡ true → (a && b) ≡ true
both_true a b h k = ground arith

true_or : (a b : Bool) → a ≡ true → (a || b) ≡ true
true_or a b h = ground arith

or_true : (a b : Bool) → b ≡ true → (a || b) ≡ true
or_true a b h = ground arith

and_false {ℓ} : {A : Type ℓ} (b : Bool) (x y : A) → y ≡ (if b && false then x else y)
and_false true x y = refl
and_false false x y = refl

module _ (compile : Text → Option RegExp) (strategy : CachePluginStrategy) where
  -- The entries without those that belong to some content types.
  abbrev pub after_related : Text → List Text → (Text → Option Text) → Text → Option Text
  after_related prefix uids entries j =
      if starts_with j prefix
        && any (λ u. belongs compile strategy u (some []) true (drop (length prefix) j)) uids
      then none
      else entries j

  wildcard_regexps_more :
      (uid : Text) (uids : List Text) (here later rs : List RegExp) (key : Text)
      → get_cache_keys_regexp compile strategy uid (some []) true ≡ some here
      → here ++ later ≡ rs
      → should_del later key ≡ any (λ u. belongs compile strategy u (some []) true key) uids
      → should_del rs key ≡ any (λ u. belongs compile strategy u (some []) true key) (uid ∷ uids)
  wildcard_regexps_more uid uids here later rs key own same ih = rw (sym same) (
      any-append (λ r. r key) here later
      ∙ ap₂ ◌||◌ (get_cache_keys_regexp_lem compile strategy uid (some []) true here key own) ih)

module _ (compile : Text → Option RegExp) (strategy : CachePluginStrategy)
    (components content_types : List TraversableSchema) where
  -- The responses of the content type can embed the other one: it is cached, and leads there over relations,
  -- components and dynamic zones that are not private.
  abbrev pub CanEmbed : Text → Text → Type 0
  CanEmbed uid u =
      (u ≢ uid)
      × (get strategy u ≢ none)
      × Related true components content_types uid (content_type u)

  -- The list has the content types that can embed one.
  abbrev pub Embedders : Text → List Text → Type 0
  Embedders uid uids = (u : Text) → (has uids u ≡ true) ↔ CanEmbed uid u

  -- What `embeddedIn` holds is right.
  abbrev pub IsConsistent : List (Text × List Text) → Type 0
  IsConsistent m = (uid : Text) (uids : List Text) → lookup uid m ≡ some uids → Embedders uid uids

  is_cached_iff : (u : Text) → (is_cached strategy u ≡ true) ↔ (get strategy u ≢ none)
  unfolding is_cached
  is_cached_iff u = elim (Option-cases (get strategy u)) [
    | inl absent ↦ rw (absent, is_cached) (λ e. cc, λ there. absurd (there refl))
    | inr (conf, found) ↦ rw (found, is_cached) (λ _ e. cc, λ _. refl)
  ]

  embedding-Embedders :
      (uid : Text)
      → uid ≢ []
      → Embedders uid (embedding compile strategy components content_types uid)
  unfolding embedding
  embedding-Embedders uid h u =
      let (uids, e, exact) = get_related_models_uid_lem true components content_types uid h in
      let (cached, listed) = is_cached_iff u in
      let same =
        ap
          (λ x.
            has
              (filter (λ related. not (text_eq related uid) && is_cached strategy related)
                (default_to [] x))
              u)
          e
        ∙ has-filter (λ related. not (text_eq related uid) && is_cached strategy related) u uids in
      (
        λ is_there.
            let (chosen, m) =
              and_parts (not (text_eq u uid) && is_cached strategy u) (has uids u)
                (sym same ∙ is_there) in
            let (other, held) = and_parts (not (text_eq u uid)) (is_cached strategy u) chosen in
            (
              λ eq. cc ((not_iff (text_eq u uid)).0 other, (text_eq_iff u uid).1 eq),
              cached held,
              (exact u).0 m,
            ),
        λ (other, held, related).
            same
            ∙ both_true _ _
                (both_true _ _ ((not_iff (text_eq u uid)).1 (text_eq-false u uid other))
                  (listed held))
                ((exact u).1 related),
      )

  wildcard_regexps_lem :
      (uids : List Text) (rs : List RegExp) (key : Text)
      → wildcard_regexps compile strategy components content_types uids ≡ some rs
      → should_del rs key ≡ any (λ u. belongs compile strategy u (some []) true key) uids
  unfolding wildcard_regexps
  wildcard_regexps_lem [] rs key e = let same : rs ≡ [] = cc in rw same refl
  wildcard_regexps_lem (uid ∷ uids) rs key e =
      let (here, later, own, others, same) =
        combined ◌++◌ (get_cache_keys_regexp compile strategy uid (some []) true)
          (wildcard_regexps compile strategy components content_types uids) rs e in
      wildcard_regexps_more compile strategy uid uids here later rs key own same
        (wildcard_regexps_lem uids later key others)

  wildcard_regexps-some :
      (uids : List Text)
      → ((u : Text)
          → has uids u ≡ true
          → (rs : List RegExp) × (get_cache_keys_regexp compile strategy u (some []) true
              ≡ some rs))
      → (rs : List RegExp) × (wildcard_regexps compile strategy components content_types uids
          ≡ some rs)
  unfolding wildcard_regexps
  wildcard_regexps-some [] h = ([], refl)
  wildcard_regexps-some (uid ∷ uids) h =
      let (here, e) = h uid (true_or _ _ (text_eq_refl uid)) in
      let (later, e') = wildcard_regexps-some uids (λ u m. h u (or_true (text_eq u uid) _ m)) in
      (here ++ later, rw (e, e', wildcard_regexps) refl)

  lookup-new :
      (uid : Text) (uids : List Text) (m : List (Text × List Text))
      → Embedders uid uids
      → IsConsistent m
      → IsConsistent ((uid, uids) ∷ m)
  unfolding lookup
  lookup-new uid uids m new ok u held e = elim (Bool-cases (text_eq u uid)) [
    | inl same ↦
        let found : some uids ≡ some held = rw same at e in
        subst (λ x. Embedders u x) (some_injective found)
          (subst (λ x. Embedders x uids) (sym (text_eq_sound u uid same)) new)
    | inr other ↦ ok u held (rw other at e)
  ]

  cached_types_embedding_lem :
      (uid : Text) (m : List (Text × List Text))
      → uid ≢ []
      → IsConsistent m
      → Embedders uid (cached_types_embedding compile strategy components content_types uid m).0
        × IsConsistent (cached_types_embedding compile strategy components content_types uid m).1
  unfolding cached_types_embedding
  cached_types_embedding_lem uid m h ok = elim (Option-cases (lookup uid m)) [
    | inl absent ↦
        let new = embedding-Embedders uid h in
        rw (absent, cached_types_embedding) (new, lookup-new uid _ m new ok)
    | inr (uids, found) ↦ rw (found, cached_types_embedding) (ok uid uids found, ok)
  ]

module _ {P : Type 0} (api : Provider P) (lawful : Lawful api) (prefix : Text) {W : Type 0}
    (compile : Text → Option RegExp) (strategy : CachePluginStrategy)
    (components content_types : List TraversableSchema) where
  open lawful use {view}

  purge_related_lem :
      (uids : List Text) (s : State P W) (rs : List RegExp) (p : P) (g : Purges)
      → wildcard_regexps compile strategy components content_types uids ≡ some rs
      → s.store ≡ serving api lawful prefix p g
      → api.ready p ≡ true
      → Holds api lawful prefix
          (after_related compile strategy prefix uids (view p))
          (purge_related compile strategy components content_types api prefix uids s).store
  unfolding purge_related
  purge_related_lem [] s rs p g compiled at_store r = record {
    provider = p;
    kept = ap (λ (store : CacheStore P). store.provider) at_store;
    is_ready = r;
    entry = λ j. and_false (starts_with j prefix) none (view p j);
  }
  purge_related_lem (uid ∷ uids) s rs p g compiled at_store r =
      rw (compiled, purge_related)
        (Holds-same api lawful prefix
          (ap (λ store. (clear_by_regexp api prefix rs store).1) at_store)
          (Leaves-Holds api lawful prefix (
            Leaves-entries api lawful prefix (clear_by_regexp_lem api lawful prefix rs p g r) (λ j.
              ap (λ b. if starts_with j prefix && b then none else view p j)
                (wildcard_regexps_lem compile strategy components content_types (uid ∷ uids) rs
                  (drop (length prefix) j) compiled)))))

  purge_related-embedded_in :
      (uids : List Text) (s : State P W)
      → (purge_related compile strategy components content_types api prefix uids s).embedded_in
        ≡ s.embedded_in
  unfolding purge_related
  purge_related-embedded_in [] s = refl
  purge_related-embedded_in (uid ∷ uids) s =
      elim (Option-cases
        (wildcard_regexps compile strategy components content_types (uid ∷ uids))) [
          | inl failed ↦ rw (failed, purge_related) refl
          | inr (rs, compiled) ↦ rw (compiled, purge_related) refl
        ]

  purged_related :
      (ctx : DocumentServiceContext) (result : Option Text) (s : State P W)
      → is_cached strategy ctx.uid ≡ false
      → strategy.clear_related_cache ≡ true
      → purge_after compile strategy components content_types api prefix ctx result s
        ≡ purge_related compile strategy components content_types api prefix
            (cached_types_embedding compile strategy components content_types ctx.uid
              s.embedded_in).0
            (record s {
              embedded_in =
                  (cached_types_embedding compile strategy components content_types ctx.uid
                    s.embedded_in).1;
            })
  unfolding purge_after purge_embedding
  purged_related ctx result s uncached on = rw (uncached, purge_after, on, purge_embedding) refl

  -- When a write to a content type that is not cached returns, and related content types are
  -- cleared, it gives what the write gave, and the cache holds no entry of a key that belongs to a
  -- GET route of another, cached content type that leads to it over relations, components and
  -- dynamic zones that are not private; all else is as the write left it. The uid is not empty, the
  -- provider keeps its laws and is ready, every pattern compiles, and what is remembered of such
  -- types is right, and stays so.
  pub document_service_middleware-uncached :
      (ctx : DocumentServiceContext) (next : Call P W) (in_progress : List Text) (s s' : State P W)
      (result : Option Text) (p : P) (g : Purges)
      → IsWrite ctx.action
      → ctx.uid ≢ []
      → get strategy ctx.uid ≡ none
      → strategy.clear_related_cache ≡ true
      → next (ctx.uid ∷ in_progress) s ≡ (resolved result, s')
      → IsConsistent compile strategy components content_types s'.embedded_in
      → s'.store ≡ serving api lawful prefix p g
      → api.ready p ≡ true
      → ((u : Text)
          → CanEmbed compile strategy components content_types ctx.uid u
          → (rs : List RegExp) × (get_cache_keys_regexp compile strategy u (some []) true
              ≡ some rs))
      → ((document_service_middleware compile strategy components content_types api prefix ctx next
            in_progress s).0
          ≡ resolved result)
        × (uids : List Text) × Embedders compile strategy components content_types ctx.uid uids
        × Holds api lawful prefix
            (after_related compile strategy prefix uids (view p))
            (document_service_middleware compile strategy components content_types api prefix ctx
              next in_progress s).1.store
        × IsConsistent compile strategy components content_types
            (document_service_middleware compile strategy components content_types api prefix ctx
              next in_progress s).1.embedded_in
  unfolding is_cached
  document_service_middleware-uncached ctx next in_progress s s' result p g write named uncached on
        ran ok at_store r compiled =
      let returned =
        middleware_returns api lawful prefix compile strategy components content_types ctx next
          in_progress s s' result (IsWrite-has ctx.action write) ran in
      let (right, ok') =
        cached_types_embedding_lem compile strategy components content_types ctx.uid s'.embedded_in
          named ok in
      let not_cached : is_cached strategy ctx.uid ≡ false = rw (uncached, is_cached) refl in
      let purged = ap (λ x. x.1) returned ∙ purged_related ctx result s' not_cached on in
      let (uids, embedded_in) =
        cached_types_embedding compile strategy components content_types ctx.uid s'.embedded_in in
      let (reg_exps, patterns) =
        wildcard_regexps-some compile strategy components content_types uids
          (λ u m. compiled u ((right u).0 m)) in
      let remembered : State P W = record s' { embedded_in = embedded_in } in
      (
        ap (λ x. x.0) returned,
        uids,
        right,
        Holds-same api lawful prefix (ap (λ (x : State P W). x.store) purged)
            (purge_related_lem uids remembered reg_exps p g patterns at_store r),
        subst (IsConsistent compile strategy components content_types)
            (sym (
              ap (λ (x : State P W). x.embedded_in) purged
              ∙ purge_related-embedded_in uids remembered))
            ok',
      )
