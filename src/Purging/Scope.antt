-- ===== src/Purging/Scope.antt =====
-- packages/plugin-rest-cache/server/src/utils/middlewares/registerDocumentServiceMiddleware.ts: the document
-- that a write is to, and the scope of its purge.
use plugin_rest_cache.Prelude.{
  text_eq-false, ◌≡◌, refl, ◌≢◌, Bool, true, false, ◌||◌, Option, none, some, [], ◌∷◌, arith,
  if_false, Text, lit, text_eq, text_eq_refl,
}
use plugin_rest_cache.Patterns.{Params}
use plugin_rest_cache.Store.Listing.{has}
use plugin_rest_cache.Purging.Triggers.{
  write_actions, DocumentServiceContext, resolve_document_id, document_params,
}

-- The actions that write.
pub data IsWrite : Text → Type 0 where
  creating : IsWrite (lit "create")
  copying : IsWrite (lit "clone")
  updating : IsWrite (lit "update")
  deleting : IsWrite (lit "delete")
  publishing : IsWrite (lit "publish")
  unpublishing : IsWrite (lit "unpublish")
  discarding : IsWrite (lit "discardDraft")

pub IsWrite-has : (action : Text) → IsWrite action → has write_actions action ≡ true
unfolding text_eq
IsWrite-has _ creating = refl
IsWrite-has _ copying = refl
IsWrite-has _ updating = refl
IsWrite-has _ deleting = refl
IsWrite-has _ publishing = refl
IsWrite-has _ unpublishing = refl
IsWrite-has _ discarding = refl

-- The id of the document that a write is to: what a creation or a copy gives, and else the one that the
-- write names.
pub data Writes (ctx : DocumentServiceContext) (result : Option Text) : Option Text → Type 0 where
  created : ctx.action ≡ lit "create" → Writes ctx result result
  cloned : ctx.action ≡ lit "clone" → Writes ctx result result
  named : ctx.action ≢ lit "create" → ctx.action ≢ lit "clone" → Writes ctx result ctx.document_id

-- The parameters of the purge for an id, and whether it is for any parameters.
pub data Scopes : Option Text → Option Params → Bool → Type 0 where
  document : (id : Text) → id ≢ [] → Scopes (some id) (some ((lit "id", id) ∷ [])) false
  unnamed : Scopes (some []) (some []) true
  unknown : Scopes none (some []) true

pub resolve_document_id-Writes :
    (ctx : DocumentServiceContext) (result id : Option Text)
    → Writes ctx result id
    → resolve_document_id ctx result ≡ id
unfolding resolve_document_id
resolve_document_id-Writes ctx result _ (created e) = rw (e, text_eq_refl (lit "create")) refl
resolve_document_id-Writes ctx result _ (cloned e) =
    rw (e, text_eq_refl (lit "clone")) (ground arith)
resolve_document_id-Writes ctx result _ (named a b) =
    if_false (text_eq ctx.action (lit "create") || text_eq ctx.action (lit "clone")) _ _
      (ground (arith, text_eq-false _ _ a, text_eq-false _ _ b))

pub document_params-Scopes :
    (id : Option Text) (params : Option Params) (wildcard : Bool)
    → Scopes id params wildcard
    → (some (document_params id).0 ≡ params) × ((document_params id).1 ≡ wildcard)
document_params-Scopes _ _ _ (document [] apart) = absurd (apart refl)
document_params-Scopes _ _ _ (document (c ∷ id) apart) = (refl, refl)
document_params-Scopes _ _ _ unnamed = (refl, refl)
document_params-Scopes _ _ _ unknown = (refl, refl)
