-- ===== src/Strategy/Resolved.antt =====
-- packages/plugin-rest-cache/server/src/utils/config/resolveUserStrategy.ts: what becomes of a draft.
use mathlib.Core.Path.{subst}
use plugin_rest_cache.Prelude.{
  ◌≡◌, refl, sym, ◌∙◌, ◌≢◌, inl, inr, true, false, ◌||◌, not, Option, none, some, List, [],
  if◌then◌else◌, Bool-cases, Option-cases, if_true, if_false, Text, lit,
}
use plugin_rest_cache.Keys.Config.{default_to}
use plugin_rest_cache.Purging.{CacheContentTypeConfig}
use plugin_rest_cache.Strategy.{
  resolved, unknown_content_type, no_api, default_routes, is_of_plugin, resolved_config,
  inject_defaults, resolve_content_type,
}
use plugin_rest_cache.Strategy.Inputs.{DraftContentTypeConfig, ContentType, ApiRoute}
use plugin_rest_cache.Strategy.Names.{api_name_from_uid}

unknown≢resolved : {A : Type 0} {uid : Text} {a : A} → unknown_content_type uid ≢ resolved a
unknown≢resolved e = cc

no_api≢resolved : {A : Type 0} {name : Text} {a : A} → no_api name ≢ resolved a
no_api≢resolved e = cc

pub resolved_injective : {A : Type 0} {a b : A} → resolved a ≡ resolved b → a ≡ b
resolved_injective e = cc

module _ (api_prefix : Text) (content_type_of : Text → Option ContentType)
    (apis : Text → Option (List ApiRoute)) (related : Text → List Text) where
  -- What resolution makes of a draft.
  pub data IsResolved (d : DraftContentTypeConfig) : CacheContentTypeConfig → Type 0 where
    alone :
        (content_type : ContentType)
        → content_type_of d.content_type ≡ some content_type
        → (not d.inject_default_routes || is_of_plugin content_type) ≡ true
        → IsResolved d (resolved_config api_prefix content_type_of apis related d [])
    injected :
        (content_type : ContentType) (rs : List ApiRoute)
        → content_type_of d.content_type ≡ some content_type
        → (not d.inject_default_routes || is_of_plugin content_type) ≡ false
        → apis (default_to (lit "undefined") (api_name_from_uid d.content_type)) ≡ some rs
        → IsResolved d (
            resolved_config api_prefix content_type_of apis related d
              (default_routes api_prefix d content_type rs))

  some_content_type :
      (d : DraftContentTypeConfig) (ct : ContentType)
      → content_type_of d.content_type ≡ some ct
      → resolve_content_type api_prefix content_type_of apis related d ≡ (
          if not d.inject_default_routes || is_of_plugin ct
          then resolved (resolved_config api_prefix content_type_of apis related d [])
          else inject_defaults api_prefix content_type_of apis related d ct)
  unfolding resolve_content_type
  some_content_type d ct e = rw (e, resolve_content_type) refl

  no_content_type :
      (d : DraftContentTypeConfig)
      → content_type_of d.content_type ≡ none
      → resolve_content_type api_prefix content_type_of apis related d
        ≡ unknown_content_type d.content_type
  unfolding resolve_content_type
  no_content_type d e = rw (e, resolve_content_type) refl

  inject_defaults-found :
      (d : DraftContentTypeConfig) (ct : ContentType) (rs : List ApiRoute)
      → apis (default_to (lit "undefined") (api_name_from_uid d.content_type)) ≡ some rs
      → inject_defaults api_prefix content_type_of apis related d ct
        ≡ resolved (
            resolved_config api_prefix content_type_of apis related d
              (default_routes api_prefix d ct rs))
  unfolding inject_defaults
  inject_defaults-found d ct rs e = rw (e, inject_defaults) refl

  inject_defaults-missing :
      (d : DraftContentTypeConfig) (ct : ContentType)
      → apis (default_to (lit "undefined") (api_name_from_uid d.content_type)) ≡ none
      → inject_defaults api_prefix content_type_of apis related d ct
        ≡ no_api (default_to (lit "undefined") (api_name_from_uid d.content_type))
  unfolding inject_defaults
  inject_defaults-missing d ct e = rw (e, inject_defaults) refl

  pub resolve_content_type-IsResolved :
      (d : DraftContentTypeConfig) (conf : CacheContentTypeConfig)
      → resolve_content_type api_prefix content_type_of apis related d ≡ resolved conf
      → IsResolved d conf
  resolve_content_type-IsResolved d conf h = elim (Option-cases (content_type_of d.content_type)) [
    | inl e ↦ absurd (unknown≢resolved (sym (no_content_type d e) ∙ h))
    | inr (ct, e) ↦ elim (Bool-cases (not d.inject_default_routes || is_of_plugin ct)) [
      | inl skip ↦
          subst (IsResolved d)
            (resolved_injective (sym (if_true _ _ _ skip) ∙ (sym (some_content_type d ct e) ∙ h)))
            (alone ct e skip)
      | inr inject ↦
          let h' = sym (if_false _ _ _ inject) ∙ (sym (some_content_type d ct e) ∙ h) in
          elim (Option-cases
            (apis (default_to (lit "undefined") (api_name_from_uid d.content_type)))) [
              | inl missing ↦
                  absurd (no_api≢resolved (sym (inject_defaults-missing d ct missing) ∙ h'))
              | inr (rs, found) ↦
                  subst (IsResolved d)
                    (resolved_injective (sym (inject_defaults-found d ct rs found) ∙ h'))
                    (injected ct rs e inject found)
            ]
    ]
  ]
