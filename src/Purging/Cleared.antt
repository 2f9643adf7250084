-- ===== src/Purging/Cleared.antt =====
-- packages/plugin-rest-cache/server/src/services/cacheStore.ts: what clearByUid removes.
use plugin_rest_cache.Prelude.{
  ◌≡◌, ap, Bool, true, ◌&&◌, Option, none, some, List, if◌then◌else◌, length, drop, Text,
  starts_with,
}
use plugin_rest_cache.Patterns.{Params}
use plugin_rest_cache.Purging.{
  CacheContentTypeConfig, CachePluginStrategy, get, uid_regexps, clear_by_uid,
}
use plugin_rest_cache.Purging.Matched.{meant, uid_regexps-meant}
use plugin_rest_cache.Store.Clearing.{Leaves, Leaves-entries, serving, clear_by_regexp_lem}
use plugin_rest_cache.Store.Contract.{Provider}
use plugin_rest_cache.Store.Lawful.{Lawful}
use plugin_rest_cache.Store.Log.{Purges, RegExp, record_purge}

module _ {P : Type 0} (api : Provider P) (lawful : Lawful api) (prefix : Text)
    (compile : Text → Option RegExp) (strategy : CachePluginStrategy) where
  open lawful use {view}

  -- The entries after a purge of a content type.
  abbrev pub after_clear :
      CacheContentTypeConfig → Option Params → Bool → (Text → Option Text) → Text → Option Text
  after_clear conf params wildcard entries j =
      if starts_with j prefix
        && meant compile strategy conf params wildcard (drop (length prefix) j)
      then none
      else entries j

  -- With a provider that keeps its laws and is ready, clearByUid of a cached content type resolves,
  -- records the purge, and removes exactly the entries under the prefix whose keys belong to its GET
  -- routes with these parameters or, if related content types are cleared, to a GET route of a cached
  -- related one with any, if every pattern compiles.
  pub clear_by_uid_lem :
      (conf : CacheContentTypeConfig) (uid : Text) (params : Option Params) (wildcard : Bool)
      (reg_exps : List RegExp) (p : P) (g : Purges)
      → get strategy uid ≡ some conf
      → uid_regexps compile strategy conf uid params wildcard ≡ some reg_exps
      → api.ready p ≡ true
      → Leaves api lawful prefix
          (record_purge (some reg_exps) g)
          (after_clear conf params wildcard (view p))
          (clear_by_uid compile strategy api prefix uid params wildcard
            (serving api lawful prefix p g))
  unfolding clear_by_uid
  clear_by_uid_lem conf uid params wildcard reg_exps p g found compiled r =
      rw (found, clear_by_uid, compiled)
        (Leaves-entries api lawful prefix (clear_by_regexp_lem api lawful prefix reg_exps p g r)
          (λ j.
            ap (λ b. if starts_with j prefix && b then none else view p j)
              (uid_regexps-meant compile strategy conf uid params wildcard reg_exps
                (drop (length prefix) j) found compiled)))
