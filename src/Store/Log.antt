-- ===== src/Store/Log.antt =====
-- packages/plugin-rest-cache/server/src/services/cacheStore.ts: the log of recent purges.
use mathlib.Core.List.{reverse}
use plugin_rest_cache.Prelude.{
  ℕ, ◌+◌, Bool, true, false, List, [], ◌∷◌, ◌++◌, Option, none, some, ltb, ◌==◌, any, length, drop,
  if◌then◌else◌, Text,
}

-- A compiled pattern, by its test.
abbrev pub RegExp : Type 0
RegExp = Text → Bool

-- The patterns of one purge; `none` stands for a reset.
abbrev pub Patterns : Type 0
Patterns = Option (List RegExp)

pub record Purge : Type 0 where
  pub generation : ℕ
  pub reg_exps : Patterns

-- PURGE_LOG_SIZE
unfoldable pub purge_log_size : ℕ
purge_log_size = 1000

-- The log, oldest purge first, and the number of purges started.
pub record Purges : Type 0 where
  pub generation : ℕ
  pub purge_log : List Purge

abbrev pub no_purges : Purges
no_purges = record { generation = 0; purge_log = [] }

-- `purgeLog.shift()` past the limit.
unfoldable pub trim : ℕ → List Purge → List Purge
trim size log = if ltb size (length log) then drop 1 log else log

unfoldable pub record_purge_in : ℕ → Patterns → Purges → Purges
unfolding trim
record_purge_in size reg_exps p = record {
  generation = p.generation + 1;
  purge_log =
      trim size (p.purge_log ++ record { generation = p.generation + 1; reg_exps = reg_exps } ∷ []);
}

-- `!regExps || regExps.some((r) => r.test(key))`
abbrev pub covers : Text → Patterns → Bool
covers key none = true
covers key (some rs) = any (λ r. r key) rs

-- The loop of purgedSince, over the log from its end.
unfoldable pub scan : ℕ → Text → List Purge → Bool
scan since key [] = false
scan since key (e ∷ es) =
    let rest = scan since key es in
    if ltb since e.generation then (if covers key e.reg_exps then true else rest) else false

-- `!purgeLog.length || purgeLog[0].generation > since + 1`
unfoldable pub forgot : ℕ → List Purge → Bool
forgot since [] = true
forgot since (e ∷ es) = ltb (since + 1) e.generation

unfoldable pub purged_since : Purges → ℕ → Text → Bool
unfolding scan forgot
purged_since p since key =
    if since == p.generation
    then false
    else if forgot since p.purge_log
    then true
    else scan since key (reverse p.purge_log)

unfoldable pub record_purge : Patterns → Purges → Purges
unfolding record_purge_in
record_purge = record_purge_in purge_log_size
