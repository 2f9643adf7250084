-- ===== src/Redis/Client.antt =====
-- packages/provider-rest-cache-redis/src/RedisCacheProvider.ts: the commands it sends, and what a
-- server makes of them.
use plugin_rest_cache.Prelude.{ℕ, ◌≡◌, Bool, ◌&&◌, ◌||◌, not, Option, List, Text, text_eq}
use plugin_rest_cache.Store.Listing.{has}

-- The commands, with the name of the set where there is one. The last is a MULTI of UNLINK and SREM.
pub data Command : Type 0 where
  set : Text → Text → Option ℕ → Command
  sadd srem unlink_srem : Text → List Text → Command
  unlink : List Text → Command
  exists : Text → Command

-- A server: which entries exist, which members a set has, and what a command leaves.
pub record Server (R : Type 0) : Type 0 where
  pub live : R → Text → Bool
  pub member : Text → R → Text → Bool
  pub exec : Command → R → R

abbrev pub live_after : Command → (Text → Bool) → Text → Bool
live_after (set name value ttl) live j = text_eq j name || live j
live_after (unlink names) live j = not (has names j) && live j
live_after (unlink_srem s names) live j = not (has names j) && live j
live_after _ live j = live j

abbrev pub members_after : Text → Command → (Text → Bool) → Text → Bool
members_after s (sadd s' names) members j = (text_eq s' s && has names j) || members j
members_after s (srem s' names) members j = not (text_eq s' s && has names j) && members j
members_after s (unlink_srem s' names) members j = not (text_eq s' s && has names j) && members j
members_after _ _ members j = members j

-- What Redis documents of these commands, where no entry is named like a set.
pub record Obeys {R : Type 0} (server : Server R) : Type 0 where
  pub exec-live :
      (c : Command) (r : R) (j : Text)
      → server.live (server.exec c r) j ≡ live_after c (server.live r) j
  pub exec-member :
      (s : Text) (c : Command) (r : R) (j : Text)
      → server.member s (server.exec c r) j ≡ members_after s c (server.member s r) j
