-- ===== src/Redis.antt =====
-- src/common/redis/redis.service.ts: `get`, `set`, `del` and `ttl` on a client that may be
-- unreachable. The client (ioredis) is a parameter with the laws that the source relies on; the
-- payload's format, which `get` undoes, is left out.
pub mod Store
use procare_backend.Common.{
  ℕ, Uuid, ◌+◌, ◌*◌, ◌≤◌, ◌≡◌, Bool, true, false, ◌&&◌, Option, none, some, ltb, ◌==◌,
  if◌then◌else◌,
}
use procare_backend.Common.Text.{Text, text_eq}

-- The keys that the authentication uses; their prefixes are distinct.
pub data RedisKey : Type 0 where
  -- `session:admin:${id}`
  session : (admin_id : Uuid) → RedisKey
  -- `blacklist:token:${token}`
  blacklist : (token : Text) → RedisKey
  -- `auth:reset_code:${phone}`
  reset_code : (phone : Text) → RedisKey
  -- `forgot-password-token:${phone}`
  reset_token : (phone : Text) → RedisKey
  -- `rl:send_code:phone:${phone}`
  send_code_limit : (phone : Text) → RedisKey

unfoldable pub key_eq : RedisKey → RedisKey → Bool
key_eq (session a) (session b) = a == b
key_eq (blacklist a) (blacklist b) = text_eq a b
key_eq (reset_code a) (reset_code b) = text_eq a b
key_eq (reset_token a) (reset_token b) = text_eq a b
key_eq (send_code_limit a) (send_code_limit b) = text_eq a b
key_eq _ _ = false

abbrev pub second : ℕ
second = 1000

-- A reachable client: a value is there until it expires, is deleted or is written again. Times are
-- milliseconds, the time to live is in seconds.
pub record RedisClient : Type 1 where
  pub Store : Type 0
  pub get_at : RedisKey → ℕ → Store → Option Text
  pub set_ex : RedisKey → Text → ℕ → ℕ → Store → Store
  pub delete : RedisKey → Store → Store
  pub get_at-set_ex :
      (key : RedisKey) (value : Text) (ttl set_at now : ℕ) (store : Store)
      → get_at key now (set_ex key value ttl set_at store)
        ≡ (if ltb now (set_at + ttl * second) then some value else none)
  pub get_at-set_ex_other :
      (key other : RedisKey) (value : Text) (ttl set_at now : ℕ) (store : Store)
      → key_eq key other ≡ false
      → get_at key now (set_ex other value ttl set_at store) ≡ get_at key now store
  pub get_at-delete :
      (key : RedisKey) (now : ℕ) (store : Store) → get_at key now (delete key store) ≡ none
  pub get_at-delete_other :
      (key other : RedisKey) (now : ℕ) (store : Store)
      → key_eq key other ≡ false
      → get_at key now (delete other store) ≡ get_at key now store

module _ (client : RedisClient) (connected : Bool) where
  -- An unreachable client reads as if nothing was stored.
  unfoldable pub redis_get : RedisKey → ℕ → client.Store → Option Text
  redis_get key now store = if connected then client.get_at key now store else none

  unfoldable pub redis_set : RedisKey → Text → ℕ → ℕ → client.Store → client.Store
  redis_set key value ttl now store =
      if connected then client.set_ex key value ttl now store else store

  unfoldable pub redis_del : RedisKey → client.Store → client.Store
  redis_del key store = if connected then client.delete key store else store
