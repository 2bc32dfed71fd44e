-- ===== src/Storage.antt =====
-- src/storage/storage.service.ts: the class `StorageService`. It asks Redis, or the in-memory adapter, to
-- which it turns when Redis throws. A method runs to its end before another one begins; those of
-- RedisStorage read no clock, those of MemoryStorage take the times that they read.
pub mod Served
mod Tests
use talksy.Common.{
  ℕ, Bool, true, false, not, ◌&&◌, if◌then◌else◌, List, Option, none, some, String, Result, ok,
  throw,
}
use talksy.MemoryStorage
use talksy.MemoryStorage.{Store}
use talksy.RedisStorage
use talksy.RedisStorage.{Env}

-- `activeAdapter` is one of two.
pub record StorageService (R V : Type 0) : Type 0 where
  pub active_redis : Bool
  pub using_fallback : Bool
  pub memory : Store V
  pub redis : R

module _ {R V : Type 0} where
  unfoldable pub switch_to_fallback : StorageService R V → StorageService R V
  switch_to_fallback s = record s { active_redis = false; using_fallback = true }

  -- A method of the adapter in memory, and the shape of each method of the service: what Redis does,
  -- where it is active, and what the adapter in memory does, where it is or after Redis has thrown.
  abbrev pub in_memory :
      {A : Type 0} → (Store V → Store V × A) → StorageService R V → StorageService R V × A
  in_memory f s = let (m, a) = f s.memory in (record s { memory = m }, a)

  abbrev pub with_fallback :
      {A : Type 0}
      → (R → R × Result A)
      → (Store V → Store V × A)
      → StorageService R V
      → StorageService R V × A
  with_fallback {A = A} ask f s =
      let (r, reply) = ask s.redis in
      let asked : StorageService R V = record s { redis = r } in
      let answer = elim reply as (λ x. StorageService R V × A) [
        | ok a ↦ (asked, a)
        | throw message ↦ in_memory f (switch_to_fallback asked)
      ] in
      if s.active_redis then answer else in_memory f s

  abbrev pub is_using_fallback : StorageService R V → Bool
  is_using_fallback s = s.using_fallback

  abbrev pub is_using_redis : StorageService R V → Bool
  is_using_redis s = s.active_redis && not s.using_fallback

module _ {R V : Type 0} (env : Env R V) where
  -- The configuration says whether Redis is enabled.
  unfoldable pub initialize_storage : Bool → StorageService R V → StorageService R V
  initialize_storage redis_enabled s =
      if redis_enabled
      then (if RedisStorage.connect env s.redis
          then record s { active_redis = true; using_fallback = false }
          else record s { active_redis = false; using_fallback = true })
      else record s { active_redis = false; using_fallback = false }

  unfoldable pub get : ℕ → String → StorageService R V → StorageService R V × Option V
  get now key s = with_fallback (RedisStorage.get env key) (MemoryStorage.get now key) s

  unfoldable pub set :
      ℕ → ℕ → String → V → Option ℕ → StorageService R V → StorageService R V × Unit {0}
  set now now' key value ttl_ms s =
      with_fallback (RedisStorage.set env key value ttl_ms)
        (λ m. (MemoryStorage.set now now' key value ttl_ms m, tt)) s

  unfoldable pub delete : String → StorageService R V → StorageService R V × Bool
  delete key s = with_fallback (RedisStorage.delete env key) (MemoryStorage.delete key) s

  unfoldable pub has : ℕ → String → StorageService R V → StorageService R V × Bool
  has now key s = with_fallback (RedisStorage.has env key) (MemoryStorage.has now key) s

  unfoldable pub keys : ℕ → StorageService R V → StorageService R V × List String
  keys now s = with_fallback (RedisStorage.keys env) (λ m. (m, MemoryStorage.keys now m)) s

  unfoldable pub clear : StorageService R V → StorageService R V × Unit {0}
  clear s = with_fallback (RedisStorage.clear env) (λ m. (MemoryStorage.clear m, tt)) s

  unfoldable pub count : ℕ → StorageService R V → StorageService R V × ℕ
  count now s = with_fallback (RedisStorage.count env) (λ m. (m, MemoryStorage.count now m)) s

  unfoldable pub attempt_redis_reconnection : StorageService R V → StorageService R V × Bool
  attempt_redis_reconnection s =
      if not s.using_fallback
      then (s, is_using_redis s)
      else if RedisStorage.connect env s.redis
      then (record s { active_redis = true; using_fallback = false }, true)
      else (s, false)
