-- ===== src/RedisStorage.antt =====
-- src/storage/adapters/redis-storage.adapter.ts: the class `RedisStorageAdapter`, for sessions of any type.
-- The commands of Redis, JSON and `substring` are parameters; a method throws where a command does,
-- or where there is no client.
use talksy.Common.{
  ℕ, Bool, ltb, if◌then◌else◌, List, [], ◌∷◌, map, Option, none, some, String, str_dec, ite, Result,
  ok, throw, join, length,
}
use talksy.RedisPool.{Redis, get_client, is_available}

pub record Env (R V : Type 0) : Type 0 where
  pub redis : Redis R
  pub serialize_session : V → String
  pub deserialize_session : String → Result V
  pub key_prefix : String
  -- `substring` from the length of the prefix on.
  pub without_prefix : String → String

-- `getClient`, which throws, before the commands of a method.
abbrev pub with_client : {R V A : Type 0} → Env R V → (R → R × Result A) → R → R × Result A
with_client env commands r =
    if get_client (env.redis.pool r) then commands r else (r, throw "Redis not connected")

-- What follows a command that did not throw.
abbrev pub then_return : {R A B : Type 0} → (A → Result B) → R × Result A → R × Result B
then_return f (r, ok a) = (r, f a)
then_return f (r, throw message) = (r, throw message)

module _ {R V : Type 0} (env : Env R V) where
  abbrev pub connect : R → Bool
  connect r = is_available (env.redis.pool r)

  abbrev pub get_full_key : String → String
  get_full_key key = join (env.key_prefix ∷ "session:" ∷ key ∷ [])

  abbrev pub pattern : String
  pattern = join (env.key_prefix ∷ "session:*" ∷ [])

  abbrev pub parse : Option String → Result (Option V)
  parse none = ok none
  parse (some stored) = ite (str_dec stored "") (ok none) (elim (env.deserialize_session stored) [
    | ok session ↦ ok (some session)
    | throw message ↦ throw message
  ])

  unfoldable pub get : String → R → R × Result (Option V)
  get key r = with_client env (λ s. then_return parse (env.redis.get (get_full_key key) s)) r

  -- No time to live, and zero, are none.
  unfoldable pub set : String → V → Option ℕ → R → R × Result (Unit {0})
  set key value none r =
      with_client env (λ s. env.redis.set (get_full_key key) (env.serialize_session value) s) r
  set key value (some ttl_ms) r =
      with_client env
        (λ s.
          if ltb 0 ttl_ms
          then env.redis.set_px (get_full_key key) (env.serialize_session value) ttl_ms s
          else env.redis.set (get_full_key key) (env.serialize_session value) s)
        r

  unfoldable pub delete : String → R → R × Result Bool
  delete key r =
      with_client env
        (λ s. then_return (λ n. ok (ltb 0 n)) (env.redis.del (get_full_key key ∷ []) s)) r

  unfoldable pub has : String → R → R × Result Bool
  has key r =
      with_client env (λ s. then_return (λ n. ok (ltb 0 n)) (env.redis.exists (get_full_key key) s))
        r

  unfoldable pub keys : R → R × Result (List String)
  keys r =
      with_client env
        (λ s.
          then_return (λ full_keys. ok (map env.without_prefix full_keys))
            (env.redis.keys pattern s))
        r

  -- The second command of `clear`, where there are keys.
  abbrev pub delete_keys : R × Result (List String) → R × Result (Unit {0})
  delete_keys (r, throw message) = (r, throw message)
  delete_keys (r, ok []) = (r, ok tt)
  delete_keys (r, ok (k ∷ ks)) = then_return (λ n. ok tt) (env.redis.del (k ∷ ks) r)

  unfoldable pub clear : R → R × Result (Unit {0})
  clear r = with_client env (λ s. delete_keys (env.redis.keys pattern s)) r

  unfoldable pub count : R → R × Result ℕ
  count r =
      with_client env (λ s. then_return (λ keys. ok (length keys)) (env.redis.keys pattern s)) r
