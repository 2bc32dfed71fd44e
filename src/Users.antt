-- ===== src/Users.antt =====
-- src/user/user.service.ts: the class `UserService`. Users are kept in Redis, or in two maps when there is
-- no client or a command throws, and in the caches of CacheService. A method runs to its end before
-- another one begins; `clock` gives the times that it reads, in order. The id that `uuidv4` makes and the salt
-- that `bcrypt` draws are arguments.
pub mod Accounts
pub mod Consistent
pub mod Finds
pub mod Changes
pub mod Refine
pub mod Fallback
mod Tests
use talksy.Common.{
  ℕ, ◌+◌, Bool, true, false, if◌then◌else◌, List, [], ◌∷◌, Option, none, some, String, str_dec, ite,
  Result, ok, throw, join, ◌==◌, length, Option-cases,
}
use talksy.Common.Map
use talksy.Common.Map.{Map}
use talksy.CacheService
use talksy.CacheService.{User, CacheService}
use talksy.RedisPool
use talksy.RedisPool.{Redis, get_client, is_available}

-- What the service is given: Redis, the library's functions, and its configuration.
pub record Env (R : Type 0) : Type 0 where
  pub redis : Redis R
  pub lower : String → String
  -- The rounds, the salt and the password.
  pub hash : ℕ → String → String → String
  pub compare : String → String → Bool
  -- `JSON.stringify` and `JSON.parse`, with the dates.
  pub serialize_user : User → String
  pub deserialize_user : String → Result User
  pub key_prefix : String
  pub bcrypt_rounds : ℕ

pub record UserService (R : Type 0) : Type 0 where
  pub users : Map User
  pub email_index : Map String
  pub cache : CacheService
  pub redis : R

pub record CreateUser : Type 0 where
  pub email : String
  pub password : String

-- A text that is empty counts as none.
abbrev pub nonempty : Option String → Option String
nonempty none = none
nonempty (some s) = ite (str_dec s "") none (some s)

abbrev pub or_else : {A : Type 0} → Option A → Option A → Option A
or_else none b = b
or_else (some a) b = some a

-- The times from the n-th on.
abbrev pub later : ℕ → (ℕ → ℕ) → ℕ → ℕ
later n clock k = clock (n + k)

module _ {R : Type 0} (env : Env R) where
  abbrev pub has_client : R → Bool
  has_client r = get_client (env.redis.pool r)

  abbrev pub get_user_key : String → String
  get_user_key id = join (env.key_prefix ∷ "user:" ∷ id ∷ [])

  abbrev pub get_email_index_key : String → String
  get_email_index_key email = join (env.key_prefix ∷ "user:email:" ∷ env.lower email ∷ [])

  -- The part of `findById` that asks Redis.
  unfoldable pub load_user : String → R → R × Option User
  load_user id r =
      let (r', reply) = env.redis.get (get_user_key id) r in
      if has_client r
      then (
        r',
        elim reply [
          | ok stored ↦ elim (nonempty stored) [
            | none ↦ none
            | some text ↦ elim (env.deserialize_user text) [
              | ok user ↦ some user
              | throw message ↦ none
            ]
          ]
          | throw message ↦ none
        ],
      )
      else (r, none)

  unfoldable pub find_by_id : (ℕ → ℕ) → String → UserService R → UserService R × Option User
  find_by_id clock id s =
      let (c, cached) = CacheService.get_user (clock 0) (clock 1) id s.cache in
      let (r, loaded) = load_user id s.redis in
      let fallback = if is_available (env.redis.pool r) then none else Map.get id s.users in
      elim cached [
        | some user ↦ (record s { cache = c }, some user)
        | none ↦ elim (or_else loaded fallback) [
          | none ↦ (record s { cache = c; redis = r }, none)
          | some user ↦ (
            record s {
              cache = CacheService.set_user env.lower (clock 2) (clock 3) user c;
              redis = r;
            },
            some user,
          )
        ]
      ]

  -- The look-up of an address in the map, for `findByEmail`.
  unfoldable pub find_in_index : (ℕ → ℕ) → String → UserService R → UserService R × Option User
  find_in_index clock normalized s = elim (nonempty (Map.get normalized s.email_index)) [
    | none ↦ (s, none)
    | some id ↦ find_by_id clock id s
  ]

  unfoldable pub find_by_email : (ℕ → ℕ) → String → UserService R → UserService R × Option User
  find_by_email clock email s =
      let normalized = env.lower email in
      let (c, cached) =
        CacheService.get_user_id_by_email env.lower (clock 0) (clock 1) normalized s.cache in
      let (r, reply) = env.redis.get (get_email_index_key normalized) s.redis in
      let s' : UserService R = record s { cache = c } in
      let asked : UserService R = record s { cache = c; redis = r } in
      elim (nonempty cached) [
        | some id ↦ find_by_id (later 2 clock) id s'
        | none ↦
            if has_client s.redis
            then elim reply [
              | ok stored ↦ elim (nonempty stored) [
                | none ↦ (asked, none)
                | some id ↦ find_by_id (later 2 clock) id asked
              ]
              | throw message ↦ find_in_index (later 2 clock) normalized asked
            ]
            else find_in_index (later 2 clock) normalized s'
      ]

  -- The two commands of `create`; whether both succeeded.
  unfoldable pub save_user : User → R → R × Bool
  save_user user r =
      let (r', first) = env.redis.set (get_user_key user.id) (env.serialize_user user) r in
      let (r'', second) = env.redis.set (get_email_index_key user.email) user.id r' in
      elim first [
        | throw message ↦ (r', false)
        | ok u ↦ elim second [ throw message ↦ (r'', false) | ok u' ↦ (r'', true) ]
      ]

  abbrev pub put_user : User → UserService R → UserService R
  put_user user s = record s {
    users = Map.set user.id user s.users;
    email_index = Map.set user.email user.id s.email_index;
  }

  abbrev pub new_user : ℕ → String → String → CreateUser → User
  new_user now id salt dto = record {
    id = id;
    email = env.lower dto.email;
    password_hash = env.hash env.bcrypt_rounds salt dto.password;
    created_at = now;
    updated_at = now;
  }

  -- `create` after the check.
  unfoldable pub store_user : (ℕ → ℕ) → User → UserService R → UserService R
  store_user clock user s =
      let (r, saved) = save_user user s.redis in
      let asked : UserService R = record s { redis = r } in
      let stored =
        if has_client s.redis
        then (if saved then asked else put_user user asked)
        else put_user user s in
      record stored {
        cache = CacheService.set_user env.lower (clock 0) (clock 1) user stored.cache;
      }

  unfoldable pub create :
      (ℕ → ℕ) → String → String → CreateUser → UserService R → UserService R × Result User
  create clock id salt dto s =
      let (s', existing) = find_by_email clock (env.lower dto.email) s in
      let user = new_user (clock 6) id salt dto in
      elim existing [
        | some other ↦ (s', throw "Email already registered")
        | none ↦ (store_user (later 7 clock) user s', ok user)
      ]

  abbrev pub validate_password : User → String → Bool
  validate_password user password = env.compare password user.password_hash

  -- `updatePassword` after the look-up.
  unfoldable pub store_password : (ℕ → ℕ) → String → User → User → UserService R → UserService R
  store_password clock user_id user updated s =
      let (r, reply) = env.redis.set (get_user_key user_id) (env.serialize_user updated) s.redis in
      let asked : UserService R = record s { redis = r } in
      let in_memory : UserService R → UserService R =
        λ t. record t { users = Map.set user_id updated t.users } in
      let stored =
        if has_client s.redis
        then elim reply [ ok u ↦ asked | throw message ↦ in_memory asked ]
        else in_memory s in
      let c = CacheService.invalidate_user env.lower user_id (some user.email) stored.cache in
      record stored {
        cache =
            CacheService.invalidate_all_tokens_for_user user_id
              (CacheService.set_user env.lower (clock 0) (clock 1) updated c);
      }

  unfoldable pub update_password :
      (ℕ → ℕ) → String → String → String → UserService R → UserService R × Result (Unit {0})
  update_password clock salt user_id new_password s =
      let (s', found) = find_by_id clock user_id s in
      elim found [
        | none ↦ (s', throw "User not found")
        | some user ↦
            let updated = record user {
              password_hash = env.hash env.bcrypt_rounds salt new_password;
              updated_at = clock 4;
            } in
            (store_password (later 5 clock) user_id user updated s', ok tt)
      ]

  -- The two commands of `deleteUser`.
  unfoldable pub drop_user : String → String → R → R × Bool
  drop_user user_id email r =
      let (r', first) = env.redis.del (get_user_key user_id ∷ []) r in
      let (r'', second) = env.redis.del (get_email_index_key email ∷ []) r' in
      elim first [
        | throw message ↦ (r', false)
        | ok n ↦ elim second [ throw message ↦ (r'', false) | ok m ↦ (r'', true) ]
      ]

  -- `deleteUser` after the look-up.
  unfoldable pub remove_user : String → User → UserService R → UserService R
  remove_user user_id user s =
      let c =
        CacheService.invalidate_all_tokens_for_user user_id
          (CacheService.invalidate_user env.lower user_id (some user.email) s.cache) in
      let (r, dropped) = drop_user user_id user.email s.redis in
      let asked : UserService R = record s { cache = c; redis = r } in
      let in_memory : UserService R → UserService R = λ t. record t {
        users = Map.delete user_id t.users;
        email_index = Map.delete user.email t.email_index;
      } in
      if has_client s.redis
      then (if dropped then asked else in_memory asked)
      else in_memory (record s { cache = c })

  unfoldable pub delete_user : (ℕ → ℕ) → String → UserService R → UserService R × Bool
  delete_user clock user_id s =
      let (s', found) = find_by_id clock user_id s in
      elim found [ none ↦ (s', false) | some user ↦ (remove_user user_id user s', true) ]

  abbrev pub is_using_redis : UserService R → Bool
  is_using_redis s = is_available (env.redis.pool s.redis)

  -- The keys that are found are deleted, where there are any.
  unfoldable pub clear_redis : R → R
  clear_redis r =
      let (r', reply) = env.redis.keys (join (env.key_prefix ∷ "user:*" ∷ [])) r in
      if has_client r
      then elim reply [
        | throw message ↦ r'
        | ok keys ↦ if length keys == 0 then r' else (env.redis.del keys r').0
      ]
      else r

  unfoldable pub clear_all_users : UserService R → UserService R
  clear_all_users s = record s {
    users = [];
    email_index = [];
    cache = CacheService.clear_all s.cache;
    redis = clear_redis s.redis;
  }
