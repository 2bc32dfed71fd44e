-- ===== src/Users/Fallback.antt =====
-- Code: src/user/user.service.ts, with Redis: users that are stored in it, and users for which a command
-- throws.
use talksy.Common.{
  ℕ, ◌≡◌, ◌≢◌, refl, ap, ◌∙◌, true, false, if◌then◌else◌, none, some, arith, String, str_dec,
  if_pos, if_neg, inl, inr, Option-cases, ok,
}
use talksy.Common.Map
use talksy.Common.Map.{Map}
use talksy.CacheService.{User, CacheService, get_user, get_user_id_by_email}
use talksy.RedisPool.{is_available}
use talksy.Users.{
  Env, UserService, has_client, get_user_key, get_email_index_key, load_user, save_user, store_user,
  find_by_id, or_else, find_by_email, create, new_user, CreateUser,
}

module _ {R : Type 0} (env : Env R) where
  -- What `findById` returns of a user that is not in the cache.
  find_by_id_missed :
      (clock : ℕ → ℕ) (id : String) (s : UserService R)
      → (get_user (clock 0) (clock 1) id s.cache).1 ≡ none
      → let (r, loaded) = load_user env id s.redis in
        (find_by_id env clock id s).1
        ≡ or_else loaded (if is_available (env.redis.pool r) then none else Map.get id s.users)
  unfolding find_by_id
  find_by_id_missed clock id s miss =
      let (r, loaded) = load_user env id s.redis in
      let fallback = if is_available (env.redis.pool r) then none else Map.get id s.users in
      elim (Option-cases (or_else loaded fallback)) [
        | inl gone ↦ rw (find_by_id, miss, gone) refl
        | inr (user, found) ↦ rw (find_by_id, miss, found) refl
      ]

  store_user-redis :
      (clock : ℕ → ℕ) (user : User) (s : UserService R)
      → has_client env s.redis ≡ true
      → (store_user env clock user s).redis ≡ (save_user env user s.redis).0
  unfolding store_user
  store_user-redis clock user s client = ground arith

  -- What `findByEmail` returns where neither the cache nor Redis has the address: the maps in memory are
  -- not asked.
  find_by_email_missed :
      (clock : ℕ → ℕ) (email : String) (s : UserService R)
      → (get_user_id_by_email env.lower (clock 0) (clock 1) (env.lower email) s.cache).1 ≡ none
      → has_client env s.redis ≡ true
      → (env.redis.get (get_email_index_key env (env.lower email)) s.redis).1 ≡ ok none
      → (find_by_email env clock email s).1 ≡ none
  unfolding find_by_email
  find_by_email_missed clock email s miss client absent =
      rw (find_by_email, miss, client, absent) refl

  -- An address can be registered twice: where a command of `create` throws, and Redis stays connected
  -- without the address, the user and the address are kept in memory; but once the cache has lost the
  -- address, a later `create` for it is not refused, and makes another account.
  pub create-store_user_failed :
      (clock clock' : ℕ → ℕ) (user : User) (id salt : String) (dto : CreateUser) (s : UserService R)
      (c : CacheService)
      → has_client env s.redis ≡ true
      → (save_user env user s.redis).1 ≡ false
      → has_client env (save_user env user s.redis).0 ≡ true
      → user.email ≡ env.lower dto.email
      → (env.redis.get
          (get_email_index_key env (env.lower (env.lower dto.email)))
          (save_user env user s.redis).0).1
        ≡ ok none
      → (get_user_id_by_email env.lower (clock' 0) (clock' 1) (env.lower (env.lower dto.email)) c).1
        ≡ none
      → let stored = store_user env clock user s in
        (Map.get (env.lower dto.email) stored.email_index ≡ some user.id)
        × (Map.get user.id stored.users ≡ some user)
        × ((create env clock' id salt dto (record stored { cache = c })).1
            ≡ ok (new_user env (clock' 6) id salt dto))
  unfolding store_user create
  create-store_user_failed clock clock' user id salt dto s c client failed client' same absent
        miss =
      let s' : UserService R = record (store_user env clock user s) { cache = c } in
      let left = store_user-redis clock user s client in
      let gone =
        find_by_email_missed clock' (env.lower dto.email) s' miss
          (ap (has_client env) left ∙ client')
          (ap (λ r. (env.redis.get (get_email_index_key env (env.lower (env.lower dto.email))) r).1)
              left
            ∙ absent) in
      (
        rw (client, failed, store_user)
            (Map.get-set (env.lower dto.email) user.email user.id s.email_index
              ∙ if_pos (str_dec user.email (env.lower dto.email)) same _ _),
        rw (client, failed, store_user)
            (Map.get-set user.id user.id user s.users ∙ if_pos (str_dec user.id user.id) refl _ _),
        rw (create, gone) refl,
      )

  -- What Redis does while it is up: a value that is set is there, under its key and no other.
  pub record IsUp (r : R) : Type 0 where
    pub client : (k v : String) → has_client env (env.redis.set k v r).0 ≡ true
    pub accepts : (k v : String) → (env.redis.set k v r).1 ≡ ok tt
    pub keeps : (k v : String) → (env.redis.get k (env.redis.set k v r).0).1 ≡ ok (some v)
    pub leaves :
        (j k v : String)
        → k ≢ j
        → (env.redis.get j (env.redis.set k v r).0).1 ≡ (env.redis.get j r).1

  -- A user that is stored in Redis is found by its id when the caches have lost it, as it was stored, and
  -- the maps of users and of addresses in memory stay as they were. Redis is up and keeps what it is
  -- sent, the text of a user is parsed to it and is not empty, and the two keys differ.
  pub find_by_id-store_user :
      (clock clock' : ℕ → ℕ) (user : User) (s : UserService R) (c : CacheService)
      → has_client env s.redis ≡ true
      → IsUp s.redis
      → IsUp (env.redis.set (get_user_key env user.id) (env.serialize_user user) s.redis).0
      → env.serialize_user user ≢ ""
      → env.deserialize_user (env.serialize_user user) ≡ ok user
      → get_email_index_key env user.email ≢ get_user_key env user.id
      → (get_user (clock' 0) (clock' 1) user.id c).1 ≡ none
      → ((find_by_id env clock' user.id (record (store_user env clock user s) { cache = c })).1
          ≡ some user)
        × ((store_user env clock user s).users ≡ s.users)
        × ((store_user env clock user s).email_index ≡ s.email_index)
  unfolding store_user save_user load_user
  find_by_id-store_user clock clock' user s c client up up' written parsed ne miss =
      let text = env.serialize_user user in
      let key = get_user_key env user.id in
      let mail = get_email_index_key env user.email in
      let r' = (env.redis.set key text s.redis).0 in
      let stored : (env.redis.get key (env.redis.set mail user.id r').0).1 ≡ ok (some text) =
        up'.leaves key mail user.id ne ∙ up.keeps key text in
      let saved : save_user env user s.redis ≡ ((env.redis.set mail user.id r').0, true) =
        rw (save_user, up.accepts key text, up'.accepts mail user.id) refl in
      let loaded : (load_user env user.id (env.redis.set mail user.id r').0).1 ≡ some user =
        rw
          (
            load_user,
            up'.client mail user.id,
            stored,
            if_neg (str_dec text "") written none (some text),
            parsed,
          )
          refl in
      let s' : UserService R = record (store_user env clock user s) { cache = c } in
      (
        find_by_id_missed clock' user.id s' miss
            ∙ rw (store_user-redis clock user s client, saved, loaded) refl,
        rw (store_user, client, saved) refl,
        rw (store_user, client, saved) refl,
      )
