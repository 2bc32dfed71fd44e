-- ===== src/Auth/Offline.antt =====
-- Code: src/user/user.service.ts, as src/auth/auth.service.ts calls it. Without Redis.
use talksy.Common.{ℕ, ◌≡◌, refl, false, arith, String, inl, inr, Option-cases}
use talksy.Common.Map
use talksy.Common.Map.{Map}
use talksy.CacheService.{get_user_id_by_email}
use talksy.Users
use talksy.Users.{
  Env, UserService, CreateUser, has_client, later, nonempty, load_user, find_by_id, find_in_index,
  find_by_email, store_user,
}

-- Without a client the look-ups and the creation of users leave Redis alone.
module _ {R : Type 0} (env : Env R) where
  load_user-redis : (id : String) (r : R) → has_client env r ≡ false → (load_user env id r).0 ≡ r
  unfolding load_user
  load_user-redis id r off = rw (load_user, off) refl

  pub find_by_id-redis :
      (clock : ℕ → ℕ) (id : String) (s : UserService R)
      → has_client env s.redis ≡ false
      → (find_by_id env clock id s).0.redis ≡ s.redis
  unfolding find_by_id
  find_by_id-redis clock id s off = ground (arith, load_user-redis id s.redis off)

  find_in_index-redis :
      (clock : ℕ → ℕ) (email : String) (s : UserService R)
      → has_client env s.redis ≡ false
      → (find_in_index env clock email s).0.redis ≡ s.redis
  unfolding find_in_index
  find_in_index-redis clock email s off =
      elim (Option-cases (nonempty (Map.get email s.email_index))) [
        | inl gone ↦ rw (find_in_index, gone) refl
        | inr (id, found) ↦ rw (find_in_index, found) (find_by_id-redis clock id s off)
      ]

  pub find_by_email-redis :
      (clock : ℕ → ℕ) (email : String) (s : UserService R)
      → has_client env s.redis ≡ false
      → (find_by_email env clock email s).0.redis ≡ s.redis
  unfolding find_by_email
  find_by_email-redis clock email s off =
      let (c, cached) =
        get_user_id_by_email env.lower (clock 0) (clock 1) (env.lower email) s.cache in
      let s' : UserService R = record s { cache = c } in
      elim (Option-cases (nonempty cached)) [
        | inl miss ↦
            rw (find_by_email, miss, off)
              (find_in_index-redis (later 2 clock) (env.lower email) s' off)
        | inr (id, hit) ↦ rw (find_by_email, hit) (find_by_id-redis (later 2 clock) id s' off)
      ]

  pub create-redis :
      (clock : ℕ → ℕ) (id salt : String) (dto : CreateUser) (s : UserService R)
      → has_client env s.redis ≡ false
      → (Users.create env clock id salt dto s).0.redis ≡ s.redis
  unfolding Users.create store_user
  create-redis clock id salt dto s off =
      let (s', existing) = find_by_email env clock (env.lower dto.email) s in
      let same = find_by_email-redis clock (env.lower dto.email) s off in
      elim (Option-cases existing) [
        | inl free ↦ rw (Users.create, free) (ground (arith, same))
        | inr (user, taken) ↦ rw (Users.create, taken) same
      ]
