-- ===== src/Users/Consistent.antt =====
-- Code: src/user/user.service.ts, without Redis. The two maps and the caches agree.
use talksy.Common.{
  ℕ, ◌≡◌, ◌≢◌, true, false, Option, none, some, arith, String, str_dec, both, each, ◌==◌,
}
use talksy.Common.Map
use talksy.Common.Map.{Map, Distinct}
use talksy.LruCache
use talksy.LruCache.Store.{Fronts, get-Fronts, set-Fronts, grow-Fronts}
use talksy.CacheService
use talksy.CacheService.{
  User, CacheService, get_user, get_user_id_by_email, set_user, invalidate_user,
  invalidate_all_tokens_for_user,
}
use talksy.RedisPool.{get_client, is_available}
use talksy.Users.{Env, UserService}

-- What the two caches of users hold stands in the maps; a cache that is disabled is not read.
pub record IsFresh (users : Map User) (email_index : Map String) (c : CacheService) : Type 0 where
  pub cached : c.config.enabled ≡ true → Fronts c.user_cache users
  pub cached_id : c.config.enabled ≡ true → Fronts c.email_to_id_cache email_index

module _ {R : Type 0} (env : Env R) where
  pub record IsOffline (r : R) : Type 0 where
    pub no_client : get_client (env.redis.pool r) ≡ false
    pub unavailable : is_available (env.redis.pool r) ≡ false

  pub record IsListed (email_index : Map String) (id : String) (user : User) : Type 0 where
    pub same_id : user.id ≡ id
    pub index : Map.get user.email email_index ≡ some id
    pub lowered : env.lower user.email ≡ user.email
    pub with_email : user.email ≢ ""
    pub with_id : id ≢ ""

  pub record IsConsistent (s : UserService R) : Type 0 where
    pub distinct : Distinct s.users
    pub indexed :
        (email id : String)
        → Map.get email s.email_index ≡ some id
        → (user : User) × (Map.get id s.users ≡ some user) × (user.email ≡ email)
    pub listed :
        (id : String) (user : User)
        → Map.get id s.users ≡ some user
        → IsListed s.email_index id user
    pub fresh : IsFresh s.users s.email_index s.cache

-- The calls of the cache that `UserService` makes.
pub get_user-IsFresh :
    (users : Map User) (email_index : Map String) (now now' : ℕ) (id : String) (c : CacheService)
    → IsFresh users email_index c
    → IsFresh users email_index (get_user now now' id c).0
unfolding get_user
get_user-IsFresh users email_index now now' id c v =
    both (λ (x : CacheService × Option User). IsFresh users email_index x.0) c.config.enabled
      (record {
        cached = λ on. get-Fronts now now' id c.user_cache users (v.cached on);
        cached_id = v.cached_id;
      })
      v

pub get_user_id-IsFresh :
    (lower : String → String) (users : Map User) (email_index : Map String) (now now' : ℕ)
    (email : String) (c : CacheService)
    → IsFresh users email_index c
    → IsFresh users email_index (get_user_id_by_email lower now now' email c).0
unfolding get_user_id_by_email
get_user_id-IsFresh lower users email_index now now' email c v =
    both (λ (x : CacheService × Option String). IsFresh users email_index x.0) c.config.enabled
      (record {
        cached = v.cached;
        cached_id = λ on.
            get-Fronts now now' (lower email) c.email_to_id_cache email_index (v.cached_id on);
      })
      v

pub set_user-IsFresh :
    (lower : String → String) (users : Map User) (email_index : Map String) (now now' : ℕ)
    (user : User) (c : CacheService)
    → IsFresh users email_index c
    → Map.get user.id users ≡ some user
    → Map.get (lower user.email) email_index ≡ some user.id
    → IsFresh users email_index (set_user lower now now' user c)
unfolding set_user
set_user-IsFresh lower users email_index now now' user c v stored index =
    both (IsFresh users email_index) c.config.enabled
      (record {
        cached = λ on. set-Fronts now user.id user none c.user_cache users (v.cached on) stored;
        cached_id = λ on.
            set-Fronts now' (lower user.email) user.id none c.email_to_id_cache email_index
              (v.cached_id on) index;
      })
      v

-- A new user is put into both maps.
pub grow-IsFresh :
    (users : Map User) (email_index : Map String) (user : User) (c : CacheService)
    → Map.get user.id users ≡ none
    → Map.get user.email email_index ≡ none
    → IsFresh users email_index c
    → IsFresh (Map.set user.id user users) (Map.set user.email user.id email_index) c
grow-IsFresh users email_index user c new_id new_email v = record {
  cached = λ on. grow-Fronts user.id user c.user_cache users new_id (v.cached on);
  cached_id = λ on.
      grow-Fronts user.email user.id c.email_to_id_cache email_index new_email (v.cached_id on);
}

-- The user of an id is replaced, and the old one taken out of the caches.
pub invalidate_user-IsFresh :
    (lower : String → String) (users users' : Map User) (email_index email_index' : Map String)
    (id email : String) (c : CacheService)
    → lower email ≡ email
    → email ≢ ""
    → ((k : String) (u : User) → id ≢ k → Map.get k users ≡ some u → Map.get k users' ≡ some u)
    → ((k i : String)
        → email ≢ k
        → Map.get k email_index ≡ some i
        → Map.get k email_index' ≡ some i)
    → IsFresh users email_index c
    → IsFresh users' email_index' (invalidate_user lower id (some email) c)
unfolding invalidate_user LruCache.delete
invalidate_user-IsFresh lower users users' email_index email_index' id email c lowered written kept
      kept_id v =
    each (IsFresh users' email_index') c.config.enabled
      (λ on. record {
        cached = λ on' k u h. elim (str_dec id k) [
          | yes same ↦ absurd (ground (arith, Map.get-delete k id c.user_cache.cache))
          | no other ↦
              kept k u other
                (v.cached on k u (ground (arith, Map.get-delete k id c.user_cache.cache)))
        ];
        cached_id = λ on' k i h. elim (str_dec email k) [
          | yes same ↦ absurd (ground (arith, Map.get-delete k email c.email_to_id_cache.cache))
          | no other ↦ kept_id k i other (
              v.cached_id on k i (ground (arith, Map.get-delete k email c.email_to_id_cache.cache)))
        ];
      })
      (λ off. record {
        cached = λ on. absurd (ground arith);
        cached_id = λ on. absurd (ground arith);
      })

pub invalidate_all_tokens_for_user-IsFresh :
    (users : Map User) (email_index : Map String) (id : String) (c : CacheService)
    → IsFresh users email_index c
    → IsFresh users email_index (invalidate_all_tokens_for_user id c)
unfolding invalidate_all_tokens_for_user
invalidate_all_tokens_for_user-IsFresh users email_index id c v =
    both (IsFresh users email_index) c.config.enabled
      (both (IsFresh users email_index)
        (Map.size (CacheService.hashes_or (Map.get id c.user_to_token_hashes)) == 0) v
        (record { cached = v.cached; cached_id = v.cached_id }))
      v
