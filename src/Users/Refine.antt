-- ===== src/Users/Refine.antt =====
-- Code: src/user/user.service.ts, without Redis: the service keeps what Users/Accounts.antt promises.
use talksy.Common.{
  ℕ, ◌≡◌, ◌≢◌, refl, sym, ◌∙◌, ap, ap₂, subst, Bool, true, false, List, [], ◌∷◌, Option, none, some,
  arith, String, inl, inr, Option-cases, Result, ok, throw,
}
use talksy.Common.Map
use talksy.Common.Map.{Map, Distinct}
use talksy.CacheService
use talksy.LruCache
use talksy.CacheService.{User, CacheService, CacheConfig}
use talksy.Users.{
  Env, UserService, CreateUser, new_user, later, find_by_id, find_by_email, create, update_password,
  delete_user, clear_redis, clear_all_users,
}
use talksy.Users.Accounts.{by_email}
use talksy.Users.Consistent.{IsFresh, IsOffline, IsConsistent}
use talksy.Users.Finds.{
  index-by_email, find_by_id-get, find_by_email-by_email, recache-IsConsistent,
}
use talksy.Users.Changes.{
  store_user_offline, store_password_offline, remove_user_offline, with_new-IsConsistent,
  with_changed-IsConsistent, without-IsConsistent,
}

-- The calls of the service, with the times, the ids and the salts that they get.
pub data Op : Type 0 where
  find_by_id_op : (clock : ℕ → ℕ) (id : String) → Op
  find_by_email_op : (clock : ℕ → ℕ) (email : String) → Op
  create_op : (clock : ℕ → ℕ) (id salt : String) (dto : CreateUser) → Op
  update_password_op : (clock : ℕ → ℕ) (salt user_id new_password : String) → Op
  delete_user_op : (clock : ℕ → ℕ) (user_id : String) → Op
  clear_all_users_op : Op

pub data Reply : Type 0 where
  found : Option User → Reply
  created : Result User → Reply
  updated : Result (Unit {0}) → Reply
  deleted : Bool → Reply
  cleared : Reply

module _ {R : Type 0} (env : Env R) where
  unfoldable pub apply : Op → UserService R → UserService R × Reply
  apply (find_by_id_op clock id) s = let (s', r) = find_by_id env clock id s in (s', found r)
  apply (find_by_email_op clock email) s =
      let (s', r) = find_by_email env clock email s in (s', found r)
  apply (create_op clock id salt dto) s =
      let (s', r) = create env clock id salt dto s in (s', created r)
  apply (update_password_op clock salt user_id new_password) s =
      let (s', r) = update_password env clock salt user_id new_password s in (s', updated r)
  apply (delete_user_op clock user_id) s =
      let (s', r) = delete_user env clock user_id s in (s', deleted r)
  apply clear_all_users_op s = (clear_all_users env s, cleared)

  unfoldable pub apply_all : List Op → UserService R → UserService R × List Reply
  apply_all [] s = (s, [])
  apply_all (op ∷ ops) s =
      let (s', reply) = apply op s in
      let (s'', replies) = apply_all ops s' in (s'', reply ∷ replies)

  abbrev pub new_hash : ℕ → String → String → User → User
  new_hash now salt password user = record user {
    password_hash = env.hash env.bcrypt_rounds salt password;
    updated_at = now;
  }

  -- The same calls on one map of accounts.
  unfoldable pub promised : Op → Map User → Map User × Reply
  unfolding by_email
  promised (find_by_id_op clock id) accounts = (accounts, found (Map.get id accounts))
  promised (find_by_email_op clock email) accounts =
      (accounts, found (by_email (env.lower email) accounts))
  promised (create_op clock id salt dto) accounts = elim (by_email (env.lower dto.email) accounts) [
    | some other ↦ (accounts, created (throw "Email already registered"))
    | none ↦
        let user = new_user env (clock 6) id salt dto in
        (Map.set id user accounts, created (ok user))
  ]
  promised (update_password_op clock salt user_id new_password) accounts =
      elim (Map.get user_id accounts) [
        | none ↦ (accounts, updated (throw "User not found"))
        | some user ↦
            (Map.set user_id (new_hash (clock 4) salt new_password user) accounts, updated (ok tt))
      ]
  promised (delete_user_op clock user_id) accounts = elim (Map.get user_id accounts) [
    | none ↦ (accounts, deleted false)
    | some user ↦ (Map.delete user_id accounts, deleted true)
  ]
  promised clear_all_users_op accounts = ([], cleared)

  unfoldable pub promised_all : List Op → Map User → Map User × List Reply
  unfolding promised
  promised_all [] accounts = (accounts, [])
  promised_all (op ∷ ops) accounts =
      let (accounts', reply) = promised op accounts in
      let (accounts'', replies) = promised_all ops accounts' in (accounts'', reply ∷ replies)

  -- An id that is made is new and not empty, and an address is not empty.
  abbrev pub IsAllowed : Op → Map User → Type 0
  IsAllowed (create_op clock id salt dto) accounts =
      (Map.get id accounts ≡ none) × (id ≢ "") × (env.lower dto.email ≢ "")
  IsAllowed op accounts = Unit {0}

  unfoldable pub AreAllowed : List Op → Map User → Type 0
  AreAllowed [] accounts = Unit {0}
  AreAllowed (op ∷ ops) accounts = IsAllowed op accounts × AreAllowed ops (promised op accounts).0

  record Keeps (s s' : UserService R) (reply : Reply) (answer : Map User × Reply) : Type 0 where
    accounts : s'.users ≡ answer.0
    replies : reply ≡ answer.1
    redis : s'.redis ≡ s.redis
    consistent : IsConsistent env s'

  create-Keeps :
      (clock : ℕ → ℕ) (id salt : String) (dto : CreateUser) (s : UserService R)
      → ((e : String) → env.lower (env.lower e) ≡ env.lower e)
      → IsOffline env s.redis
      → IsConsistent env s
      → IsAllowed (create_op clock id salt dto) s.users
      → Keeps s
          (create env clock id salt dto s).0
          (created (create env clock id salt dto s).1)
          (promised (create_op clock id salt dto) s.users)
  unfolding create promised
  create-Keeps clock id salt dto s low off v a =
      let email = env.lower dto.email in
      let (c, e, fresh) = find_by_email-by_email env clock email s low off v in
      let s' : UserService R = record s { cache = c } in
      let v' = recache-IsConsistent env c s v fresh in
      let e' : find_by_email env clock email s ≡ (s', by_email email s.users) =
        e ∙ ap (λ x. (s', by_email x s.users)) (low dto.email) in
      elim (index-by_email env email s v) [
        | inr (other, listed, written, same) ↦ elim (Option-cases (Map.get other s.users)) [
          | inl gone ↦
              absurd (let (user, stored, mail) = v.indexed email other listed in ground arith)
          | inr (user, stored) ↦
              rw (create, promised, e', same ∙ stored, e')
                (record { accounts = refl; replies = refl; redis = refl; consistent = v' })
        ]
        | inl (unlisted, free) ↦
            let user = new_user env (clock 6) id salt dto in
            rw (create, promised, e', free, e', store_user_offline env (later 7 clock) user s' off)
              (record {
                accounts = refl;
                replies = refl;
                redis = refl;
                consistent =
                    with_new-IsConsistent env (later 7 clock) user s' (low dto.email) a.2 a.1 a.0
                      unlisted v';
              })
      ]

  update_password-Keeps :
      (clock : ℕ → ℕ) (salt user_id new_password : String) (s : UserService R)
      → IsOffline env s.redis
      → IsConsistent env s
      → Keeps s
          (update_password env clock salt user_id new_password s).0
          (updated (update_password env clock salt user_id new_password s).1)
          (promised (update_password_op clock salt user_id new_password) s.users)
  unfolding update_password promised
  update_password-Keeps clock salt user_id new_password s off v =
      let (c, e, fresh) = find_by_id-get env clock user_id s off v in
      let s' : UserService R = record s { cache = c } in
      let v' = recache-IsConsistent env c s v fresh in
      elim (Option-cases (Map.get user_id s.users)) [
        | inl gone ↦
            rw (update_password, promised, e, gone, e)
              (record { accounts = refl; replies = refl; redis = refl; consistent = v' })
        | inr (user, stored) ↦
            let user' = new_hash (clock 4) salt new_password user in
            rw
              (
                update_password,
                promised,
                e,
                stored,
                e,
                store_password_offline env (later 5 clock) user_id user user' s' off,
              )
              (record {
                accounts = refl;
                replies = refl;
                redis = refl;
                consistent =
                    with_changed-IsConsistent env (later 5 clock) user_id user user' s' stored refl
                      refl v';
              })
      ]

  delete_user-Keeps :
      (clock : ℕ → ℕ) (user_id : String) (s : UserService R)
      → IsOffline env s.redis
      → IsConsistent env s
      → Keeps s
          (delete_user env clock user_id s).0
          (deleted (delete_user env clock user_id s).1)
          (promised (delete_user_op clock user_id) s.users)
  unfolding delete_user promised
  delete_user-Keeps clock user_id s off v =
      let (c, e, fresh) = find_by_id-get env clock user_id s off v in
      let s' : UserService R = record s { cache = c } in
      let v' = recache-IsConsistent env c s v fresh in
      elim (Option-cases (Map.get user_id s.users)) [
        | inl gone ↦
            rw (delete_user, promised, e, gone, e)
              (record { accounts = refl; replies = refl; redis = refl; consistent = v' })
        | inr (user, stored) ↦
            rw (delete_user, promised, e, stored, e, remove_user_offline env user_id user s' off)
              (record {
                accounts = refl;
                replies = refl;
                redis = refl;
                consistent = without-IsConsistent env user_id user s' stored v';
              })
      ]

  clear_all_users-Keeps :
      (s : UserService R)
      → IsOffline env s.redis
      → Keeps s (clear_all_users env s) cleared ([], cleared)
  unfolding clear_all_users clear_redis CacheService.clear_all LruCache.clear Map.get
  clear_all_users-Keeps s off = record {
    accounts = refl;
    replies = refl;
    redis = rw off.no_client refl;
    consistent = record {
      distinct = tt;
      indexed = λ email id e. absurd (ground arith);
      listed = λ id u e. absurd (ground arith);
      fresh = record {
        cached = λ on k u h. absurd (ground arith);
        cached_id = λ on k i h. absurd (ground arith);
      };
    };
  }

  apply-Keeps :
      (op : Op) (s : UserService R)
      → ((e : String) → env.lower (env.lower e) ≡ env.lower e)
      → IsOffline env s.redis
      → IsConsistent env s
      → IsAllowed op s.users
      → Keeps s (apply op s).0 (apply op s).1 (promised op s.users)
  unfolding apply promised
  apply-Keeps (find_by_id_op clock id) s low off v a =
      let (c, e, fresh) = find_by_id-get env clock id s off v in
      rw e (record {
        accounts = refl;
        replies = refl;
        redis = refl;
        consistent = recache-IsConsistent env c s v fresh;
      })
  apply-Keeps (find_by_email_op clock email) s low off v a =
      let (c, e, fresh) = find_by_email-by_email env clock email s low off v in
      rw e (record {
        accounts = refl;
        replies = refl;
        redis = refl;
        consistent = recache-IsConsistent env c s v fresh;
      })
  apply-Keeps (create_op clock id salt dto) s low off v a =
      create-Keeps clock id salt dto s low off v a
  apply-Keeps (update_password_op clock salt user_id new_password) s low off v a =
      update_password-Keeps clock salt user_id new_password s off v
  apply-Keeps (delete_user_op clock user_id) s low off v a = delete_user-Keeps clock user_id s off v
  apply-Keeps clear_all_users_op s low off v a = clear_all_users-Keeps s off

  apply_all-Keeps :
      (ops : List Op) (s : UserService R)
      → ((e : String) → env.lower (env.lower e) ≡ env.lower e)
      → IsOffline env s.redis
      → IsConsistent env s
      → AreAllowed ops s.users
      → ((apply_all ops s).1 ≡ (promised_all ops s.users).1)
        × ((apply_all ops s).0.users ≡ (promised_all ops s.users).0)
  unfolding apply_all promised_all AreAllowed
  apply_all-Keeps [] s low off v a = (refl, refl)
  apply_all-Keeps (op ∷ ops) s low off v a =
      let s' = (apply op s).0 in
      let k = apply-Keeps op s low off v a.0 in
      let (replies, users) =
        apply_all-Keeps ops s' low (subst (IsOffline env) (sym k.redis) off) k.consistent
          (subst (AreAllowed ops) (sym k.accounts) a.1) in
      (
        ap₂ (λ r rs. r ∷ rs) k.replies (replies ∙ ap (λ m. (promised_all ops m).1) k.accounts),
        users ∙ ap (λ m. (promised_all ops m).0) k.accounts,
      )

  -- A new service.
  abbrev pub start : CacheService → R → UserService R
  start c r = record { users = []; email_index = []; cache = c; redis = r }

  create-IsFresh :
      (config : CacheConfig) (c : CacheService)
      → CacheService.create config ≡ ok c
      → IsFresh [] [] c
  unfolding CacheService.create LruCache.create Map.get
  create-IsFresh config c made =
      let users : c.user_cache.cache ≡ [] = ground arith in
      let emails : c.email_to_id_cache.cache ≡ [] = ground arith in
      record {
        cached = λ on k u h. absurd (ground arith);
        cached_id = λ on k i h. absurd (ground arith);
      }

  start-IsConsistent : (c : CacheService) (r : R) → IsFresh [] [] c → IsConsistent env (start c r)
  unfolding Map.get
  start-IsConsistent c r fresh = record {
    distinct = tt;
    indexed = λ email id e. absurd (ground arith);
    listed = λ id u e. absurd (ground arith);
    fresh = fresh;
  }

  -- Without Redis, a new service answers any calls as one map of accounts does, with its indexes and its
  -- caches, at whatever times the calls come: a user is found by the id, or by the address in any case,
  -- as it stands after the last change; an address that is taken, in any case, is refused; and the users
  -- that are left are those of the map. The caches are the new ones of an enabled or a disabled service;
  -- ids that are made are new, and neither they nor addresses are empty; to make a text lower-case twice is to do it once.
  pub apply_all-promised_all :
      (config : CacheConfig) (c : CacheService) (r : R) (ops : List Op)
      → ((e : String) → env.lower (env.lower e) ≡ env.lower e)
      → IsOffline env r
      → CacheService.create config ≡ ok c
      → AreAllowed ops []
      → ((apply_all ops (start c r)).1 ≡ (promised_all ops []).1)
        × ((apply_all ops (start c r)).0.users ≡ (promised_all ops []).0)
  apply_all-promised_all config c r ops low off made a =
      apply_all-Keeps ops (start c r) low off
        (start-IsConsistent c r (create-IsFresh config c made)) a
