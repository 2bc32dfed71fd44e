-- ===== src/Users/Changes.antt =====
-- Code: src/user/user.service.ts, without Redis. What the methods that change users keep.
use talksy.Common.{
  ℕ, ◌≡◌, ◌≢◌, refl, sym, ◌∙◌, ap, subst, none, some, arith, String, str_dec, ite, if_pos, if_neg,
}
use talksy.Common.Map
use talksy.Common.Map.{Map, Distinct}
use talksy.CacheService.{User, set_user, invalidate_user, invalidate_all_tokens_for_user}
use talksy.Users.{Env, UserService, store_user, store_password, remove_user}
use talksy.Users.Consistent.{
  IsOffline, IsListed, IsConsistent, set_user-IsFresh, grow-IsFresh, invalidate_user-IsFresh,
  invalidate_all_tokens_for_user-IsFresh,
}

module _ {R : Type 0} (env : Env R) where
  -- What `store_user`, `store_password` and `remove_user` come to without Redis.
  abbrev pub with_new : (ℕ → ℕ) → User → UserService R → UserService R
  with_new clock user s = record s {
    users = Map.set user.id user s.users;
    email_index = Map.set user.email user.id s.email_index;
    cache = set_user env.lower (clock 0) (clock 1) user s.cache;
  }

  abbrev pub with_changed : (ℕ → ℕ) → String → User → User → UserService R → UserService R
  with_changed clock user_id user updated s = record s {
    users = Map.set user_id updated s.users;
    cache = invalidate_all_tokens_for_user user_id (
        set_user env.lower (clock 0) (clock 1) updated
          (invalidate_user env.lower user_id (some user.email) s.cache));
  }

  abbrev pub without : String → User → UserService R → UserService R
  without user_id user s = record s {
    users = Map.delete user_id s.users;
    email_index = Map.delete user.email s.email_index;
    cache =
        invalidate_all_tokens_for_user user_id
          (invalidate_user env.lower user_id (some user.email) s.cache);
  }

  pub store_user_offline :
      (clock : ℕ → ℕ) (user : User) (s : UserService R)
      → IsOffline env s.redis
      → store_user env clock user s ≡ with_new clock user s
  unfolding store_user
  store_user_offline clock user s off = rw (off.no_client, store_user) refl

  pub store_password_offline :
      (clock : ℕ → ℕ) (user_id : String) (user updated : User) (s : UserService R)
      → IsOffline env s.redis
      → store_password env clock user_id user updated s ≡ with_changed clock user_id user updated s
  unfolding store_password
  store_password_offline clock user_id user updated s off = rw (off.no_client, store_password) refl

  pub remove_user_offline :
      (user_id : String) (user : User) (s : UserService R)
      → IsOffline env s.redis
      → remove_user env user_id user s ≡ without user_id user s
  unfolding remove_user
  remove_user_offline user_id user s off = rw (off.no_client, remove_user) refl

  pub with_new-IsConsistent :
      (clock : ℕ → ℕ) (user : User) (s : UserService R)
      → env.lower user.email ≡ user.email
      → user.email ≢ ""
      → user.id ≢ ""
      → Map.get user.id s.users ≡ none
      → Map.get user.email s.email_index ≡ none
      → IsConsistent env s
      → IsConsistent env (with_new clock user s)
  with_new-IsConsistent clock user s lowered with_email with_id new_id new_email v =
      let users = Map.set user.id user s.users in
      let index = Map.set user.email user.id s.email_index in
      let stored : (k : String)
          → Map.get k users ≡ ite (str_dec user.id k) (some user) (Map.get k s.users) =
        λ k. Map.get-set k user.id user s.users in
      let listed : (k : String)
          → Map.get k index ≡ ite (str_dec user.email k) (some user.id) (Map.get k s.email_index) =
        λ k. Map.get-set k user.email user.id s.email_index in
      record {
        distinct = Map.set-Distinct user.id user s.users v.distinct;
        indexed = λ email id e. elim (str_dec user.email email) [
          | yes same ↦ (user, ground (arith, stored id, listed email), same)
          | no other ↦
              let (u, found, same) = v.indexed email id (ground (arith, listed email)) in
              (u, ground (arith, stored id), same)
        ];
        listed = λ id u e. elim (str_dec user.id id) [
          | yes same ↦
              let equal : user ≡ u = ground (arith, stored id) in
              subst (IsListed env index id) equal (record {
                same_id = same;
                index =
                    listed user.email
                    ∙ if_pos (str_dec user.email user.email) refl _ _
                    ∙ ap some same;
                lowered = lowered;
                with_email = with_email;
                with_id = λ p. with_id (same ∙ p);
              })
          | no other ↦
              let l = v.listed id u (ground (arith, stored id)) in
              record {
                same_id = l.same_id;
                index = ground (arith, listed u.email, l.index);
                lowered = l.lowered;
                with_email = l.with_email;
                with_id = l.with_id;
              }
        ];
        fresh =
            set_user-IsFresh env.lower users index (clock 0) (clock 1) user s.cache
              (grow-IsFresh s.users s.email_index user s.cache new_id new_email v.fresh)
              (stored user.id ∙ if_pos (str_dec user.id user.id) refl _ _)
              (ap (λ e. Map.get e index) lowered
                ∙ listed user.email
                ∙ if_pos (str_dec user.email user.email) refl _ _);
      }

  pub with_changed-IsConsistent :
      (clock : ℕ → ℕ) (user_id : String) (user updated : User) (s : UserService R)
      → Map.get user_id s.users ≡ some user
      → updated.id ≡ user.id
      → updated.email ≡ user.email
      → IsConsistent env s
      → IsConsistent env (with_changed clock user_id user updated s)
  with_changed-IsConsistent clock user_id user updated s found same_id same_email v =
      let users = Map.set user_id updated s.users in
      let stored : (k : String)
          → Map.get k users ≡ ite (str_dec user_id k) (some updated) (Map.get k s.users) =
        λ k. Map.get-set k user_id updated s.users in
      let old = v.listed user_id user found in
      let self : Map.get user_id users ≡ some updated =
        stored user_id ∙ if_pos (str_dec user_id user_id) refl _ _ in
      let fresh =
        invalidate_user-IsFresh env.lower s.users users s.email_index s.email_index user_id
          user.email s.cache old.lowered old.with_email
          (λ k u other e. stored k ∙ if_neg (str_dec user_id k) other _ _ ∙ e) (λ k i other e. e)
          v.fresh in
      record {
        distinct = Map.set-Distinct user_id updated s.users v.distinct;
        indexed = λ email id e.
            let (u, kept, same) = v.indexed email id e in
            elim (str_dec user_id id) [
              | yes same' ↦ (updated, ground (arith, stored id), ground arith)
              | no other ↦ (u, ground (arith, stored id), same)
            ];
        listed = λ id u e. elim (str_dec user_id id) [
          | yes same ↦
              let equal : updated ≡ u = ground (arith, stored id) in
              subst (IsListed env s.email_index id) equal (record {
                same_id = same_id ∙ old.same_id ∙ same;
                index = ap (λ k. Map.get k s.email_index) same_email ∙ old.index ∙ ap some same;
                lowered = ap env.lower same_email ∙ old.lowered ∙ sym same_email;
                with_email = λ p. old.with_email (sym same_email ∙ p);
                with_id = λ p. old.with_id (same ∙ p);
              })
          | no other ↦ v.listed id u (ground (arith, stored id))
        ];
        fresh = invalidate_all_tokens_for_user-IsFresh users s.email_index user_id _ (
            set_user-IsFresh env.lower users s.email_index (clock 0) (clock 1) updated _ fresh
              (ap (λ k. Map.get k users) (same_id ∙ old.same_id) ∙ self)
              (ap (λ k. Map.get k s.email_index) (ap env.lower same_email ∙ old.lowered)
                ∙ old.index
                ∙ ap some (sym (same_id ∙ old.same_id))));
      }

  pub without-IsConsistent :
      (user_id : String) (user : User) (s : UserService R)
      → Map.get user_id s.users ≡ some user
      → IsConsistent env s
      → IsConsistent env (without user_id user s)
  without-IsConsistent user_id user s found v =
      let users = Map.delete user_id s.users in
      let index = Map.delete user.email s.email_index in
      let stored : (k : String)
          → Map.get k users ≡ ite (str_dec user_id k) none (Map.get k s.users) =
        λ k. Map.get-delete k user_id s.users in
      let listed : (k : String)
          → Map.get k index ≡ ite (str_dec user.email k) none (Map.get k s.email_index) =
        λ k. Map.get-delete k user.email s.email_index in
      let old = v.listed user_id user found in
      record {
        distinct = Map.delete-Distinct user_id s.users v.distinct;
        indexed = λ email id e.
            let (u, kept, same) = v.indexed email id (ground (arith, listed email)) in
            (u, ground (arith, stored id, listed email), same);
        listed = λ id u e.
            let l = v.listed id u (ground (arith, stored id)) in
            record {
              same_id = l.same_id;
              index = ground (arith, stored id, listed u.email, l.index, old.index);
              lowered = l.lowered;
              with_email = l.with_email;
              with_id = l.with_id;
            };
        fresh = invalidate_all_tokens_for_user-IsFresh users index user_id _ (
            invalidate_user-IsFresh env.lower s.users users s.email_index index user_id user.email
              s.cache old.lowered old.with_email
              (λ k u other e. stored k ∙ if_neg (str_dec user_id k) other _ _ ∙ e)
              (λ k i other e. listed k ∙ if_neg (str_dec user.email k) other _ _ ∙ e) v.fresh);
      }
