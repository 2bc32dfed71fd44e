-- ===== src/Users/Finds.antt =====
-- Code: src/user/user.service.ts, without Redis. What the look-ups return.
use talksy.Common.{
  ℕ, ◌≡◌, ◌≢◌, ◌⊎◌, refl, sym, ◌∙◌, ap, subst, true, Option, none, some, arith, String, str_dec,
  if_neg, inl, inr, Option-cases,
}
use talksy.Common.Map
use talksy.Common.Map.{Map, Distinct}
use talksy.LruCache.Store.{get-stored}
use talksy.CacheService.{User, CacheService, get_user, get_user_id_by_email, set_user}
use talksy.Users.{Env, UserService, later, load_user, find_by_id, find_in_index, find_by_email}
use talksy.Users.Accounts.{by_email, by_email_absent, by_email_present}
use talksy.Users.Consistent.{
  IsFresh, IsOffline, IsConsistent, get_user-IsFresh, get_user_id-IsFresh, set_user-IsFresh,
}

get_user-stored :
    (users : Map User) (email_index : Map String) (now now' : ℕ) (id : String) (c : CacheService)
    (user : User)
    → IsFresh users email_index c
    → (get_user now now' id c).1 ≡ some user
    → Map.get id users ≡ some user
unfolding get_user
get_user-stored users email_index now now' id c user v e =
    let on : c.config.enabled ≡ true = ground arith in
    get-stored now now' id c.user_cache users user (v.cached on) (ground arith)

get_user_id-stored :
    (lower : String → String) (users : Map User) (email_index : Map String) (now now' : ℕ)
    (email id : String) (c : CacheService)
    → IsFresh users email_index c
    → (get_user_id_by_email lower now now' email c).1 ≡ some id
    → Map.get (lower email) email_index ≡ some id
unfolding get_user_id_by_email
get_user_id-stored lower users email_index now now' email id c v e =
    let on : c.config.enabled ≡ true = ground arith in
    get-stored now now' (lower email) c.email_to_id_cache email_index id (v.cached_id on)
      (ground arith)

module _ {R : Type 0} (env : Env R) where
  load_user_offline : (id : String) (r : R) → IsOffline env r → load_user env id r ≡ (r, none)
  unfolding load_user
  load_user_offline id r off = rw off.no_client

  pub find_by_id-get :
      (clock : ℕ → ℕ) (id : String) (s : UserService R)
      → IsOffline env s.redis
      → IsConsistent env s
      → (c : CacheService) × (find_by_id env clock id s
          ≡ (record s { cache = c }, Map.get id s.users))
        × IsFresh s.users s.email_index c
  unfolding find_by_id
  find_by_id-get clock id s off v =
      let (c, cached) = get_user (clock 0) (clock 1) id s.cache in
      let fresh = get_user-IsFresh s.users s.email_index (clock 0) (clock 1) id s.cache v.fresh in
      elim (Option-cases cached) [
        | inr (user, hit) ↦ (
          c,
          rw
              (
                hit,
                find_by_id,
                get_user-stored s.users s.email_index (clock 0) (clock 1) id s.cache user v.fresh
                    hit,
              )
              refl,
          fresh,
        )
        | inl miss ↦ elim (Option-cases (Map.get id s.users)) [
          | inl gone ↦ (
            c,
            rw (miss, find_by_id, load_user_offline id s.redis off, off.unavailable, gone)
                (rw (load_user_offline id s.redis off) refl),
            fresh,
          )
          | inr (user, found) ↦
              let l = v.listed id user found in
              (
                set_user env.lower (clock 2) (clock 3) user c,
                rw (miss, find_by_id, load_user_offline id s.redis off, off.unavailable, found)
                    (rw (load_user_offline id s.redis off) refl),
                set_user-IsFresh env.lower s.users s.email_index (clock 2) (clock 3) user c fresh
                    (ap (λ k. Map.get k s.users) l.same_id ∙ found)
                    (ap (λ e. Map.get e s.email_index) l.lowered
                      ∙ l.index
                      ∙ ap some (sym l.same_id)),
              )
        ]
      ]

  -- The address that the index has is the one that a search through the users finds.
  pub index-by_email :
      (email : String) (s : UserService R)
      → IsConsistent env s
      → ((Map.get email s.email_index ≡ none) × (by_email email s.users ≡ none))
        ⊎ ((id : String) × (Map.get email s.email_index ≡ some id)
            × (id ≢ "")
            × (by_email email s.users ≡ Map.get id s.users))
  index-by_email email s v = elim (Option-cases (by_email email s.users)) [
    | inl absent ↦ elim (Option-cases (Map.get email s.email_index)) [
      | inl gone ↦ inl (gone, absent)
      | inr (id, found) ↦
          let (user, stored, same) = v.indexed email id found in
          absurd (by_email_absent email id user s.users absent stored same)
    ]
    | inr (user, present) ↦
        let (id, stored, same) = by_email_present email user s.users v.distinct present in
        let l = v.listed id user stored in
        inr (
          id,
          subst (λ e. Map.get e s.email_index ≡ some id) same l.index,
          l.with_id,
          present ∙ sym stored,
        )
  ]

  find_in_index-by_email :
      (clock : ℕ → ℕ) (email : String) (s : UserService R)
      → IsOffline env s.redis
      → IsConsistent env s
      → (c : CacheService) × (find_in_index env clock email s
          ≡ (record s { cache = c }, by_email email s.users))
        × IsFresh s.users s.email_index c
  unfolding find_in_index
  find_in_index-by_email clock email s off v = elim (index-by_email email s v) [
    | inl (gone, absent) ↦ (s.cache, rw (gone, find_in_index, absent) refl, v.fresh)
    | inr (id, found, written, same) ↦
        let (c, e, fresh) = find_by_id-get clock id s off v in
        (c, rw (found, find_in_index, if_neg (str_dec id "") written none (some id), same) e, fresh)
  ]

  pub recache-IsConsistent :
      (c : CacheService) (s : UserService R)
      → IsConsistent env s
      → IsFresh s.users s.email_index c
      → IsConsistent env (record s { cache = c })
  recache-IsConsistent c s v fresh = record {
    distinct = v.distinct;
    indexed = v.indexed;
    listed = v.listed;
    fresh = fresh;
  }

  pub find_by_email-by_email :
      (clock : ℕ → ℕ) (email : String) (s : UserService R)
      → ((e : String) → env.lower (env.lower e) ≡ env.lower e)
      → IsOffline env s.redis
      → IsConsistent env s
      → (c : CacheService) × (find_by_email env clock email s
          ≡ (record s { cache = c }, by_email (env.lower email) s.users))
        × IsFresh s.users s.email_index c
  unfolding find_by_email
  find_by_email-by_email clock email s idempotent off v =
      let normalized = env.lower email in
      let (c, cached) = get_user_id_by_email env.lower (clock 0) (clock 1) normalized s.cache in
      let fresh =
        get_user_id-IsFresh env.lower s.users s.email_index (clock 0) (clock 1) normalized s.cache
          v.fresh in
      let v' = recache-IsConsistent c s v fresh in
      elim (Option-cases cached) [
        | inl miss ↦
            let (c', e, fresh') =
              find_in_index-by_email (later 2 clock) normalized (record s { cache = c }) off v' in
            (c', rw (miss, find_by_email, off.no_client) e, fresh')
        | inr (id, hit) ↦
            let stored : Map.get normalized s.email_index ≡ some id =
              ap (λ k. Map.get k s.email_index) (sym (idempotent email))
              ∙ get_user_id-stored env.lower s.users s.email_index (clock 0) (clock 1) normalized id
                  s.cache v.fresh hit in
            elim (index-by_email normalized s v) [
              | inl (gone, absent) ↦ absurd (ground arith)
              | inr (id', found, written, same) ↦
                  let (c', e, fresh') =
                    find_by_id-get (later 2 clock) id (record s { cache = c }) off v' in
                  let equal : id' ≡ id = ground arith in
                  let written' : id ≢ "" = subst (λ k. k ≢ "") equal written in
                  let result : UserService R = record s { cache = c' } in
                  (
                    c',
                    rw (hit, find_by_email, if_neg (str_dec id "") written' none (some id))
                        (e
                          ∙ ap (λ (u : Option User). (result, u))
                              (ap (λ k. Map.get k s.users) (sym equal) ∙ sym same)),
                    fresh',
                  )
            ]
      ]
