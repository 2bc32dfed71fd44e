-- ===== src/Auth/Access.antt =====
-- Code: src/auth/auth.service.ts, `validateAccessToken`. How long a validation is good for.
use talksy.Common.{
  ℕ, ◌+◌, ◌-◌, ◌*◌, ◌≤◌, ◌<◌, ◌≡◌, refl, ◌∙◌, ap, true, Option, none, some, arith, String, inl, inr,
  Bool-cases, ltb, both, ok, throw,
}
use talksy.Common.Map
use talksy.LruCache
use talksy.LruCache.{LruCache}
use talksy.LruCache.Valid.{IsValid, get-IsValid}
use talksy.LruCache.Reads.{peek-get, peek-set_self}
use talksy.CacheService.{
  AuthUser, CachedTokenValidation, CacheService, get_token_validation, set_token_validation,
}
use talksy.Users.{later}
use talksy.Auth.{AuthEnv, AuthService, Payload, with_cache, cache_validation, validate_access_token}

get-expired :
    {T : Type 0} {n : ℕ} (now t t' : ℕ) (key : String) (value : T) (ttl : ℕ) (c : LruCache T)
    → IsValid n c
    → 0 < ttl
    → now + ttl < t
    → (LruCache.get t t' key (LruCache.set now key value (some ttl) c)).1 ≡ none
get-expired now t t' key value ttl c v some_ttl over =
    (peek-get t t' t key key (LruCache.set now key value (some ttl) c) (omega arith)).0
    ∙ peek-set_self now t key value (some ttl) c v
    ∙ ground arith

get-absent :
    {T : Type 0} (now now' : ℕ) (key : String) (c : LruCache T)
    → (LruCache.get now now' key c).1 ≡ none
    → Map.get key (LruCache.get now now' key c).0.cache ≡ none
unfolding LruCache.get
get-absent now now' key c miss = ground (arith, Map.get-delete key key c.cache)

absent-get :
    {T : Type 0} (now now' : ℕ) (key : String) (c : LruCache T)
    → Map.get key c.cache ≡ none
    → (LruCache.get now now' key c).1 ≡ none
unfolding LruCache.get
absent-get now now' key c gone = rw (LruCache.get, gone) refl

-- What has been missed once is missed again.
get-missed :
    {T : Type 0} (now now' t t' : ℕ) (key : String) (c : LruCache T)
    → (LruCache.get now now' key c).1 ≡ none
    → (LruCache.get t t' key (LruCache.get now now' key c).0).1 ≡ none
get-missed now now' t t' key c miss =
    absent-get t t' key (LruCache.get now now' key c).0 (get-absent now now' key c miss)

get_token_validation-missed :
    (hash_token : String → String) (now now' t t' : ℕ) (token : String) (c : CacheService)
    → (get_token_validation hash_token now now' token c).1 ≡ none
    → (get_token_validation hash_token t t' token
        (get_token_validation hash_token now now' token c).0).1
      ≡ none
unfolding get_token_validation
get_token_validation-missed hash_token now now' t t' token c miss =
    elim (Bool-cases c.config.enabled) [
      | inr off ↦ ground arith
      | inl on ↦
          let (d, cached) = LruCache.get now now' (hash_token token) c.token_cache in
          let none_cached : cached ≡ none = ground arith in
          ground (arith, get-missed now now' t t' (hash_token token) c.token_cache none_cached)
    ]

get_token_validation-expired :
    {n : ℕ} (hash_token : String → String) (now now' t t' : ℕ) (token : String) (user : AuthUser)
    (ttl : ℕ) (c : CacheService)
    → IsValid n c.token_cache
    → 0 < ttl
    → now' + ttl < t
    → (get_token_validation hash_token t t' token
        (set_token_validation hash_token now now' token user (some ttl) c)).1
      ≡ none
unfolding get_token_validation set_token_validation
get_token_validation-expired hash_token now now' t t' token user ttl c v some_ttl over =
    let cached : CachedTokenValidation = record {
      user_id = user.user_id;
      email = user.email;
      cached_at = now;
    } in
    ground
      (arith, get-expired now' t t' (hash_token token) cached ttl c.token_cache v some_ttl over)

get_token_validation-IsValid :
    {n : ℕ} (hash_token : String → String) (now now' : ℕ) (token : String) (c : CacheService)
    → IsValid n c.token_cache
    → IsValid n (get_token_validation hash_token now now' token c).0.token_cache
unfolding get_token_validation
get_token_validation-IsValid {n} hash_token now now' token c v =
    both (λ (x : CacheService × Option AuthUser). IsValid n x.0.token_cache) c.config.enabled
      (get-IsValid now now' (hash_token token) c.token_cache v) v

module _ {R : Type 0} (env : AuthEnv R) where
  -- A token that is not in the cache and cannot be verified.
  validate_access_token-none :
      (clock : ℕ → ℕ) (token message : String) (s : AuthService R)
      → (get_token_validation env.hash_token (clock 0) (clock 1) token s.user_service.cache).1
        ≡ none
      → env.verify (clock 2) token ≡ throw message
      → (validate_access_token env clock token s).1 ≡ none
  unfolding validate_access_token
  validate_access_token-none clock token message s miss over =
      rw (validate_access_token, miss, over) refl

  cache_validation-expired :
      {n : ℕ} (clock : ℕ → ℕ) (t t' : ℕ) (token : String) (payload : Payload) (exp : ℕ)
      (c : CacheService)
      → IsValid n c.token_cache
      → (get_token_validation env.hash_token t t' token c).1 ≡ none
      → payload.exp ≡ some exp
      → 1 ≤ exp
      → exp * 1000 + clock 2 < t + clock 0
      → (get_token_validation env.hash_token t t' token
          (cache_validation env clock token payload c)).1
        ≡ none
  unfolding cache_validation
  cache_validation-expired clock t t' token payload exp c v miss with_exp positive late =
      let user : AuthUser = record { user_id = payload.sub; email = payload.email } in
      let remaining_ms = exp * 1000 - clock 0 in
      let some_exp : ltb 0 exp ≡ true = ground arith in
      elim (Bool-cases (ltb 0 remaining_ms)) [
        | inl left ↦
            rw (cache_validation, with_exp, some_exp, left)
              (get_token_validation-expired env.hash_token (clock 1) (clock 2) t t' token user
                remaining_ms c v (ground arith) (ground arith))
        | inr past ↦ rw (cache_validation, with_exp, some_exp, past) miss
      ]

  -- A token with a time `exp` that is verified, and so may be cached, is not taken for valid any more once it
  -- cannot be verified and `exp` is over, by more than the time that passes in the call between the
  -- reading of the clock and the writing of the cache.
  pub validate_access_token-expired :
      {n : ℕ} (clock clock' : ℕ → ℕ) (token message : String) (payload : Payload) (exp : ℕ)
      (s : AuthService R)
      → IsValid n s.user_service.cache.token_cache
      → (get_token_validation env.hash_token (clock 0) (clock 1) token s.user_service.cache).1
        ≡ none
      → env.verify (clock 2) token ≡ ok payload
      → payload.exp ≡ some exp
      → 1 ≤ exp
      → env.verify (clock' 2) token ≡ throw message
      → exp * 1000 + clock 5 < clock' 0 + clock 3
      → ((validate_access_token env clock token s).1
          ≡ some (record { user_id = payload.sub; email = payload.email }))
        × ((validate_access_token env clock' token (validate_access_token env clock token s).0).1
            ≡ none)
  unfolding validate_access_token
  validate_access_token-expired clock clock' token message payload exp s v miss verified with_exp
        positive over late =
      let c = s.user_service.cache in
      let (d, cached) = get_token_validation env.hash_token (clock 0) (clock 1) token c in
      let user : AuthUser = record { user_id = payload.sub; email = payload.email } in
      let s' = with_cache env (cache_validation env (later 3 clock) token payload d) s in
      let first : validate_access_token env clock token s ≡ (s', some user) =
        rw (validate_access_token, miss, verified) refl in
      let later_miss =
        cache_validation-expired (later 3 clock) (clock' 0) (clock' 1) token payload exp d
          (get_token_validation-IsValid env.hash_token (clock 0) (clock 1) token c v)
          (get_token_validation-missed env.hash_token (clock 0) (clock 1) (clock' 0) (clock' 1)
            token c miss)
          with_exp positive late in
      (
        ap (λ (x : AuthService R × Option AuthUser). x.1) first,
        ap (λ (x : AuthService R × Option AuthUser). (validate_access_token env clock' token x.0).1)
              first
            ∙ validate_access_token-none clock' token message s' later_miss over,
      )
