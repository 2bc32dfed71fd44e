-- ===== src/Auth/Gone.antt =====
-- Code: src/auth/auth.service.ts, without Redis. A refresh token that is gone stays away.
use talksy.Common.{
  ℕ, ◌≡◌, ◌≢◌, ◌⊎◌, refl, ◌∙◌, ap, Bool, false, List, [], ◌∷◌, none, arith, String, str_dec, if_neg,
  inl, inr, Option-cases, Bool-cases, both, ltb, Result, ok, throw, Result-cases,
}
use talksy.Common.Map
use talksy.Common.Map.{Map}
use talksy.CacheService
use talksy.CacheService.{User, AuthUser, CacheService, get_user_id_by_email}
use talksy.Users
use talksy.Users.{
  Env, UserService, CreateUser, has_client, later, nonempty, load_user, find_by_id, find_in_index,
  find_by_email, store_user,
}
use talksy.Auth.{
  AuthEnv, AuthService, AuthTokens, AuthResponse, Payload, store_refresh_token, is_valid_in_memory,
  is_refresh_token_valid, revoke_refresh_token, generate_tokens, register, login, rotate,
  refresh_token, logout, validate_access_token, clear_all_tokens,
}
use talksy.Auth.Offline.{find_by_id-redis, find_by_email-redis, create-redis}

-- The calls of the service, with the times, the ids and the salts that they get.
pub data Op : Type 0 where
  register_op : (clock : ℕ → ℕ) (id salt token_id : String) (dto : CreateUser) → Op
  login_op : (clock : ℕ → ℕ) (token_id : String) (dto : CreateUser) → Op
  refresh_op : (clock : ℕ → ℕ) (token_id token : String) → Op
  logout_op : (now : ℕ) (token : String) → Op
  validate_op : (clock : ℕ → ℕ) (token : String) → Op
  clear_op : Op

-- The call makes no token of this id.
abbrev pub Spares : String → Op → Type 0
Spares id (register_op clock user_id salt token_id dto) = token_id ≢ id
Spares id (login_op clock token_id dto) = token_id ≢ id
Spares id (refresh_op clock token_id token) = token_id ≢ id
Spares id op = Unit {0}

abbrev pub Spare : String → List Op → Type 0
Spare id [] = Unit {0}
Spare id (op ∷ ops) = Spares id op × Spare id ops

module _ {R : Type 0} (env : AuthEnv R) where
  unfoldable pub apply : Op → AuthService R → AuthService R
  apply (register_op clock id salt token_id dto) s = (register env clock id salt token_id dto s).0
  apply (login_op clock token_id dto) s = (login env clock token_id dto s).0
  apply (refresh_op clock token_id token) s = (refresh_token env clock token_id token s).0
  apply (logout_op now token) s = logout env now token s
  apply (validate_op clock token) s = (validate_access_token env clock token s).0
  apply clear_op s = clear_all_tokens env s

  unfoldable pub apply_all : List Op → AuthService R → AuthService R
  apply_all [] s = s
  apply_all (op ∷ ops) s = apply_all ops (apply op s)

  -- No client, and no token of the id.
  pub record IsGone (id : String) (s : AuthService R) : Type 0 where
    pub offline : has_client env.users s.user_service.redis ≡ false
    pub gone : Map.get id s.refresh_tokens ≡ none

  store-IsGone :
      (id : String) (now : ℕ) (token_id user_id : String) (s : AuthService R)
      → token_id ≢ id
      → IsGone id s
      → IsGone id (store_refresh_token env now token_id user_id s)
  unfolding store_refresh_token
  store-IsGone id now token_id user_id s ne v =
      rw (store_refresh_token, v.offline)
        (record {
          offline = v.offline;
          gone =
              Map.get-set id token_id _ s.refresh_tokens
              ∙ if_neg (str_dec token_id id) ne _ _
              ∙ v.gone;
        })

  valid-IsGone :
      (id : String) (now : ℕ) (token_id : String) (s : AuthService R)
      → IsGone id s
      → IsGone id (is_refresh_token_valid env now token_id s).0
  unfolding is_refresh_token_valid is_valid_in_memory
  valid-IsGone id now token_id s v = elim (Option-cases (Map.get token_id s.refresh_tokens)) [
    | inl absent ↦ rw (is_refresh_token_valid, v.offline, is_valid_in_memory, absent) v
    | inr (token, found) ↦
        rw (is_refresh_token_valid, v.offline, is_valid_in_memory, found)
          (both (λ (x : AuthService R × Bool). IsGone id x.0) (ltb token.expires_at now)
            (record {
              offline = v.offline;
              gone = ground (arith, Map.get-delete id token_id s.refresh_tokens, v.gone);
            })
            v)
  ]

  pub revoke-IsGone :
      (id token_id : String) (s : AuthService R)
      → has_client env.users s.user_service.redis ≡ false
      → (token_id ≡ id) ⊎ (Map.get id s.refresh_tokens ≡ none)
      → IsGone id (revoke_refresh_token env token_id s)
  unfolding revoke_refresh_token
  revoke-IsGone id token_id s off v =
      rw (revoke_refresh_token, off)
        (record {
          offline = off;
          gone = ground (arith, Map.get-delete id token_id s.refresh_tokens);
        })

  -- The state with other users, where the client is as it was.
  users-IsGone :
      (id : String) (users : UserService R) (s : AuthService R)
      → users.redis ≡ s.user_service.redis
      → IsGone id s
      → IsGone id (record s { user_service = users })
  users-IsGone id users s same v = record {
    offline = ap (has_client env.users) same ∙ v.offline;
    gone = v.gone;
  }

  generate-IsGone :
      (id : String) (clock : ℕ → ℕ) (token_id : String) (user : User) (s : AuthService R)
      → token_id ≢ id
      → IsGone id s
      → IsGone id (generate_tokens env clock token_id user s).0
  unfolding generate_tokens
  generate-IsGone id clock token_id user s ne v = store-IsGone id (clock 2) token_id user.id s ne v

  register-IsGone :
      (id : String) (clock : ℕ → ℕ) (user_id salt token_id : String) (dto : CreateUser)
      (s : AuthService R)
      → token_id ≢ id
      → IsGone id s
      → IsGone id (register env clock user_id salt token_id dto s).0
  unfolding register
  register-IsGone id clock user_id salt token_id dto s ne v =
      let (users, made) = Users.create env.users clock user_id salt dto s.user_service in
      let v' =
        users-IsGone id users s
          (create-redis env.users clock user_id salt dto s.user_service v.offline) v in
      elim (Result-cases made) [
        | inl (user, done) ↦
            rw (register, done) (generate-IsGone id (later 9 clock) token_id user _ ne v')
        | inr (message, thrown) ↦ rw (register, thrown) v'
      ]

  login-IsGone :
      (id : String) (clock : ℕ → ℕ) (token_id : String) (dto : CreateUser) (s : AuthService R)
      → token_id ≢ id
      → IsGone id s
      → IsGone id (login env clock token_id dto s).0
  unfolding login
  login-IsGone id clock token_id dto s ne v =
      let (users, found) = find_by_email env.users clock dto.email s.user_service in
      let v' =
        users-IsGone id users s
          (find_by_email-redis env.users clock dto.email s.user_service v.offline) v in
      elim (Option-cases found) [
        | inl absent ↦ rw (login, absent) v'
        | inr (user, present) ↦
            rw (login, present)
              (both (λ (x : AuthService R × Result AuthResponse). IsGone id x.0)
                (Users.validate_password env.users user dto.password)
                (generate-IsGone id (later 6 clock) token_id user _ ne v') v')
      ]

  valid-redis :
      (now : ℕ) (token_id : String) (s : AuthService R)
      → has_client env.users s.user_service.redis ≡ false
      → (is_refresh_token_valid env now token_id s).0.user_service.redis ≡ s.user_service.redis
  unfolding is_refresh_token_valid is_valid_in_memory
  valid-redis now token_id s off = elim (Option-cases (Map.get token_id s.refresh_tokens)) [
    | inl absent ↦ rw (is_refresh_token_valid, off, is_valid_in_memory, absent) refl
    | inr (token, found) ↦
        rw (is_refresh_token_valid, off, is_valid_in_memory, found)
          (both (λ (x : AuthService R × Bool). x.0.user_service.redis ≡ s.user_service.redis)
            (ltb token.expires_at now) refl refl)
  ]

  rotate-IsGone :
      (id : String) (clock : ℕ → ℕ) (token_id : String) (payload : Payload) (s : AuthService R)
      → token_id ≢ id
      → IsGone id s
      → IsGone id (rotate env clock token_id payload s).0
  unfolding rotate
  rotate-IsGone id clock token_id payload s ne v =
      let s' = (is_refresh_token_valid env (clock 0) payload.token_id s).0 in
      let v' = valid-IsGone id (clock 0) payload.token_id s v in
      let (users, found) = find_by_id env.users (later 1 clock) payload.sub s'.user_service in
      let looked_up : AuthService R = record s' { user_service = users } in
      let v'' =
        users-IsGone id users s'
          (find_by_id-redis env.users (later 1 clock) payload.sub s'.user_service v'.offline) v' in
      elim (Bool-cases (is_refresh_token_valid env (clock 0) payload.token_id s).1) [
        | inr invalid ↦ rw (rotate, invalid) v'
        | inl valid ↦ elim (Option-cases found) [
          | inl absent ↦ rw (rotate, valid, absent) v''
          | inr (user, present) ↦
              rw (rotate, valid, present)
                (generate-IsGone id (later 5 clock) token_id user _ ne
                  (revoke-IsGone id payload.token_id looked_up v''.offline (inr v''.gone)))
        ]
      ]

  -- Where the refresh succeeds, its own token goes.
  pub rotate_revokes :
      (clock : ℕ → ℕ) (token_id : String) (payload : Payload) (s : AuthService R)
      (tokens : AuthTokens)
      → has_client env.users s.user_service.redis ≡ false
      → token_id ≢ payload.token_id
      → (rotate env clock token_id payload s).1 ≡ ok tokens
      → IsGone payload.token_id (rotate env clock token_id payload s).0
  unfolding rotate
  rotate_revokes clock token_id payload s tokens off ne e =
      let s' = (is_refresh_token_valid env (clock 0) payload.token_id s).0 in
      let off' = ap (has_client env.users) (valid-redis (clock 0) payload.token_id s off) ∙ off in
      let (users, found) = find_by_id env.users (later 1 clock) payload.sub s'.user_service in
      let looked_up : AuthService R = record s' { user_service = users } in
      let off'' =
        ap (has_client env.users)
          (find_by_id-redis env.users (later 1 clock) payload.sub s'.user_service off')
        ∙ off' in
      let result = (rotate env clock token_id payload s).1 in
      elim (Bool-cases (is_refresh_token_valid env (clock 0) payload.token_id s).1) [
        | inr invalid ↦
            let thrown : result ≡ throw "Refresh token has been revoked" =
              rw (rotate, invalid) refl in
            absurd (ground arith)
        | inl valid ↦ elim (Option-cases found) [
          | inl absent ↦
              let thrown : result ≡ throw "User not found" = rw (rotate, valid, absent) refl in
              absurd (ground arith)
          | inr (user, present) ↦
              rw (rotate, valid, present)
                (generate-IsGone payload.token_id (later 5 clock) token_id user _ ne
                  (revoke-IsGone payload.token_id payload.token_id looked_up off'' (inl refl)))
        ]
      ]

  refresh-IsGone :
      (id : String) (clock : ℕ → ℕ) (token_id token : String) (s : AuthService R)
      → token_id ≢ id
      → IsGone id s
      → IsGone id (refresh_token env clock token_id token s).0
  unfolding refresh_token
  refresh-IsGone id clock token_id token s ne v = elim (Result-cases (env.verify (clock 0) token)) [
    | inr (message, thrown) ↦ rw (refresh_token, thrown) v
    | inl (payload, verified) ↦
        rw (refresh_token, verified) (rotate-IsGone id (later 1 clock) token_id payload s ne v)
  ]

  logout-IsGone :
      (id : String) (now : ℕ) (token : String) (s : AuthService R)
      → IsGone id s
      → IsGone id (logout env now token s)
  unfolding logout
  logout-IsGone id now token s v = elim (Result-cases (env.verify now token)) [
    | inr (message, thrown) ↦ rw (logout, thrown) v
    | inl (payload, verified) ↦
        let v' = revoke-IsGone id payload.token_id s v.offline (inr v.gone) in
        rw (logout, verified) (record { offline = v'.offline; gone = v'.gone })
  ]

  validate-IsGone :
      (id : String) (clock : ℕ → ℕ) (token : String) (s : AuthService R)
      → IsGone id s
      → IsGone id (validate_access_token env clock token s).0
  unfolding validate_access_token
  validate-IsGone id clock token s v =
      let (c, cached) =
        CacheService.get_token_validation env.hash_token (clock 0) (clock 1) token
          s.user_service.cache in
      elim (Option-cases cached) [
        | inr (user, hit) ↦
            rw (validate_access_token, hit) (record { offline = v.offline; gone = v.gone })
        | inl miss ↦ elim (Result-cases (env.verify (clock 2) token)) [
          | inr (message, thrown) ↦
              rw (validate_access_token, miss, thrown)
                (record { offline = v.offline; gone = v.gone })
          | inl (payload, verified) ↦
              rw (validate_access_token, miss, verified)
                (record { offline = v.offline; gone = v.gone })
        ]
      ]

  clear-IsGone :
      (id : String) (s : AuthService R) → IsGone id s → IsGone id (clear_all_tokens env s)
  unfolding clear_all_tokens Map.get
  clear-IsGone id s v = record { offline = rw v.offline v.offline; gone = refl }

  apply-IsGone :
      (id : String) (op : Op) (s : AuthService R)
      → Spares id op
      → IsGone id s
      → IsGone id (apply op s)
  unfolding apply
  apply-IsGone id (register_op clock user_id salt token_id dto) s ne v =
      register-IsGone id clock user_id salt token_id dto s ne v
  apply-IsGone id (login_op clock token_id dto) s ne v = login-IsGone id clock token_id dto s ne v
  apply-IsGone id (refresh_op clock token_id token) s ne v =
      refresh-IsGone id clock token_id token s ne v
  apply-IsGone id (logout_op now token) s ne v = logout-IsGone id now token s v
  apply-IsGone id (validate_op clock token) s ne v = validate-IsGone id clock token s v
  apply-IsGone id clear_op s ne v = clear-IsGone id s v

  pub apply_all-IsGone :
      (id : String) (ops : List Op) (s : AuthService R)
      → Spare id ops
      → IsGone id s
      → IsGone id (apply_all ops s)
  unfolding apply_all
  apply_all-IsGone id [] s spare v = v
  apply_all-IsGone id (op ∷ ops) s spare v =
      apply_all-IsGone id ops (apply op s) spare.1 (apply-IsGone id op s spare.0 v)
