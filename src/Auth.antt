-- ===== src/Auth.antt =====
-- src/auth/auth.service.ts: the class `AuthService`. The library that signs and verifies tokens is a
-- parameter; a claim that a token does not have is the empty text. Refresh tokens are kept in Redis, or in a map
-- when there is no client or a command throws. A method runs to its end before another one begins; `clock`
-- gives the times that it reads, in order, and the ids that `uuidv4` makes are arguments.
pub mod Expiry
mod Offline
pub mod Gone
pub mod Refresh
pub mod Access
pub mod Guard
pub mod Race
mod Tests
use talksy.Common.{
  ℕ, ◌+◌, ◌-◌, ◌*◌, ◌/◌, Bool, true, false, if◌then◌else◌, List, [], ◌∷◌, Option, none, some,
  String, Result, ok, throw, join, ltb,
}
use talksy.Common.Map
use talksy.Common.Map.{Map}
use talksy.CacheService
use talksy.CacheService.{User, AuthUser, CacheService}
use talksy.RedisPool
use talksy.Users
use talksy.Users.{Env, UserService, CreateUser, has_client, later}

-- `IJwtPayload` and `IRefreshTokenPayload`, of which `verify` does not tell which it is.
pub record Payload : Type 0 where
  pub sub : String
  pub email : String
  pub token_id : String
  pub exp : Option ℕ

pub record AuthEnv (R : Type 0) : Type 0 where
  pub users : Env R
  -- `verify` at a time, and `sign` at a time with the seconds to expire in.
  pub verify : ℕ → String → Result Payload
  pub sign : ℕ → Payload → ℕ → String
  pub hash_token : String → String
  pub access_token_expiry_sec : ℕ
  pub refresh_token_expiry_sec : ℕ

pub record RefreshToken : Type 0 where
  pub user_id : String
  pub expires_at : ℕ

pub record AuthService (R : Type 0) : Type 0 where
  pub user_service : UserService R
  pub refresh_tokens : Map RefreshToken

pub record AuthTokens : Type 0 where
  pub access_token : String
  pub refresh_token : String
  pub expires_in : ℕ

pub record AuthResponse : Type 0 where
  pub tokens : AuthTokens
  pub user_id : String
  pub email : String

module _ {R : Type 0} (env : AuthEnv R) where
  abbrev pub refresh_token_expiry_ms : ℕ
  refresh_token_expiry_ms = env.refresh_token_expiry_sec * 1000

  abbrev pub get_refresh_token_key : String → String
  get_refresh_token_key token_id = join (env.users.key_prefix ∷ "refresh:" ∷ token_id ∷ [])

  abbrev pub redis_of : AuthService R → R
  redis_of s = s.user_service.redis

  abbrev pub with_redis : R → AuthService R → AuthService R
  with_redis r s = record s { user_service = record s.user_service { redis = r } }

  unfoldable pub store_refresh_token : ℕ → String → String → AuthService R → AuthService R
  store_refresh_token now token_id user_id s =
      let expires_at = now + refresh_token_expiry_ms in
      let (r, reply) =
        env.users.redis.set_px (get_refresh_token_key token_id) user_id refresh_token_expiry_ms
          (redis_of s) in
      let in_memory : AuthService R → AuthService R = λ t. record t {
        refresh_tokens =
            Map.set token_id (record { user_id = user_id; expires_at = expires_at })
              t.refresh_tokens;
      } in
      if has_client env.users (redis_of s)
      then elim reply [ ok u ↦ with_redis r s | throw message ↦ in_memory (with_redis r s) ]
      else in_memory s

  -- The part of `isRefreshTokenValid` that looks into the map.
  unfoldable pub is_valid_in_memory : ℕ → String → AuthService R → AuthService R × Bool
  is_valid_in_memory now token_id s = elim (Map.get token_id s.refresh_tokens) [
    | none ↦ (s, false)
    | some token ↦
        if ltb token.expires_at now
        then (record s { refresh_tokens = Map.delete token_id s.refresh_tokens }, false)
        else (s, true)
  ]

  unfoldable pub is_refresh_token_valid : ℕ → String → AuthService R → AuthService R × Bool
  is_refresh_token_valid now token_id s =
      let (r, reply) = env.users.redis.exists (get_refresh_token_key token_id) (redis_of s) in
      if has_client env.users (redis_of s)
      then elim reply [
        | ok n ↦ (with_redis r s, ltb 0 n)
        | throw message ↦ is_valid_in_memory now token_id (with_redis r s)
      ]
      else is_valid_in_memory now token_id s

  unfoldable pub revoke_refresh_token : String → AuthService R → AuthService R
  revoke_refresh_token token_id s =
      let (r, reply) = env.users.redis.del (get_refresh_token_key token_id ∷ []) (redis_of s) in
      let in_memory : AuthService R → AuthService R =
        λ t. record t { refresh_tokens = Map.delete token_id t.refresh_tokens } in
      if has_client env.users (redis_of s)
      then elim reply [ ok n ↦ with_redis r s | throw message ↦ in_memory (with_redis r s) ]
      else in_memory s

  -- `sign` reads the clock for each token, and `storeRefreshToken` once.
  unfoldable pub generate_tokens :
      (ℕ → ℕ) → String → User → AuthService R → AuthService R × AuthTokens
  generate_tokens clock token_id user s =
      let access : Payload = record {
        sub = user.id;
        email = user.email;
        token_id = "";
        exp = none;
      } in
      let refresh : Payload = record {
        sub = user.id;
        email = "";
        token_id = token_id;
        exp = none;
      } in
      let tokens : AuthTokens = record {
        access_token = env.sign (clock 0) access env.access_token_expiry_sec;
        refresh_token = env.sign (clock 1) refresh env.refresh_token_expiry_sec;
        expires_in = env.access_token_expiry_sec;
      } in
      (store_refresh_token (clock 2) token_id user.id s, tokens)

  abbrev pub respond : User → AuthTokens → AuthResponse
  respond user tokens = record { tokens = tokens; user_id = user.id; email = user.email }

  unfoldable pub register :
      (ℕ → ℕ)
      → String
      → String
      → String
      → CreateUser
      → AuthService R
      → AuthService R × Result AuthResponse
  register clock id salt token_id dto s =
      let (users, made) = Users.create env.users clock id salt dto s.user_service in
      let s' : AuthService R = record s { user_service = users } in
      elim made [
        | throw message ↦ (s', throw message)
        | ok user ↦
            let (s'', tokens) = generate_tokens (later 9 clock) token_id user s' in
            (s'', ok (respond user tokens))
      ]

  unfoldable pub login :
      (ℕ → ℕ) → String → CreateUser → AuthService R → AuthService R × Result AuthResponse
  login clock token_id dto s =
      let (users, found) = Users.find_by_email env.users clock dto.email s.user_service in
      let s' : AuthService R = record s { user_service = users } in
      elim found [
        | none ↦ (s', throw "Invalid email or password")
        | some user ↦
            let (s'', tokens) = generate_tokens (later 6 clock) token_id user s' in
            if Users.validate_password env.users user dto.password
            then (s'', ok (respond user tokens))
            else (s', throw "Invalid email or password")
      ]

  -- `refreshToken` after the token has been verified.
  unfoldable pub rotate :
      (ℕ → ℕ) → String → Payload → AuthService R → AuthService R × Result AuthTokens
  rotate clock token_id payload s =
      let (s', valid) = is_refresh_token_valid (clock 0) payload.token_id s in
      let (users, found) = Users.find_by_id env.users (later 1 clock) payload.sub s'.user_service in
      let looked_up : AuthService R = record s' { user_service = users } in
      if valid
      then elim found [
        | none ↦ (looked_up, throw "User not found")
        | some user ↦
            let (s'', tokens) =
              generate_tokens (later 5 clock) token_id user
                (revoke_refresh_token payload.token_id looked_up) in
            (s'', ok tokens)
      ]
      else (s', throw "Refresh token has been revoked")

  unfoldable pub refresh_token :
      (ℕ → ℕ) → String → String → AuthService R → AuthService R × Result AuthTokens
  refresh_token clock token_id token s = elim (env.verify (clock 0) token) [
    | throw message ↦ (s, throw "Invalid or expired refresh token")
    | ok payload ↦ rotate (later 1 clock) token_id payload s
  ]

  unfoldable pub logout : ℕ → String → AuthService R → AuthService R
  logout now token s = elim (env.verify now token) [
    | throw message ↦ s
    | ok payload ↦
        let s' = revoke_refresh_token payload.token_id s in
        record s' {
          user_service = record s'.user_service {
            cache = CacheService.invalidate_all_tokens_for_user payload.sub s'.user_service.cache;
          };
        }
  ]

  abbrev pub with_cache : CacheService → AuthService R → AuthService R
  with_cache c s = record s { user_service = record s.user_service { cache = c } }

  -- What `validateAccessToken` does with a token that it has verified. An `exp` of zero counts as none.
  unfoldable pub cache_validation : (ℕ → ℕ) → String → Payload → CacheService → CacheService
  cache_validation clock token payload c =
      let user : AuthUser = record { user_id = payload.sub; email = payload.email } in
      let default =
        CacheService.set_token_validation env.hash_token (clock 0) (clock 1) token user none c in
      elim payload.exp [
        | none ↦ default
        | some exp ↦
            let remaining_ms = exp * 1000 - clock 0 in
            if ltb 0 exp
            then (if ltb 0 remaining_ms
                then CacheService.set_token_validation env.hash_token (clock 1) (clock 2) token user
                    (some remaining_ms) c
                else c)
            else default
      ]

  unfoldable pub validate_access_token :
      (ℕ → ℕ) → String → AuthService R → AuthService R × Option AuthUser
  validate_access_token clock token s =
      let (c, cached) =
        CacheService.get_token_validation env.hash_token (clock 0) (clock 1) token
          s.user_service.cache in
      elim cached [
        | some user ↦ (with_cache c s, some user)
        | none ↦ elim (env.verify (clock 2) token) [
          | throw message ↦ (with_cache c s, none)
          | ok payload ↦ (
            with_cache (cache_validation (later 3 clock) token payload c) s,
            some (record { user_id = payload.sub; email = payload.email }),
          )
        ]
      ]

  -- The keys of refresh tokens that are found in Redis are deleted, and the map is emptied.
  unfoldable pub clear_all_tokens : AuthService R → AuthService R
  clear_all_tokens s =
      let (r, reply) =
        env.users.redis.keys (join (env.users.key_prefix ∷ "refresh:*" ∷ [])) (redis_of s) in
      let r' = if has_client env.users (redis_of s) then delete_keys reply r else redis_of s in
      record (with_redis r' s) { refresh_tokens = [] }
    where
      delete_keys : Result (List String) → R → R
      delete_keys (throw message) r = r
      delete_keys (ok []) r = r
      delete_keys (ok (k ∷ ks)) r = (env.users.redis.del (k ∷ ks) r).0
