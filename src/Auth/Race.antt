-- ===== src/Auth/Race.antt =====
-- Code: src/auth/auth.service.ts. `refreshToken` in the two steps between which other requests run: it awaits the
-- look-up of the user before it revokes the token.
use talksy.Common.{
  ℕ, ◌+◌, ◌*◌, ◌≡◌, ◌≢◌, refl, sym, ◌∙◌, ap, true, false, none, some, String, str_dec, if_pos,
  if_neg, inl, inr, Option-cases, Bool-cases, if◌then◌else◌, Result, ok, throw, is_some,
}
use talksy.Common.Map
use talksy.CacheService.{User}
use talksy.Users
use talksy.Users.{has_client, later}
use talksy.Auth.{
  AuthEnv, AuthService, AuthTokens, RefreshToken, Payload, store_refresh_token,
  is_refresh_token_valid, revoke_refresh_token, generate_tokens, rotate,
}

module _ {R : Type 0} (env : AuthEnv R) where
  abbrev kept : ℕ → String → RefreshToken
  kept now user_id = record {
    user_id = user_id;
    expires_at = now + env.refresh_token_expiry_sec * 1000;
  }

  -- Up to the end of the look-up of the user.
  unfoldable pub check_refresh : (ℕ → ℕ) → Payload → AuthService R → AuthService R × Result User
  check_refresh clock payload s =
      let (s', valid) = is_refresh_token_valid env (clock 0) payload.token_id s in
      let (users, found) = Users.find_by_id env.users (later 1 clock) payload.sub s'.user_service in
      let looked_up : AuthService R = record s' { user_service = users } in
      if valid
      then elim found [
        | none ↦ (looked_up, throw "User not found")
        | some user ↦ (looked_up, ok user)
      ]
      else (s', throw "Refresh token has been revoked")

  -- From there on.
  unfoldable pub grant_refresh :
      (ℕ → ℕ) → String → Payload → User → AuthService R → AuthService R × AuthTokens
  grant_refresh clock token_id payload user s =
      generate_tokens env clock token_id user (revoke_refresh_token env payload.token_id s)

  unfoldable pub both_steps :
      (ℕ → ℕ) → String → Payload → AuthService R × Result User → AuthService R × Result AuthTokens
  both_steps clock token_id payload (s, throw message) = (s, throw message)
  both_steps clock token_id payload (s, ok user) =
      let (s', tokens) = grant_refresh (later 5 clock) token_id payload user s in (s', ok tokens)

  -- One step after the other, they are the whole method.
  pub both_steps-check_refresh :
      (clock : ℕ → ℕ) (token_id : String) (payload : Payload) (s : AuthService R)
      → both_steps clock token_id payload (check_refresh clock payload s)
        ≡ rotate env clock token_id payload s
  unfolding check_refresh grant_refresh both_steps rotate
  both_steps-check_refresh clock token_id payload s =
      let (s', valid) = is_refresh_token_valid env (clock 0) payload.token_id s in
      elim (Bool-cases valid) [
        | inr refused ↦ rw (rotate, check_refresh, refused) refl
        | inl held ↦
            elim (Option-cases
              (Users.find_by_id env.users (later 1 clock) payload.sub s'.user_service).1) [
                | inl gone ↦ rw (rotate, check_refresh, held, gone) refl
                | inr (user, found) ↦ rw (rotate, check_refresh, held, found) refl
              ]
      ]

  revoke_refresh_token_offline :
      (token_id : String) (s : AuthService R)
      → has_client env.users s.user_service.redis ≡ false
      → revoke_refresh_token env token_id s
        ≡ record s { refresh_tokens = Map.delete token_id s.refresh_tokens }
  unfolding revoke_refresh_token
  revoke_refresh_token_offline token_id s off = rw (revoke_refresh_token, off) refl

  store_refresh_token_offline :
      (now : ℕ) (token_id user_id : String) (s : AuthService R)
      → has_client env.users s.user_service.redis ≡ false
      → store_refresh_token env now token_id user_id s
        ≡ record s { refresh_tokens = Map.set token_id (kept now user_id) s.refresh_tokens }
  unfolding store_refresh_token
  store_refresh_token_offline now token_id user_id s off = rw (store_refresh_token, off) refl

  grant_refresh_offline :
      (clock : ℕ → ℕ) (token_id : String) (payload : Payload) (user : User) (s : AuthService R)
      → has_client env.users s.user_service.redis ≡ false
      → (grant_refresh clock token_id payload user s).0 ≡ record s {
        refresh_tokens =
            Map.set token_id
              (kept (clock 2) user.id)
              (Map.delete payload.token_id s.refresh_tokens);
      }
  unfolding grant_refresh generate_tokens
  grant_refresh_offline clock token_id payload user s off =
      ap (store_refresh_token env (clock 2) token_id user.id)
        (revoke_refresh_token_offline payload.token_id s off)
      ∙ store_refresh_token_offline (clock 2) token_id user.id _ off

  -- Without Redis: two requests with one refresh token that both get to the look-up of the user before
  -- either goes on both get new tokens, and both of the new refresh tokens are kept. The id of the
  -- first new one is neither that of the old one nor of the other.
  pub grant_refresh_twice :
      (clock clock' : ℕ → ℕ) (new_id new_id' : String) (payload : Payload) (user user' : User)
      (s s' s'' : AuthService R)
      → check_refresh clock payload s ≡ (s', ok user)
      → check_refresh clock' payload s' ≡ (s'', ok user')
      → has_client env.users s''.user_service.redis ≡ false
      → new_id ≢ new_id'
      → new_id ≢ payload.token_id
      → let first = (grant_refresh (later 5 clock) new_id payload user s'').0 in
        let last = (grant_refresh (later 5 clock') new_id' payload user' first).0 in
        (Map.has new_id last.refresh_tokens ≡ true) × (Map.has new_id' last.refresh_tokens ≡ true)
  grant_refresh_twice clock clock' new_id new_id' payload user user' s s' s'' checked checked' off
        ne other =
      let first = (grant_refresh (later 5 clock) new_id payload user s'').0 in
      let one = grant_refresh_offline (later 5 clock) new_id payload user s'' off in
      let off' : has_client env.users first.user_service.redis ≡ false =
        ap (λ (x : AuthService R). has_client env.users x.user_service.redis) one ∙ off in
      let two =
        ap (λ (x : AuthService R). x.refresh_tokens)
          (grant_refresh_offline (later 5 clock') new_id' payload user' first off') in
      let left = Map.delete payload.token_id first.refresh_tokens in
      (
        ap (λ m. Map.has new_id m) two
            ∙ ap is_some (
                Map.get-set new_id new_id' _ left
                ∙ if_neg (str_dec new_id' new_id) (λ e. ne (sym e)) _ _
                ∙ Map.get-delete new_id payload.token_id first.refresh_tokens
                ∙ if_neg (str_dec payload.token_id new_id) (λ e. other (sym e)) _ _
                ∙ ap (λ (x : AuthService R). Map.get new_id x.refresh_tokens) one
                ∙ Map.get-set new_id new_id _ (Map.delete payload.token_id s''.refresh_tokens)
                ∙ if_pos (str_dec new_id new_id) refl _ _),
        ap (λ m. Map.has new_id' m) two
            ∙ ap is_some
                (Map.get-set new_id' new_id' _ left ∙ if_pos (str_dec new_id' new_id') refl _ _),
      )
