-- ===== src/Auth/Refresh.antt =====
-- Code: src/auth/auth.service.ts, without Redis. What becomes of refresh tokens.
use talksy.Common.{
  ℕ, ◌≡◌, ◌≢◌, refl, sym, ◌∙◌, ap, subst, false, List, none, arith, String, inl, inr, Result, ok,
  throw, Result-cases,
}
use talksy.Common.Map
use talksy.Common.Map.{Map}
use talksy.Users.{has_client, later}
use talksy.Auth.{
  AuthEnv, AuthService, AuthTokens, Payload, is_valid_in_memory, is_refresh_token_valid, rotate,
  refresh_token, logout,
}
use talksy.Auth.Gone.{Op, Spare, apply_all, IsGone, revoke-IsGone, rotate_revokes, apply_all-IsGone}

module _ {R : Type 0} (env : AuthEnv R) where
  -- The token cannot be used.
  pub IsDead : String → (ℕ → ℕ) → String → AuthService R → Type 0
  IsDead token clock token_id s =
      (message : String) × ((refresh_token env clock token_id token s).1 ≡ throw message)

  IsGone-IsDead :
      (id token : String) (clock : ℕ → ℕ) (token_id : String) (s : AuthService R)
      → ((t : ℕ) (payload : Payload) → env.verify t token ≡ ok payload → payload.token_id ≡ id)
      → IsGone env id s
      → IsDead token clock token_id s
  unfolding IsDead refresh_token rotate is_refresh_token_valid is_valid_in_memory
  IsGone-IsDead id token clock token_id s same v =
      elim (Result-cases (env.verify (clock 0) token)) [
        | inr (message, thrown) ↦
            ("Invalid or expired refresh token", rw (refresh_token, thrown) refl)
        | inl (payload, verified) ↦
            let absent : Map.get payload.token_id s.refresh_tokens ≡ none =
              ap (λ k. Map.get k s.refresh_tokens) (same (clock 0) payload verified) ∙ v.gone in
            (
              "Refresh token has been revoked",
              rw
                  (
                    refresh_token, verified, rotate, is_refresh_token_valid, v.offline,
                    is_valid_in_memory, absent,
                  )
                  refl,
            )
      ]

  refresh_revokes :
      (id token new_id : String) (clock : ℕ → ℕ) (tokens : AuthTokens) (s : AuthService R)
      → has_client env.users s.user_service.redis ≡ false
      → ((t : ℕ) (p : Payload) → env.verify t token ≡ ok p → p.token_id ≡ id)
      → new_id ≢ id
      → (refresh_token env clock new_id token s).1 ≡ ok tokens
      → IsGone env id (refresh_token env clock new_id token s).0
  unfolding refresh_token
  refresh_revokes id token new_id clock tokens s off same ne e =
      elim (Result-cases (env.verify (clock 0) token)) [
        | inr (message, thrown) ↦
            let failed : (refresh_token env clock new_id token s).1
                ≡ throw "Invalid or expired refresh token" =
              rw (refresh_token, thrown) refl in
            absurd (ground arith)
        | inl (p, verified) ↦
            let its_id = same (clock 0) p verified in
            let rotated : refresh_token env clock new_id token s
                ≡ rotate env (later 1 clock) new_id p s =
              rw (refresh_token, verified) refl in
            let gone =
              rotate_revokes env (later 1 clock) new_id p s tokens off (λ q. ne (q ∙ its_id))
                (sym (ap (λ x. x.1) rotated) ∙ e) in
            subst (λ i. IsGone env i (refresh_token env clock new_id token s).0) its_id
              (subst (λ (x : AuthService R × Result AuthTokens). IsGone env p.token_id x.0)
                (sym rotated) gone)
      ]

  logout_revokes :
      (id token : String) (now : ℕ) (payload : Payload) (s : AuthService R)
      → has_client env.users s.user_service.redis ≡ false
      → payload.token_id ≡ id
      → env.verify now token ≡ ok payload
      → IsGone env id (logout env now token s)
  unfolding logout
  logout_revokes id token now payload s off same verified =
      let v = revoke-IsGone env id payload.token_id s off (inl same) in
      rw (logout, verified) (record { offline = v.offline; gone = v.gone })

  -- Without Redis, a refresh token is good for one refresh: when it has been refreshed, or its owner has
  -- logged out with it, it is refused at any later time, whatever calls come in between, as long as no
  -- new token gets its id. A token that is verified has the same id whenever it is.
  pub refresh_token_once :
      (id token new_id new_id' : String) (clock clock' : ℕ → ℕ) (now : ℕ) (payload : Payload)
      (tokens : AuthTokens) (ops : List Op) (s : AuthService R)
      → has_client env.users s.user_service.redis ≡ false
      → ((t : ℕ) (p : Payload) → env.verify t token ≡ ok p → p.token_id ≡ id)
      → new_id ≢ id
      → Spare id ops
      → (refresh_token env clock new_id token s).1 ≡ ok tokens
      → env.verify now token ≡ ok payload
      → IsDead token clock' new_id' (apply_all env ops (refresh_token env clock new_id token s).0)
        × IsDead token clock' new_id' (apply_all env ops (logout env now token s))
  unfolding refresh_token logout
  refresh_token_once id token new_id new_id' clock clock' now payload tokens ops s off same ne spare
        e verified =
      (
        IsGone-IsDead id token clock' new_id' _ same (
            apply_all-IsGone env id ops _ spare
              (refresh_revokes id token new_id clock tokens s off same ne e)),
        IsGone-IsDead id token clock' new_id' _ same (
            apply_all-IsGone env id ops _ spare
              (logout_revokes id token now payload s off (same now payload verified) verified)),
      )
