-- ===== src/Auth/Guard/Admitted.antt =====
-- Code: src/auth/auth.guard.ts. Whom the guard lets in.
use talksy.Common.{
  ℕ, ◌≡◌, ◌↔◌, refl, ◌∙◌, ap, true, false, ◌&&◌, Option, none, some, String, arith, Option-cases,
  inl, inr,
}
use talksy.CacheService.{AuthUser}
use talksy.Auth.{AuthEnv, AuthService, validate_access_token}
use talksy.Auth.Guard.{
  JwtAuthGuard, Context, http, ws, other, let_in, token_of, validate, can_activate,
}
use talksy.Auth.Guard.Tokens.{Sends, token_of-Sends}

module _ {R : Type 0} (env : AuthEnv R) where
  validate-let_in :
      (clock : ℕ → ℕ) (token : Option String) (s : AuthService R) (user : Option AuthUser)
      → ((validate env clock token s).1 ≡ let_in user) ↔ (
          (t : String) × (u : AuthUser) × (token ≡ some t)
          × (user ≡ some u)
          × ((validate_access_token env clock t s).1 ≡ some u))
  unfolding validate
  validate-let_in clock none s user = (λ h. absurd (ground arith), λ h. absurd (ground arith))
  validate-let_in clock (some token) s user =
      elim (Option-cases (validate_access_token env clock token s).1) [
        | inl bad ↦ (
          λ h. absurd (ground arith),
          λ (t, u, same, e, v).
              let v' : (validate_access_token env clock token s).1 ≡ some u =
                ap (λ x. (validate_access_token env clock x s).1) (ground arith) ∙ v in
              absurd (ground arith),
        )
        | inr (u, good) ↦ (
          λ h. (token, u, refl, ground arith, good),
          λ (t, u', same, e, v).
              let v' : (validate_access_token env clock token s).1 ≡ some u' =
                ap (λ x. (validate_access_token env clock x s).1) (ground arith) ∙ v in
              ground arith,
        )
      ]

  can_activate-validate :
      (clock : ℕ → ℕ) (context : Context) (g : JwtAuthGuard) (s : AuthService R)
      (user : Option AuthUser)
      → g.auth_enabled ≡ true
      → (g.is_dev && g.bypass_in_dev) ≡ false
      → ((can_activate env clock context g s).1 ≡ let_in user)
        ↔ ((validate env clock (token_of context) s).1 ≡ let_in user)
  unfolding can_activate token_of validate
  can_activate-validate clock (http authorization) g s user on plain =
      rw (on, plain) ((λ h. h), (λ h. h))
  can_activate-validate clock (ws auth_token authorization query_token) g s user on plain =
      rw (on, plain) ((λ h. h), (λ h. h))
  can_activate-validate clock other g s user on plain =
      rw (on, plain) ((λ h. absurd (ground arith)), (λ h. absurd (ground arith)))

  -- Where authentication is enabled and not bypassed, a request or a socket is let in if and only if it
  -- sends a token that is valid, and then with the user of the token; nobody is let in without a user.
  -- The token of a request is the word after Bearer and a space in its header; that of a socket is the
  -- one of the handshake's auth, where that is missing or empty the one of such a header, and where
  -- there is none either, the one of the query.
  pub can_activate-let_in :
      (clock : ℕ → ℕ) (context : Context) (g : JwtAuthGuard) (s : AuthService R)
      (user : Option AuthUser)
      → g.auth_enabled ≡ true
      → (g.is_dev && g.bypass_in_dev) ≡ false
      → ((can_activate env clock context g s).1 ≡ let_in user) ↔ (
          (token : String) × (u : AuthUser) × Sends context token
          × (user ≡ some u)
          × ((validate_access_token env clock token s).1 ≡ some u))
  can_activate-let_in clock context g s user on plain =
      let (asked, told) = can_activate-validate clock context g s user on plain in
      let (valid, let_go) = validate-let_in clock (token_of context) s user in
      (
        λ h.
            let (t, u, e, same, v) = valid (asked h) in
            (t, u, (token_of-Sends context t).0 e, same, v),
        λ (t, u, sent, same, v). told (let_go (t, u, (token_of-Sends context t).1 sent, same, v)),
      )
