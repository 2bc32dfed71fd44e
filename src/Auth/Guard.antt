-- ===== src/Auth/Guard.antt =====
-- src/auth/auth.guard.ts: the class `JwtAuthGuard` over `validateAccessToken`. What it reads of the request or of
-- the handshake is an argument; a header, a parameter or a token that is missing or no text is none.
pub mod Tokens
pub mod Admitted
use talksy.Common.{
  ℕ, ◌≡◌, ◌↔◌, refl, ◌∙◌, ap, Bool, true, false, not, ◌&&◌, if◌then◌else◌, List, ◌∷◌, Option, none,
  some, String, str_dec, ite, arith, Option-cases, inl, inr,
}
use talksy.Common.Split.{split}
use talksy.CacheService.{AuthUser}
use talksy.Auth.{AuthEnv, AuthService, validate_access_token}

pub record JwtAuthGuard : Type 0 where
  pub auth_enabled : Bool
  pub bypass_in_dev : Bool
  pub is_dev : Bool

-- Where the guard is asked: a request has its header, a socket its handshake.
pub data Context : Type 0 where
  http : (authorization : Option String) → Context
  ws : (auth_token authorization query_token : Option String) → Context
  other : Context

-- Let in, with the user that is attached to the request or the socket; not let in; or an exception.
pub data Verdict : Type 0 where
  let_in : Option AuthUser → Verdict
  kept_out missing_token invalid_token : Verdict

-- A text that is there and not empty.
abbrev pub given : Option String → Option String
given none = none
given (some text) = ite (str_dec text "") none (some text)

-- `const [type, token] = header.split(' ')`
abbrev pub bearer_of : List String → Option String
bearer_of (type ∷ token ∷ rest) = ite (str_dec type "Bearer") (given (some token)) none
bearer_of pieces = none

unfoldable pub bearer_token : Option String → Option String
bearer_token header = elim (given header) [ none ↦ none | some text ↦ bearer_of (split b' ' text) ]

abbrev pub first_of : Option String → Option String → Option String
first_of none next = next
first_of (some token) next = some token

-- `extractTokenFromHeader` and `extractTokenFromSocket`
unfoldable pub token_of : Context → Option String
token_of (http authorization) = bearer_token authorization
token_of (ws auth_token authorization query_token) =
    first_of (given auth_token) (first_of (bearer_token authorization) (given query_token))
token_of other = none

module _ {R : Type 0} (env : AuthEnv R) where
  -- `validateHttpRequest` and `validateWsConnection`, on the token.
  unfoldable pub validate : (ℕ → ℕ) → Option String → AuthService R → AuthService R × Verdict
  validate clock none s = (s, missing_token)
  validate clock (some token) s =
      let (s', found) = validate_access_token env clock token s in
      (s', elim found [ none ↦ invalid_token | some user ↦ let_in (some user) ])

  -- With a bypass: a token that is sent is looked at, and everybody let in.
  unfoldable pub bypass : (ℕ → ℕ) → Option String → AuthService R → AuthService R × Verdict
  bypass clock none s = (s, let_in none)
  bypass clock (some token) s =
      let (s', found) = validate_access_token env clock token s in (s', let_in found)

  abbrev pub is_other : Context → Bool
  is_other (http authorization) = false
  is_other (ws auth_token authorization query_token) = false
  is_other other = true

  unfoldable pub can_activate :
      (ℕ → ℕ) → Context → JwtAuthGuard → AuthService R → AuthService R × Verdict
  can_activate clock context g s =
      if not g.auth_enabled
      then (s, let_in none)
      else if g.is_dev && g.bypass_in_dev
      then bypass clock (token_of context) s
      else if is_other context
      then (s, kept_out)
      else validate clock (token_of context) s
