-- ===== src/Users/Accounts.antt =====
-- What the service of users promises: one map from ids to accounts, without indexes, caches or Redis, in
-- which an address is searched for.
use talksy.Common.{◌≡◌, ◌≢◌, Option, none, some, arith, [], ◌∷◌, String, str_dec, ite}
use talksy.Common.Map
use talksy.Common.Map.{Map, Distinct}
use talksy.CacheService.{User}

unfoldable pub by_email : String → Map User → Option User
by_email email [] = none
by_email email ((id, user) ∷ accounts) =
    ite (str_dec user.email email) (some user) (by_email email accounts)

pub by_email_absent :
    (email id : String) (user : User) (accounts : Map User)
    → by_email email accounts ≡ none
    → Map.get id accounts ≡ some user
    → user.email ≢ email
unfolding by_email Map.get
by_email_absent email id user [] h g = absurd (ground arith)
by_email_absent email id user ((j, v) ∷ accounts) h g =
    λ p. ground (arith, by_email_absent email id user accounts)

pub by_email_present :
    (email : String) (user : User) (accounts : Map User)
    → Distinct accounts
    → by_email email accounts ≡ some user
    → (id : String) × (Map.get id accounts ≡ some user) × (user.email ≡ email)
unfolding by_email Map.get
by_email_present email user [] d h = absurd (ground arith)
by_email_present email user ((j, v) ∷ accounts) d h = elim (str_dec v.email email) [
  | yes p ↦ (j, ground arith, ground arith)
  | no p ↦
      let (id, found, same) = by_email_present email user accounts d.1 (ground arith) in
      (id, ground arith, same)
]
