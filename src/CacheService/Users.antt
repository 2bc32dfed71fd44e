-- ===== src/CacheService/Users.antt =====
-- Code: src/cache/cache.service.ts. The cache of users, by id and by e-mail address.
use talksy.Common.{
  ℕ, ◌+◌, ◌≡◌, ◌≢◌, refl, ◌∙◌, true, if◌then◌else◌, Option, none, some, arith, String, str_dec,
  if_pos, ltb, ◌&&◌,
}
use talksy.Common.Map
use talksy.LruCache
use talksy.LruCache.{LruCache}
use talksy.LruCache.Reads.{peek-get, peek-set_self}
use talksy.CacheService.{
  User, CacheService, get_user, get_user_id_by_email, set_user, invalidate_user,
}
use talksy.CacheService.Coherent.{IsCoherent}

-- What a read at `t` returns of a value stored with this time to live at `now`.
abbrev pub until : {T : Type 0} → ℕ → ℕ → ℕ → T → Option T
until ttl now t value = if ltb 0 ttl && ltb (now + ttl) t then none else some value

get-deleted :
    {T : Type 0} (t t' : ℕ) (key : String) (c : LruCache T)
    → (LruCache.get t t' key (LruCache.delete key c).0).1 ≡ none
unfolding LruCache.get LruCache.delete
get-deleted t t' key c =
    rw (Map.get-delete key key c.cache ∙ if_pos (str_dec key key) refl _ _, LruCache.get)

get-set :
    {T : Type 0} {n : ℕ} (now t t' : ℕ) (key : String) (value : T) (c : LruCache T)
    → LruCache.Valid.IsValid n c
    → (LruCache.get t t' key (LruCache.set now key value none c)).1
      ≡ until c.default_ttl_ms now t value
get-set now t t' key value c v =
    (peek-get t t' t key key (LruCache.set now key value none c) (omega arith)).0
    ∙ peek-set_self now t key value none c v

module _ (lower : String → String) where
  -- In caches that are enabled, a user that has been stored is found by its id, and its id by its
  -- e-mail address in any case, until the time to live is over, and from then on neither is; a time to
  -- live of zero is never over. After `invalidate_user` with an address that is not empty neither is found.
  pub reads-set_user :
      (now now' t t' : ℕ) (user : User) (email : String) (s : CacheService)
      → IsCoherent s
      → s.config.enabled ≡ true
      → lower email ≡ lower user.email
      → user.email ≢ ""
      → let stored = set_user lower now now' user s in
        let gone = invalidate_user lower user.id (some user.email) stored in
        ((get_user t t' user.id stored).1 ≡ until s.user_cache.default_ttl_ms now t user)
        × ((get_user_id_by_email lower t t' email stored).1
            ≡ until s.email_to_id_cache.default_ttl_ms now' t user.id)
        × ((get_user t t' user.id gone).1 ≡ none)
        × ((get_user_id_by_email lower t t' email gone).1 ≡ none)
  unfolding set_user get_user get_user_id_by_email invalidate_user
  reads-set_user now now' t t' user email s v on same written =
      let emails = LruCache.set now' (lower user.email) user.id none s.email_to_id_cache in
      (
        ground (arith, get-set now t t' user.id user s.user_cache v.users),
        ground (arith, get-set now' t t' (lower user.email) user.id s.email_to_id_cache v.emails),
        ground (arith, get-deleted t t' user.id (LruCache.set now user.id user none s.user_cache)),
        ground (arith, get-deleted t t' (lower user.email) emails),
      )
