-- ===== src/CacheService.antt =====
-- src/cache/cache.service.ts and src/cache/interfaces/cache.interface.ts: the class `CacheService` of the
-- users and tokens that have been validated. The hash of a token and the lower-case form of an e-mail
-- address are functions that it is given; `getStats` reads the metrics of the caches and is left out.
pub mod Index
pub mod Coherent
pub mod Calls
pub mod Tokens
pub mod Users
mod Tests
use talksy.Common.{
  ℕ, ◌+◌, ◌==◌, Bool, true, false, if◌then◌else◌, List, [], ◌∷◌, Option, none, some, String,
  str_dec, ite, Result, ok, throw, ◌>>=◌,
}
use talksy.Common.Map
use talksy.Common.Map.{Map}
use talksy.LruCache
use talksy.LruCache.{LruCache}

-- `IUser`, which `CachedUser` is too.
pub record User : Type 0 where
  pub id : String
  pub email : String
  pub password_hash : String
  pub created_at : ℕ
  pub updated_at : ℕ

pub record AuthUser : Type 0 where
  pub user_id : String
  pub email : String

pub record CachedTokenValidation : Type 0 where
  pub user_id : String
  pub email : String
  pub cached_at : ℕ

pub record CacheConfig : Type 0 where
  pub enabled : Bool
  pub user_ttl_ms : ℕ
  pub user_max_size : ℕ
  pub token_ttl_ms : ℕ
  pub token_max_size : ℕ

-- A `Set` of hashes.
abbrev pub Hashes : Type 0
Hashes = Map (Unit {0})

pub record CacheService : Type 0 where
  pub user_cache : LruCache User
  pub token_cache : LruCache CachedTokenValidation
  pub email_to_id_cache : LruCache String
  pub user_to_token_hashes : Map Hashes
  pub config : CacheConfig

abbrev pub hashes_or : Option Hashes → Hashes
hashes_or none = []
hashes_or (some hashes) = hashes

-- The constructor and `initializeCaches`; a cache with no room throws.
unfoldable pub create : CacheConfig → Result CacheService
create config = do
  users ←
      LruCache.create {T = User} (if config.enabled then config.user_max_size else 1)
        (if config.enabled then config.user_ttl_ms else 0)
  tokens ←
      LruCache.create {T = CachedTokenValidation}
        (if config.enabled then config.token_max_size else 1)
        (if config.enabled then config.token_ttl_ms else 0)
  emails ←
      LruCache.create {T = String} (if config.enabled then config.user_max_size else 1)
        (if config.enabled then config.user_ttl_ms else 0)
  ok (record {
    user_cache = users;
    token_cache = tokens;
    email_to_id_cache = emails;
    user_to_token_hashes = [];
    config = config;
  })

unfoldable pub get_user : ℕ → ℕ → String → CacheService → CacheService × Option User
get_user now now' user_id s =
    let (c, user) = LruCache.get now now' user_id s.user_cache in
    if s.config.enabled then (record s { user_cache = c }, user) else (s, none)

-- `tokenCache.delete` for each hash of the set.
unfoldable pub delete_hashes :
    Hashes → LruCache CachedTokenValidation → LruCache CachedTokenValidation
delete_hashes [] c = c
delete_hashes ((hash, u) ∷ hashes) c = delete_hashes hashes (LruCache.delete hash c).0

unfoldable pub invalidate_all_tokens_for_user : String → CacheService → CacheService
unfolding delete_hashes
invalidate_all_tokens_for_user user_id s =
    let hashes = hashes_or (Map.get user_id s.user_to_token_hashes) in
    if s.config.enabled
    then (if Map.size hashes == 0 then s else record s {
      token_cache = delete_hashes hashes s.token_cache;
      user_to_token_hashes = Map.delete user_id s.user_to_token_hashes;
    })
    else s

-- The reverse index with a hash added, and with one taken away.
abbrev pub add_hash : String → String → Map Hashes → Map Hashes
add_hash user_id hash index =
    Map.set user_id (Map.set hash tt (hashes_or (Map.get user_id index))) index

abbrev pub store_left : String → Hashes → Map Hashes → Map Hashes
store_left user_id left index =
    if Map.size left == 0 then Map.delete user_id index else Map.set user_id left index

abbrev pub remove_hash : String → String → Map Hashes → Map Hashes
remove_hash user_id hash index = elim (Map.get user_id index) [
  | none ↦ index
  | some hashes ↦ store_left user_id (Map.delete hash hashes) index
]

-- The inner loop of `pruneReverseIndex`. Each `has` reads the clock; `clock` gives what it reads for
-- a hash.
unfoldable pub prune_hashes :
    (String → ℕ)
    → Hashes
    → LruCache CachedTokenValidation
    → LruCache CachedTokenValidation × Hashes × ℕ
prune_hashes clock [] c = (c, [], 0)
prune_hashes clock ((hash, u) ∷ hashes) c =
    let (c', kept) = LruCache.has (clock hash) hash c in
    let (c'', left, pruned) = prune_hashes clock hashes c' in
    if kept then (c'', (hash, u) ∷ left, pruned) else (c'', left, pruned + 1)

unfoldable pub prune_reverse_index :
    (String → String → ℕ)
    → Map Hashes
    → LruCache CachedTokenValidation
    → LruCache CachedTokenValidation × Map Hashes × ℕ
unfolding prune_hashes
prune_reverse_index clock [] c = (c, [], 0)
prune_reverse_index clock ((user_id, hashes) ∷ index) c =
    let (c', left, pruned) = prune_hashes (clock user_id) hashes c in
    let (c'', rest, others) = prune_reverse_index clock index c' in
    (c'', (if Map.size left == 0 then rest else (user_id, left) ∷ rest), pruned + others)

unfoldable pub prune : ℕ → ℕ → ℕ → (String → String → ℕ) → CacheService → CacheService × ℕ
unfolding prune_reverse_index
prune now now' now'' clock s =
    let (users, user_pruned) = LruCache.prune now s.user_cache in
    let (tokens, token_pruned) = LruCache.prune now' s.token_cache in
    let (emails, email_pruned) = LruCache.prune now'' s.email_to_id_cache in
    let (tokens', index, orphans) = prune_reverse_index clock s.user_to_token_hashes tokens in
    (
      record s {
        user_cache = users;
        token_cache = tokens';
        email_to_id_cache = emails;
        user_to_token_hashes = index;
      },
      user_pruned + token_pruned + email_pruned,
    )

-- `clearAll` does not ask whether the cache is enabled.
unfoldable pub clear_all : CacheService → CacheService
clear_all s = record s {
  user_cache = LruCache.clear s.user_cache;
  token_cache = LruCache.clear s.token_cache;
  email_to_id_cache = LruCache.clear s.email_to_id_cache;
  user_to_token_hashes = [];
}

unfoldable pub reset_metrics : CacheService → CacheService
reset_metrics s = record s {
  user_cache = LruCache.reset_metrics s.user_cache;
  token_cache = LruCache.reset_metrics s.token_cache;
  email_to_id_cache = LruCache.reset_metrics s.email_to_id_cache;
}

-- `toLowerCase`
module _ (lower : String → String) where
  unfoldable pub get_user_id_by_email : ℕ → ℕ → String → CacheService → CacheService × Option String
  get_user_id_by_email now now' email s =
      let (c, user_id) = LruCache.get now now' (lower email) s.email_to_id_cache in
      if s.config.enabled then (record s { email_to_id_cache = c }, user_id) else (s, none)

  unfoldable pub set_user : ℕ → ℕ → User → CacheService → CacheService
  set_user now now' user s =
      if s.config.enabled
      then record s {
        user_cache = LruCache.set now user.id user none s.user_cache;
        email_to_id_cache = LruCache.set now' (lower user.email) user.id none s.email_to_id_cache;
      }
      else s

  unfoldable pub invalidate_user : String → Option String → CacheService → CacheService
  invalidate_user user_id email s =
      if s.config.enabled
      then record s {
        user_cache = (LruCache.delete user_id s.user_cache).0;
        email_to_id_cache = elim email [
          | none ↦ s.email_to_id_cache
          | some e ↦
              ite (str_dec e "") s.email_to_id_cache
                (LruCache.delete (lower e) s.email_to_id_cache).0
        ];
      }
      else s

-- The SHA-256 of a token.
module _ (hash_token : String → String) where
  unfoldable pub get_token_validation :
      ℕ → ℕ → String → CacheService → CacheService × Option AuthUser
  get_token_validation now now' token s =
      let (c, cached) = LruCache.get now now' (hash_token token) s.token_cache in
      if s.config.enabled
      then (
        record s { token_cache = c },
        elim cached [
          | none ↦ none
          | some t ↦ some (record { user_id = t.user_id; email = t.email })
        ],
      )
      else (s, none)

  -- The clock is read for `cachedAt` and by the cache.
  unfoldable pub set_token_validation :
      ℕ → ℕ → String → AuthUser → Option ℕ → CacheService → CacheService
  set_token_validation now now' token user ttl_ms s =
      let hash = hash_token token in
      let cached : CachedTokenValidation = record {
        user_id = user.user_id;
        email = user.email;
        cached_at = now;
      } in
      if s.config.enabled
      then record s {
        token_cache = LruCache.set now' hash cached ttl_ms s.token_cache;
        user_to_token_hashes = add_hash user.user_id hash s.user_to_token_hashes;
      }
      else s

  unfoldable pub invalidate_token : ℕ → ℕ → String → CacheService → CacheService
  invalidate_token now now' token s =
      let hash = hash_token token in
      let (c, cached) = LruCache.get now now' hash s.token_cache in
      if s.config.enabled
      then record s {
        token_cache = (LruCache.delete hash c).0;
        user_to_token_hashes = elim cached [
          | none ↦ s.user_to_token_hashes
          | some t ↦ remove_hash t.user_id hash s.user_to_token_hashes
        ];
      }
      else s
