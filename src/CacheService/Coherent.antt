-- ===== src/CacheService/Coherent.antt =====
-- Code: src/cache/cache.service.ts. The invariant of the caches and the index, and what each method keeps of it.
use talksy.Common.{
  ℕ, if◌then◌else◌, [], ◌∷◌, Option, none, some, arith, String, str_dec, ite, both, both_ite, ◌==◌,
}
use talksy.Common.Map
use talksy.Common.Map.{Map}
use talksy.LruCache
use talksy.LruCache.{LruCache}
use talksy.LruCache.Valid.{
  IsValid, get-IsValid, set-IsValid, has-IsValid, delete-IsValid, prune-IsValid, clear-IsValid,
}
use talksy.LruCache.Values.{get-Within, prune-Within}
use talksy.CacheService.{
  User, AuthUser, CachedTokenValidation, CacheConfig, Hashes, CacheService, get_user, delete_hashes,
  invalidate_all_tokens_for_user, prune_hashes, prune_reverse_index, prune, clear_all,
  reset_metrics, get_user_id_by_email, set_user, invalidate_user, get_token_validation,
  set_token_validation, invalidate_token,
}
use talksy.CacheService.Index.{
  IsIndexed, hashes_of, Within-IsIndexed, set-IsIndexed, invalidate-IsIndexed,
  delete_hashes-IsIndexed, prune_reverse_index-IsIndexed,
}

-- How many entries a cache has room for.
abbrev pub room : CacheConfig → ℕ → ℕ
room config max_size = if config.enabled then max_size else 1

pub record IsCoherent (s : CacheService) : Type 0 where
  pub users : IsValid (room s.config s.config.user_max_size) s.user_cache
  pub tokens : IsValid (room s.config s.config.token_max_size) s.token_cache
  pub emails : IsValid (room s.config s.config.user_max_size) s.email_to_id_cache
  pub indexed : IsIndexed s.token_cache s.user_to_token_hashes

delete_hashes-IsValid :
    {n : ℕ} (hashes : Hashes) (c : LruCache CachedTokenValidation)
    → IsValid n c
    → IsValid n (delete_hashes hashes c)
unfolding delete_hashes LruCache.delete
delete_hashes-IsValid [] c v = v
delete_hashes-IsValid ((hash, u) ∷ hashes) c v =
    delete_hashes-IsValid hashes (LruCache.delete hash c).0 (delete-IsValid hash c v)

prune_hashes-IsValid :
    {n : ℕ} (clock : String → ℕ) (hashes : Hashes) (c : LruCache CachedTokenValidation)
    → IsValid n c
    → IsValid n (prune_hashes clock hashes c).0
unfolding prune_hashes
prune_hashes-IsValid clock [] c v = v
prune_hashes-IsValid {n} clock ((hash, u) ∷ hashes) c v =
    let c' = (LruCache.has (clock hash) hash c).0 in
    both (λ (r : LruCache CachedTokenValidation × Hashes × ℕ). IsValid n r.0)
      (LruCache.has (clock hash) hash c).1
      (prune_hashes-IsValid clock hashes c' (has-IsValid (clock hash) hash c v))
      (prune_hashes-IsValid clock hashes c' (has-IsValid (clock hash) hash c v))

prune_reverse_index-IsValid :
    {n : ℕ} (clock : String → String → ℕ) (index : Map Hashes) (c : LruCache CachedTokenValidation)
    → IsValid n c
    → IsValid n (prune_reverse_index clock index c).0
unfolding prune_reverse_index
prune_reverse_index-IsValid clock [] c v = v
prune_reverse_index-IsValid clock ((user_id, hashes) ∷ index) c v =
    prune_reverse_index-IsValid clock index (prune_hashes (clock user_id) hashes c).0
      (prune_hashes-IsValid (clock user_id) hashes c v)

pub invalidate_all_tokens_for_user-IsCoherent :
    (user_id : String) (s : CacheService)
    → IsCoherent s
    → IsCoherent (invalidate_all_tokens_for_user user_id s)
unfolding invalidate_all_tokens_for_user
invalidate_all_tokens_for_user-IsCoherent user_id s v =
    let hashes = hashes_of user_id s.user_to_token_hashes in
    both IsCoherent s.config.enabled
      (both IsCoherent (Map.size hashes == 0) v (record {
        users = v.users;
        tokens = delete_hashes-IsValid hashes s.token_cache v.tokens;
        emails = v.emails;
        indexed = delete_hashes-IsIndexed user_id s.token_cache s.user_to_token_hashes v.indexed;
      }))
      v

pub get_user-IsCoherent :
    (now now' : ℕ) (user_id : String) (s : CacheService)
    → IsCoherent s
    → IsCoherent (get_user now now' user_id s).0
unfolding get_user
get_user-IsCoherent now now' user_id s v =
    both (λ (x : CacheService × Option User). IsCoherent x.0) s.config.enabled
      (record {
        users = get-IsValid now now' user_id s.user_cache v.users;
        tokens = v.tokens;
        emails = v.emails;
        indexed = v.indexed;
      })
      v

pub prune-IsCoherent :
    (now now' now'' : ℕ) (clock : String → String → ℕ) (s : CacheService)
    → IsCoherent s
    → IsCoherent (prune now now' now'' clock s).0
unfolding prune
prune-IsCoherent now now' now'' clock s v =
    let tokens = prune-IsValid now' s.token_cache v.tokens in
    let pruned = (LruCache.prune now' s.token_cache).0 in
    record {
      users = prune-IsValid now s.user_cache v.users;
      tokens = prune_reverse_index-IsValid clock s.user_to_token_hashes pruned tokens;
      emails = prune-IsValid now'' s.email_to_id_cache v.emails;
      indexed = prune_reverse_index-IsIndexed clock s.user_to_token_hashes pruned (
          Within-IsIndexed pruned s.token_cache s.user_to_token_hashes
            (prune-Within now' s.token_cache v.tokens.distinct) v.indexed);
    }

pub clear_all-IsCoherent : (s : CacheService) → IsCoherent s → IsCoherent (clear_all s)
unfolding clear_all LruCache.clear Map.get
clear_all-IsCoherent s v = record {
  users = clear-IsValid s.user_cache v.users;
  tokens = clear-IsValid s.token_cache v.tokens;
  emails = clear-IsValid s.email_to_id_cache v.emails;
  indexed = λ h t e. absurd (ground arith);
}

pub reset_metrics-IsCoherent : (s : CacheService) → IsCoherent s → IsCoherent (reset_metrics s)
unfolding reset_metrics LruCache.reset_metrics
reset_metrics-IsCoherent s v = record {
  users = (record {
    limit = v.users.limit;
    positive = v.users.positive;
    distinct = v.users.distinct;
    bounded = v.users.bounded;
  });
  tokens = (record {
    limit = v.tokens.limit;
    positive = v.tokens.positive;
    distinct = v.tokens.distinct;
    bounded = v.tokens.bounded;
  });
  emails = (record {
    limit = v.emails.limit;
    positive = v.emails.positive;
    distinct = v.emails.distinct;
    bounded = v.emails.bounded;
  });
  indexed = v.indexed;
}

module _ (lower : String → String) where
  emails-IsValid :
      {n : ℕ} (email : Option String) (c : LruCache String)
      → IsValid n c
      → IsValid n
          (elim email [ none ↦ c | some e ↦ ite (str_dec e "") c (LruCache.delete (lower e) c).0 ])
  unfolding LruCache.delete
  emails-IsValid none c v = v
  emails-IsValid {n} (some e) c v =
      both_ite (IsValid n) (str_dec e "") v (delete-IsValid (lower e) c v)

  pub get_user_id_by_email-IsCoherent :
      (now now' : ℕ) (email : String) (s : CacheService)
      → IsCoherent s
      → IsCoherent (get_user_id_by_email lower now now' email s).0
  unfolding get_user_id_by_email
  get_user_id_by_email-IsCoherent now now' email s v =
      both (λ (x : CacheService × Option String). IsCoherent x.0) s.config.enabled
        (record {
          users = v.users;
          tokens = v.tokens;
          emails = get-IsValid now now' (lower email) s.email_to_id_cache v.emails;
          indexed = v.indexed;
        })
        v

  pub set_user-IsCoherent :
      (now now' : ℕ) (user : User) (s : CacheService)
      → IsCoherent s
      → IsCoherent (set_user lower now now' user s)
  unfolding set_user
  set_user-IsCoherent now now' user s v =
      both IsCoherent s.config.enabled
        (record {
          users = set-IsValid now user.id user none s.user_cache v.users;
          tokens = v.tokens;
          emails = set-IsValid now' (lower user.email) user.id none s.email_to_id_cache v.emails;
          indexed = v.indexed;
        })
        v

  pub invalidate_user-IsCoherent :
      (user_id : String) (email : Option String) (s : CacheService)
      → IsCoherent s
      → IsCoherent (invalidate_user lower user_id email s)
  unfolding invalidate_user LruCache.delete
  invalidate_user-IsCoherent user_id email s v =
      both IsCoherent s.config.enabled
        (record {
          users = delete-IsValid user_id s.user_cache v.users;
          tokens = v.tokens;
          emails = emails-IsValid email s.email_to_id_cache v.emails;
          indexed = v.indexed;
        })
        v

module _ (hash_token : String → String) where
  pub get_token_validation-IsCoherent :
      (now now' : ℕ) (token : String) (s : CacheService)
      → IsCoherent s
      → IsCoherent (get_token_validation hash_token now now' token s).0
  unfolding get_token_validation
  get_token_validation-IsCoherent now now' token s v =
      both (λ (x : CacheService × Option AuthUser). IsCoherent x.0) s.config.enabled
        (record {
          users = v.users;
          tokens = get-IsValid now now' (hash_token token) s.token_cache v.tokens;
          emails = v.emails;
          indexed =
              Within-IsIndexed (LruCache.get now now' (hash_token token) s.token_cache).0
                s.token_cache s.user_to_token_hashes
                (get-Within now now' (hash_token token) s.token_cache) v.indexed;
        })
        v

  pub set_token_validation-IsCoherent :
      (now now' : ℕ) (token : String) (user : AuthUser) (ttl_ms : Option ℕ) (s : CacheService)
      → IsCoherent s
      → IsCoherent (set_token_validation hash_token now now' token user ttl_ms s)
  unfolding set_token_validation
  set_token_validation-IsCoherent now now' token user ttl_ms s v =
      let cached : CachedTokenValidation = record {
        user_id = user.user_id;
        email = user.email;
        cached_at = now;
      } in
      both IsCoherent s.config.enabled
        (record {
          users = v.users;
          tokens = set-IsValid now' (hash_token token) cached ttl_ms s.token_cache v.tokens;
          emails = v.emails;
          indexed =
              set-IsIndexed now' (hash_token token) cached ttl_ms s.token_cache
                s.user_to_token_hashes v.indexed;
        })
        v

  pub invalidate_token-IsCoherent :
      (now now' : ℕ) (token : String) (s : CacheService)
      → IsCoherent s
      → IsCoherent (invalidate_token hash_token now now' token s)
  unfolding invalidate_token LruCache.delete
  invalidate_token-IsCoherent now now' token s v =
      let hash = hash_token token in
      let c = (LruCache.get now now' hash s.token_cache).0 in
      let tokens = get-IsValid now now' hash s.token_cache v.tokens in
      both IsCoherent s.config.enabled
        (record {
          users = v.users;
          tokens = delete-IsValid hash c tokens;
          emails = v.emails;
          indexed =
              invalidate-IsIndexed (LruCache.get now now' hash s.token_cache).1 hash c
                s.user_to_token_hashes
                (Within-IsIndexed c s.token_cache s.user_to_token_hashes
                  (get-Within now now' hash s.token_cache) v.indexed);
        })
        v
