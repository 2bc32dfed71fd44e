-- ===== src/CacheService/Tokens.antt =====
-- Code: src/cache/cache.service.ts. What becomes of cached tokens.
use talksy.Common.{
  ℕ, ◌≤◌, ◌≡◌, ◌≢◌, sym, ◌∙◌, ap, subst, true, List, [], ◌∷◌, Option, some, arith, String, ok,
  Bool-cases, Option-cases, inl, inr, both, ◌==◌,
}
use talksy.Common.Map
use talksy.Common.Map.{Map}
use talksy.LruCache
use talksy.LruCache.{LruCache}
use talksy.LruCache.Values.{
  value_at, Within, delete-Within, get-Within, get-value, prune-Within, set-value_at,
}
use talksy.CacheService.{
  User, AuthUser, CachedTokenValidation, CacheConfig, Hashes, CacheService, create, get_user,
  delete_hashes, invalidate_all_tokens_for_user, prune_reverse_index, prune, clear_all,
  reset_metrics, get_user_id_by_email, set_user, invalidate_user, get_token_validation,
  set_token_validation, invalidate_token,
}
use talksy.CacheService.Index.{
  IsIndexed, empty, hashes_of, delete_hashes-Within, delete_hashes-IsIndexed,
  prune_reverse_index-Within,
}
use talksy.CacheService.Coherent.{IsCoherent, invalidate_all_tokens_for_user-IsCoherent}
use talksy.CacheService.Calls.{
  Op, get_user_op, get_user_id_by_email_op, set_user_op, invalidate_user_op,
  get_token_validation_op, set_token_validation_op, invalidate_token_op,
  invalidate_all_tokens_for_user_op, prune_op, clear_all_op, reset_metrics_op, apply, apply_all,
  apply-IsCoherent, apply_all-IsCoherent, create-ok-IsCoherent,
}

-- Calls that bring in no token of the user.
abbrev pub Spares : String → Op → Type 0
Spares u (set_token_validation_op now now' token user ttl_ms) = user.user_id ≢ u
Spares u op = Unit {0}

abbrev pub Spare : String → List Op → Type 0
Spare u [] = Unit {0}
Spare u (op ∷ ops) = Spares u op × Spare u ops

abbrev NoTokens : String → LruCache CachedTokenValidation → Type 0
NoTokens u c = (h : String) (t : CachedTokenValidation) → value_at h c ≡ some t → t.user_id ≢ u

Within-NoTokens :
    (u : String) (c d : LruCache CachedTokenValidation) → Within c d → NoTokens u d → NoTokens u c
Within-NoTokens u c d w n h t e = n h t (w h t e)

set-NoTokens :
    (u : String) (now : ℕ) (hash : String) (cached : CachedTokenValidation) (ttl_ms : Option ℕ)
    (c : LruCache CachedTokenValidation)
    → cached.user_id ≢ u
    → NoTokens u c
    → NoTokens u (LruCache.set now hash cached ttl_ms c)
set-NoTokens u now hash cached ttl_ms c ne n h t e =
    elim (set-value_at now hash h cached t ttl_ms c e) [
      | inl (same, new) ↦ λ p. ne (sym (ap (λ (x : CachedTokenValidation). x.user_id) new) ∙ p)
      | inr (other, old) ↦ n h t old
    ]

-- The user's tokens stand in the index, so that all of them are deleted.
delete_hashes-NoTokens :
    (u : String) (c : LruCache CachedTokenValidation) (index : Map Hashes)
    → IsIndexed c index
    → NoTokens u (delete_hashes (hashes_of u index) c)
unfolding Map.get
delete_hashes-NoTokens u c index i h t e = λ p.
    (let left = delete_hashes-IsIndexed u c index i h t e in
      ground (arith, Map.get-delete u u index))

invalidate_all_tokens_for_user-NoTokens :
    (u : String) (s : CacheService)
    → IsCoherent s
    → s.config.enabled ≡ true
    → NoTokens u (invalidate_all_tokens_for_user u s).token_cache
unfolding invalidate_all_tokens_for_user Map.get
invalidate_all_tokens_for_user-NoTokens u s v on h t e =
    elim (Bool-cases (Map.size (hashes_of u s.user_to_token_hashes) == 0)) [
      | inl none_left ↦ λ p.
          (let stored : value_at h s.token_cache ≡ some t = ground arith in
            let found =
              subst (λ x. Map.has h (hashes_of x s.user_to_token_hashes) ≡ true) p
                (v.indexed h t stored) in
            ground (arith, empty (hashes_of u s.user_to_token_hashes)))
      | inr some_left ↦
          delete_hashes-NoTokens u s.token_cache s.user_to_token_hashes v.indexed h t (ground arith)
    ]

module _ (lower : String → String) (hash_token : String → String) where
  apply-NoTokens :
      (op : Op) (u : String) (s : CacheService)
      → IsCoherent s
      → Spares u op
      → NoTokens u s.token_cache
      → NoTokens u (apply lower hash_token op s).token_cache
  unfolding apply get_user get_user_id_by_email set_user invalidate_user get_token_validation
      set_token_validation invalidate_token invalidate_all_tokens_for_user prune clear_all
      reset_metrics LruCache.delete LruCache.clear LruCache.reset_metrics Map.get
  apply-NoTokens (get_user_op now now' user_id) u s v spare n =
      both (λ (x : CacheService × Option User). NoTokens u x.0.token_cache) s.config.enabled n n
  apply-NoTokens (get_user_id_by_email_op now now' email) u s v spare n =
      both (λ (x : CacheService × Option String). NoTokens u x.0.token_cache) s.config.enabled n n
  apply-NoTokens (set_user_op now now' user) u s v spare n =
      both (λ (x : CacheService). NoTokens u x.token_cache) s.config.enabled n n
  apply-NoTokens (invalidate_user_op user_id email) u s v spare n =
      both (λ (x : CacheService). NoTokens u x.token_cache) s.config.enabled n n
  apply-NoTokens (get_token_validation_op now now' token) u s v spare n =
      both (λ (x : CacheService × Option AuthUser). NoTokens u x.0.token_cache) s.config.enabled
        (Within-NoTokens u (LruCache.get now now' (hash_token token) s.token_cache).0 s.token_cache
          (get-Within now now' (hash_token token) s.token_cache) n)
        n
  apply-NoTokens (set_token_validation_op now now' token user ttl_ms) u s v spare n =
      both (λ (x : CacheService). NoTokens u x.token_cache) s.config.enabled
        (set-NoTokens u now' (hash_token token)
          (record { user_id = user.user_id; email = user.email; cached_at = now }) ttl_ms
          s.token_cache spare n)
        n
  apply-NoTokens (invalidate_token_op now now' token) u s v spare n =
      both (λ (x : CacheService). NoTokens u x.token_cache) s.config.enabled
        (let c = (LruCache.get now now' (hash_token token) s.token_cache).0 in
          Within-NoTokens u (record c { cache = Map.delete (hash_token token) c.cache }) c
            (delete-Within (hash_token token) c)
            (Within-NoTokens u c s.token_cache
              (get-Within now now' (hash_token token) s.token_cache) n))
        n
  apply-NoTokens (invalidate_all_tokens_for_user_op user_id) u s v spare n =
      both (λ (x : CacheService). NoTokens u x.token_cache) s.config.enabled
        (both (λ (x : CacheService). NoTokens u x.token_cache)
          (Map.size (hashes_of user_id s.user_to_token_hashes) == 0) n
          (Within-NoTokens u
            (delete_hashes (hashes_of user_id s.user_to_token_hashes) s.token_cache) s.token_cache
            (delete_hashes-Within (hashes_of user_id s.user_to_token_hashes) s.token_cache) n))
        n
  apply-NoTokens (prune_op now now' now'' clock) u s v spare n =
      let c = (LruCache.prune now' s.token_cache).0 in
      Within-NoTokens u (prune_reverse_index clock s.user_to_token_hashes c).0 c
        (prune_reverse_index-Within clock s.user_to_token_hashes c)
        (Within-NoTokens u c s.token_cache (prune-Within now' s.token_cache v.tokens.distinct) n)
  apply-NoTokens clear_all_op u s v spare n = λ h t e. absurd (ground arith)
  apply-NoTokens reset_metrics_op u s v spare n = n

  Spare-NoTokens :
      (ops : List Op) (u : String) (s : CacheService)
      → IsCoherent s
      → Spare u ops
      → NoTokens u s.token_cache
      → NoTokens u (apply_all lower hash_token ops s).token_cache
  unfolding apply_all
  Spare-NoTokens [] u s v spare n = n
  Spare-NoTokens (op ∷ ops) u s v spare n =
      Spare-NoTokens ops u (apply lower hash_token op s) (apply-IsCoherent lower hash_token op s v)
        spare.1 (apply-NoTokens op u s v spare.0 n)

  NoTokens-get :
      (u token email : String) (now now' : ℕ) (s : CacheService)
      → NoTokens u s.token_cache
      → (get_token_validation hash_token now now' token s).1
        ≢ some (record { user_id = u; email = email })
  unfolding get_token_validation
  NoTokens-get u token email now now' s n = λ p.
      elim (Option-cases (LruCache.get now now' (hash_token token) s.token_cache).1) [
        | inl gone ↦ ground arith
        | inr (t, found) ↦
            n (hash_token token) t (get-value now now' (hash_token token) s.token_cache t found)
              (ground arith)
      ]

  -- When all tokens of a user have been invalidated, whatever calls the caches got before, no token is
  -- found to be one of the user's, whatever calls they get after, until a token of the user is
  -- stored again. The caches are enabled and have room.
  pub get_token_validation_revoked :
      (config : CacheConfig) (s : CacheService) (before after : List Op) (u token email : String)
      (now now' : ℕ)
      → config.enabled ≡ true
      → 1 ≤ config.user_max_size
      → 1 ≤ config.token_max_size
      → create config ≡ ok s
      → Spare u after
      → (get_token_validation hash_token now now' token (
          apply_all lower hash_token after
            (invalidate_all_tokens_for_user u (apply_all lower hash_token before s)))).1
        ≢ some (record { user_id = u; email = email })
  get_token_validation_revoked config s before after u token email now now' on users tokens made
        spare =
      let (v, same) = create-ok-IsCoherent config s (rw on users) (rw on tokens) made in
      let (v', kept) = apply_all-IsCoherent lower hash_token before s v in
      let s' = apply_all lower hash_token before s in
      NoTokens-get u token email now now' _ (
        Spare-NoTokens after u (invalidate_all_tokens_for_user u s')
          (invalidate_all_tokens_for_user-IsCoherent u s' v') spare
          (invalidate_all_tokens_for_user-NoTokens u s' v' (ground arith)))
