-- ===== src/CacheService/Calls.antt =====
-- Code: src/cache/cache.service.ts. Sequences of calls, and the invariant that they keep.
use talksy.Common.{
  ℕ, ◌≤◌, ◌≡◌, if◌then◌else◌, List, [], ◌∷◌, Option, arith, String, ok, refl, both, ◌∙◌, subst,
  ◌==◌,
}
use talksy.Common.Map
use talksy.Common.Map.{Map}
use talksy.LruCache.Valid.{new, create-new, new-IsValid}
use talksy.CacheService.{
  User, AuthUser, CachedTokenValidation, CacheConfig, CacheService, create, get_user,
  invalidate_all_tokens_for_user, prune, clear_all, reset_metrics, get_user_id_by_email, set_user,
  invalidate_user, get_token_validation, set_token_validation, invalidate_token,
}
use talksy.CacheService.Index.{hashes_of}
use talksy.CacheService.Coherent.{
  room, IsCoherent, invalidate_all_tokens_for_user-IsCoherent, get_user-IsCoherent,
  prune-IsCoherent, clear_all-IsCoherent, reset_metrics-IsCoherent, get_user_id_by_email-IsCoherent,
  set_user-IsCoherent, invalidate_user-IsCoherent, get_token_validation-IsCoherent,
  set_token_validation-IsCoherent, invalidate_token-IsCoherent,
}

-- The calls that change the caches, with the times that they read.
pub data Op : Type 0 where
  get_user_op : (now now' : ℕ) (user_id : String) → Op
  get_user_id_by_email_op : (now now' : ℕ) (email : String) → Op
  set_user_op : (now now' : ℕ) (user : User) → Op
  invalidate_user_op : (user_id : String) (email : Option String) → Op
  get_token_validation_op : (now now' : ℕ) (token : String) → Op
  set_token_validation_op :
      (now now' : ℕ) (token : String) (user : AuthUser) (ttl_ms : Option ℕ) → Op
  invalidate_token_op : (now now' : ℕ) (token : String) → Op
  invalidate_all_tokens_for_user_op : (user_id : String) → Op
  prune_op : (now now' now'' : ℕ) (clock : String → String → ℕ) → Op
  clear_all_op : Op
  reset_metrics_op : Op

module _ (lower : String → String) (hash_token : String → String) where
  unfoldable pub apply : Op → CacheService → CacheService
  apply (get_user_op now now' user_id) s = (get_user now now' user_id s).0
  apply (get_user_id_by_email_op now now' email) s = (get_user_id_by_email lower now now' email s).0
  apply (set_user_op now now' user) s = set_user lower now now' user s
  apply (invalidate_user_op user_id email) s = invalidate_user lower user_id email s
  apply (get_token_validation_op now now' token) s =
      (get_token_validation hash_token now now' token s).0
  apply (set_token_validation_op now now' token user ttl_ms) s =
      set_token_validation hash_token now now' token user ttl_ms s
  apply (invalidate_token_op now now' token) s = invalidate_token hash_token now now' token s
  apply (invalidate_all_tokens_for_user_op user_id) s = invalidate_all_tokens_for_user user_id s
  apply (prune_op now now' now'' clock) s = (prune now now' now'' clock s).0
  apply clear_all_op s = clear_all s
  apply reset_metrics_op s = reset_metrics s

  unfoldable pub apply_all : List Op → CacheService → CacheService
  unfolding apply
  apply_all [] s = s
  apply_all (op ∷ ops) s = apply_all ops (apply op s)

  pub apply-IsCoherent : (op : Op) (s : CacheService) → IsCoherent s → IsCoherent (apply op s)
  unfolding apply
  apply-IsCoherent (get_user_op now now' user_id) s v = get_user-IsCoherent now now' user_id s v
  apply-IsCoherent (get_user_id_by_email_op now now' email) s v =
      get_user_id_by_email-IsCoherent lower now now' email s v
  apply-IsCoherent (set_user_op now now' user) s v = set_user-IsCoherent lower now now' user s v
  apply-IsCoherent (invalidate_user_op user_id email) s v =
      invalidate_user-IsCoherent lower user_id email s v
  apply-IsCoherent (get_token_validation_op now now' token) s v =
      get_token_validation-IsCoherent hash_token now now' token s v
  apply-IsCoherent (set_token_validation_op now now' token user ttl_ms) s v =
      set_token_validation-IsCoherent hash_token now now' token user ttl_ms s v
  apply-IsCoherent (invalidate_token_op now now' token) s v =
      invalidate_token-IsCoherent hash_token now now' token s v
  apply-IsCoherent (invalidate_all_tokens_for_user_op user_id) s v =
      invalidate_all_tokens_for_user-IsCoherent user_id s v
  apply-IsCoherent (prune_op now now' now'' clock) s v = prune-IsCoherent now now' now'' clock s v
  apply-IsCoherent clear_all_op s v = clear_all-IsCoherent s v
  apply-IsCoherent reset_metrics_op s v = reset_metrics-IsCoherent s v

  config-apply : (op : Op) (s : CacheService) → (apply op s).config ≡ s.config
  unfolding apply get_user get_user_id_by_email set_user invalidate_user get_token_validation
      set_token_validation invalidate_token invalidate_all_tokens_for_user prune clear_all
      reset_metrics
  config-apply (get_user_op now now' user_id) s =
      both (λ (x : CacheService × Option User). x.0.config ≡ s.config) s.config.enabled refl refl
  config-apply (get_user_id_by_email_op now now' email) s =
      both (λ (x : CacheService × Option String). x.0.config ≡ s.config) s.config.enabled refl refl
  config-apply (set_user_op now now' user) s =
      both (λ (x : CacheService). x.config ≡ s.config) s.config.enabled refl refl
  config-apply (invalidate_user_op user_id email) s =
      both (λ (x : CacheService). x.config ≡ s.config) s.config.enabled refl refl
  config-apply (get_token_validation_op now now' token) s =
      both (λ (x : CacheService × Option AuthUser). x.0.config ≡ s.config) s.config.enabled refl
        refl
  config-apply (set_token_validation_op now now' token user ttl_ms) s =
      both (λ (x : CacheService). x.config ≡ s.config) s.config.enabled refl refl
  config-apply (invalidate_token_op now now' token) s =
      both (λ (x : CacheService). x.config ≡ s.config) s.config.enabled refl refl
  config-apply (invalidate_all_tokens_for_user_op user_id) s =
      both (λ (x : CacheService). x.config ≡ s.config) s.config.enabled
        (both (λ (x : CacheService). x.config ≡ s.config)
          (Map.size (hashes_of user_id s.user_to_token_hashes) == 0) refl refl)
        refl
  config-apply (prune_op now now' now'' clock) s = refl
  config-apply clear_all_op s = refl
  config-apply reset_metrics_op s = refl

  pub apply_all-IsCoherent :
      (ops : List Op) (s : CacheService)
      → IsCoherent s
      → IsCoherent (apply_all ops s) × ((apply_all ops s).config ≡ s.config)
  unfolding apply_all
  apply_all-IsCoherent [] s v = (v, refl)
  apply_all-IsCoherent (op ∷ ops) s v =
      let (v', same) = apply_all-IsCoherent ops (apply op s) (apply-IsCoherent op s v) in
      (v', same ∙ config-apply op s)

pub create-IsCoherent :
    (config : CacheConfig)
    → 1 ≤ room config config.user_max_size
    → 1 ≤ room config config.token_max_size
    → (s : CacheService) × (create config ≡ ok s) × IsCoherent s × (s.config ≡ config)
unfolding create Map.get
create-IsCoherent config u t =
    let max : ℕ → ℕ = λ n. room config n in
    let ttl : ℕ → ℕ = λ n. if config.enabled then n else 0 in
    (
      record {
        user_cache = new (max config.user_max_size) (ttl config.user_ttl_ms);
        token_cache = new (max config.token_max_size) (ttl config.token_ttl_ms);
        email_to_id_cache = new (max config.user_max_size) (ttl config.user_ttl_ms);
        user_to_token_hashes = [];
        config = config;
      },
      rw
          (
            create-new {T = User} (max config.user_max_size) (ttl config.user_ttl_ms) u,
            create-new {T = CachedTokenValidation} (max config.token_max_size)
                (ttl config.token_ttl_ms) t,
            create-new {T = String} (max config.user_max_size) (ttl config.user_ttl_ms) u,
          )
          refl,
      record {
        users = new-IsValid (max config.user_max_size) (ttl config.user_ttl_ms) u;
        tokens = new-IsValid (max config.token_max_size) (ttl config.token_ttl_ms) t;
        emails = new-IsValid (max config.user_max_size) (ttl config.user_ttl_ms) u;
        indexed = λ h t e. absurd (ground arith);
      },
      refl,
    )

pub create-ok-IsCoherent :
    (config : CacheConfig) (s : CacheService)
    → 1 ≤ room config config.user_max_size
    → 1 ≤ room config config.token_max_size
    → create config ≡ ok s
    → IsCoherent s × (s.config ≡ config)
create-ok-IsCoherent config s u t made =
    let (s', made', v, same) = create-IsCoherent config u t in
    let equal : s' ≡ s = cc in (subst IsCoherent equal v, cc)

module _ (lower : String → String) (hash_token : String → String) where
  -- When the caches are enabled with room for at least one entry each, or are disabled, the service is
  -- made, and then keeps this whatever calls it gets: no cache holds more entries than its maximum, nor
  -- a key twice, every token in the cache stands in the reverse index under its user, and the
  -- configuration stays as it was.
  pub create-apply_all :
      (config : CacheConfig) (ops : List Op)
      → 1 ≤ room config config.user_max_size
      → 1 ≤ room config config.token_max_size
      → (s : CacheService) × (create config ≡ ok s)
        × IsCoherent (apply_all lower hash_token ops s)
        × ((apply_all lower hash_token ops s).config ≡ config)
  create-apply_all config ops u t =
      let (s, made, v, same) = create-IsCoherent config u t in
      let (v', kept) = apply_all-IsCoherent lower hash_token ops s v in (s, made, v', kept ∙ same)
