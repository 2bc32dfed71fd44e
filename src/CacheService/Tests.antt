-- ===== src/CacheService/Tests.antt =====
-- The caches at concrete inputs.
use text.Mathlib.TextEquality.{eq_iff}
use talksy.Common.{◌≡◌, ◌≢◌, refl, true, false, List, [], ◌∷◌, none, some, arith, String, ok}
use talksy.Common.Map
use talksy.LruCache
use talksy.LruCache.Valid.{new-IsValid}
use talksy.CacheService.{
  User, AuthUser, CacheConfig, CacheService, create, get_user, get_user_id_by_email, set_user,
  invalidate_user, invalidate_all_tokens_for_user, get_token_validation, set_token_validation,
}
use talksy.CacheService.Coherent.{IsCoherent}
use talksy.CacheService.Calls.{
  Op, set_token_validation_op, get_token_validation_op, prune_op, apply_all, create-apply_all,
}
use talksy.CacheService.Tokens.{get_token_validation_revoked}
use talksy.CacheService.Users.{until, reads-set_user}

abbrev config : CacheConfig
config = record {
  enabled = true;
  user_ttl_ms = 100;
  user_max_size = 2;
  token_ttl_ms = 50;
  token_max_size = 2;
}

abbrev same : String → String
same s = s

abbrev ann : AuthUser
ann = record { user_id = "ann"; email = "ann@x" }

abbrev bob : AuthUser
bob = record { user_id = "bob"; email = "bob@x" }

abbrev before : List Op
before =
    set_token_validation_op 1 1 "t1" ann none
    ∷ set_token_validation_op 2 2 "t2" bob none
    ∷ get_token_validation_op 3 3 "t1"
    ∷ []

abbrev after : List Op
after = set_token_validation_op 5 5 "t3" bob none ∷ prune_op 6 6 6 (λ user_id hash. 6) ∷ []

abbrev made : CacheService
made = record {
  user_cache = LruCache.Valid.new 2 100;
  token_cache = LruCache.Valid.new 2 50;
  email_to_id_cache = LruCache.Valid.new 2 100;
  user_to_token_hashes = [];
  config = config;
}

create-config : create config ≡ ok made
unfolding create LruCache.create
create-config = refl

found_before : (get_token_validation same 4 4 "t1" (apply_all same same before made)).1 ≡ some ann
unfolding get_token_validation apply_all set_token_validation LruCache.get Map.get LruCache.set
    Map.set Map.delete
found_before = refl

create-apply_all_example :
    (s : CacheService) × (create config ≡ ok s)
    × IsCoherent (apply_all same same before s)
    × ((apply_all same same before s).config ≡ config)
create-apply_all_example = create-apply_all same same config before (omega arith) (omega arith)

get_token_validation_revoked_example :
    (get_token_validation same 7 7 "t1" (
      apply_all same same after
        (invalidate_all_tokens_for_user "ann" (apply_all same same before made)))).1
    ≢ some (record { user_id = "ann"; email = "ann@x" })
get_token_validation_revoked_example =
    get_token_validation_revoked same same config made before after "ann" "t1" "ann@x" 7 7 refl
      (omega arith) (omega arith) create-config
      ((λ p. let h : false ≡ true = (eq_iff "bob" "ann").1 p in cc), (tt, tt))

abbrev cat : User
cat = record { id = "cat"; email = "cat@x"; password_hash = "pw"; created_at = 1; updated_at = 1 }

made-IsCoherent : IsCoherent made
unfolding Map.get
made-IsCoherent = record {
  users = new-IsValid 2 100 (omega arith);
  tokens = new-IsValid 2 50 (omega arith);
  emails = new-IsValid 2 100 (omega arith);
  indexed = λ h t e. absurd (ground arith);
}

reads-set_user_example :
    let stored = set_user same 5 6 cat made in
    let gone = invalidate_user same "cat" (some "cat@x") stored in
    ((get_user 105 105 "cat" stored).1 ≡ until 100 5 105 cat)
    × ((get_user_id_by_email same 105 105 "cat@x" stored).1 ≡ until 100 6 105 "cat")
    × ((get_user 105 105 "cat" gone).1 ≡ none)
    × ((get_user_id_by_email same 105 105 "cat@x" gone).1 ≡ none)
reads-set_user_example =
    reads-set_user same 5 6 105 105 cat "cat@x" made made-IsCoherent refl refl
      (λ p. let h : false ≡ true = (eq_iff "cat@x" "").1 p in cc)
