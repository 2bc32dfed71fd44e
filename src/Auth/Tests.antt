-- ===== src/Auth/Tests.antt =====
-- Authentication at concrete inputs.
use text.Mathlib.TextEquality.{eq_iff}
use talksy.Common.{
  ℕ, ◌*◌, ◌≡◌, ◌++◌, refl, true, false, ltb, if◌then◌else◌, [], ◌∷◌, none, some, arith, ok, throw,
  inl,
}
use talksy.Common.Map
use talksy.Common.Map.{Map}
use talksy.LruCache
use talksy.LruCache.Valid.{new-IsValid}
use talksy.CacheService
use talksy.CacheService.{User, AuthUser, CacheConfig, CacheService, get_token_validation}
use talksy.RedisPool.{Redis}
use talksy.Users
use talksy.Users.{Env, UserService, has_client}
use talksy.Auth.{
  AuthEnv, AuthService, AuthTokens, Payload, refresh_token, logout, validate_access_token,
}
use talksy.Auth.Expiry.{decimal, parse_expiry_to_ms, parse_expiry_to_ms-decimal}
use talksy.Auth.Gone.{refresh_op, apply_all}
use talksy.Auth.Refresh.{IsDead, refresh_token_once}
use talksy.Auth.Race.{check_refresh, grant_refresh, grant_refresh_twice}
use talksy.Auth.Access.{validate_access_token-expired}
use talksy.Auth.Guard.{JwtAuthGuard, Context, http, let_in, can_activate}
use talksy.Auth.Guard.Tokens.{IsBearer, by_header}
use talksy.Auth.Guard.Admitted.{can_activate-let_in}

abbrev config : CacheConfig
config = record {
  enabled = true;
  user_ttl_ms = 100;
  user_max_size = 2;
  token_ttl_ms = 50;
  token_max_size = 2;
}

abbrev cache : CacheService
cache = record {
  user_cache = LruCache.Valid.new 2 100;
  token_cache = LruCache.Valid.new 2 50;
  email_to_id_cache = LruCache.Valid.new 2 100;
  user_to_token_hashes = [];
  config = config;
}

abbrev ann : User
ann = record { id = "1"; email = "ann@x"; password_hash = "pw"; created_at = 7; updated_at = 7 }

-- A server of Redis that is down.
abbrev down : Redis (Unit {0})
down = record {
  pool =
      λ r. record { enabled = false; has_client = false; is_connected = false; connecting = false };
  get = λ k r. (r, throw "down");
  set = λ k v r. (r, throw "down");
  set_px = λ k v ttl r. (r, throw "down");
  del = λ ks r. (r, throw "down");
  exists = λ k r. (r, throw "down");
  keys = λ pattern r. (r, throw "down");
}

abbrev payload : Payload
payload = record { sub = "1"; email = "ann@x"; token_id = "T0"; exp = some 1 }

-- Every token has this payload, until its time is over.
abbrev env : AuthEnv (Unit {0})
env = record {
  users = record {
    redis = down;
    lower = λ s. s;
    hash = λ rounds salt password. password;
    compare = λ password hash. true;
    serialize_user = λ user. user.email;
    deserialize_user = λ text. ok ann;
    key_prefix = "talksy:";
    bcrypt_rounds = 12;
  };
  verify = λ now token. if ltb 1000 now then throw "jwt expired" else ok payload;
  sign = λ now p expires_in. p.sub;
  hash_token = λ token. token;
  access_token_expiry_sec = 900;
  refresh_token_expiry_sec = 604800;
}

abbrev service : AuthService (Unit {0})
service = record {
  user_service = record {
    users = ("1", ann) ∷ [];
    email_index = ("ann@x", "1") ∷ [];
    cache = cache;
    redis = tt;
  };
  refresh_tokens = ("T0", record { user_id = "1"; expires_at = 500 }) ∷ [];
}

abbrev tokens : AuthTokens
tokens = record { access_token = "1"; refresh_token = "1"; expires_in = 900 }

refreshed : (refresh_token env (λ n. 20) "T1" "rt" service).1 ≡ ok tokens
unfolding refresh_token talksy.Auth.rotate talksy.Auth.is_refresh_token_valid
    talksy.Auth.is_valid_in_memory Map.get Users.find_by_id CacheService.get_user LruCache.get
    Users.load_user talksy.Auth.generate_tokens
refreshed = refl

same_id : (t : ℕ) (p : Payload) → env.verify t "rt" ≡ ok p → p.token_id ≡ "T0"
same_id t p h = ground arith

refresh_token_once_example :
    IsDead env "rt"
      (λ n. 30)
      "T3"
      (apply_all env
        (refresh_op (λ n. 25) "T2" "rt" ∷ [])
        (refresh_token env (λ n. 20) "T1" "rt" service).0)
    × IsDead env "rt"
        (λ n. 30)
        "T3"
        (apply_all env (refresh_op (λ n. 25) "T2" "rt" ∷ []) (logout env 20 "rt" service))
refresh_token_once_example =
    refresh_token_once env "T0" "rt" "T1" "T3" (λ n. 20) (λ n. 30) 20 payload tokens
      (refresh_op (λ n. 25) "T2" "rt" ∷ []) service refl same_id
      (λ p. let h : false ≡ true = (eq_iff "T1" "T0").1 p in cc)
      ((λ p. let h : false ≡ true = (eq_iff "T2" "T0").1 p in cc), tt) refreshed refl

missed : (get_token_validation env.hash_token 20 20 "at" cache).1 ≡ none
unfolding get_token_validation LruCache.get Map.get
missed = refl

validate_access_token-expired_example :
    ((validate_access_token env (λ n. 20) "at" service).1
      ≡ some (record { user_id = "1"; email = "ann@x" }))
    × ((validate_access_token env
          (λ n. 1003)
          "at"
          (validate_access_token env (λ n. 20) "at" service).0).1
        ≡ none)
validate_access_token-expired_example =
    validate_access_token-expired env (λ n. 20) (λ n. 1003) "at" "jwt expired" payload 1 service
      (new-IsValid 2 50 (omega arith)) missed refl refl (omega arith) refl (omega arith)

quarter : parse_expiry_to_ms (49 ∷ 53 ∷ 109 ∷ []) ≡ 900000
unfolding parse_expiry_to_ms talksy.Auth.Expiry.parse_signed talksy.Auth.Expiry.skip_spaces
    talksy.Auth.Expiry.split_last talksy.Auth.Expiry.parse_digits
quarter = refl

parse_expiry_to_ms-decimal_example :
    (parse_expiry_to_ms (decimal 15 ++ 115 ∷ []) ≡ 15 * 1000)
    × (parse_expiry_to_ms (decimal 15 ++ 109 ∷ []) ≡ 15 * 60000)
    × (parse_expiry_to_ms (decimal 15 ++ 104 ∷ []) ≡ 15 * 3600000)
    × (parse_expiry_to_ms (decimal 15 ++ 100 ∷ []) ≡ 15 * 86400000)
    × (parse_expiry_to_ms (decimal 15 ++ 120 ∷ []) ≡ 60000)
parse_expiry_to_ms-decimal_example = parse_expiry_to_ms-decimal 15 120 (omega arith) refl

abbrev guard : JwtAuthGuard
guard = record { auth_enabled = true; bypass_in_dev = true; is_dev = false }

abbrev context : Context
context = http (some "Bearer at")

header-IsBearer : IsBearer "Bearer at" "at"
header-IsBearer = record {
  written = λ p. let h : false ≡ true = (eq_iff "at" "").1 p in cc;
  one_word = refl;
  spelled = inl refl;
}

abbrev user : AuthUser
user = record { user_id = "1"; email = "ann@x" }

valid : (validate_access_token env (λ n. 20) "at" service).1 ≡ some user
unfolding validate_access_token get_token_validation LruCache.get Map.get
valid = refl

can_activate-let_in_example :
    (can_activate env (λ n. 20) context guard service).1 ≡ let_in (some user)
can_activate-let_in_example =
    (can_activate-let_in env (λ n. 20) context guard service (some user) refl refl).1 (
      "at",
      user,
      by_header (some "Bearer at") "at" ("Bearer at", refl, header-IsBearer),
      refl,
      valid,
    )

-- Both requests are looked at before either goes on.
abbrev looked_at : AuthService (Unit {0})
looked_at = (check_refresh env (λ n. 20) payload service).0

abbrev looked_at_twice : AuthService (Unit {0})
looked_at_twice = (check_refresh env (λ n. 21) payload looked_at).0

first_checked : check_refresh env (λ n. 20) payload service ≡ (looked_at, ok ann)
unfolding check_refresh talksy.Auth.is_refresh_token_valid talksy.Auth.is_valid_in_memory Map.get
    Users.find_by_id CacheService.get_user LruCache.get Users.load_user
first_checked = refl

second_checked : check_refresh env (λ n. 21) payload looked_at ≡ (looked_at_twice, ok ann)
unfolding check_refresh talksy.Auth.is_refresh_token_valid talksy.Auth.is_valid_in_memory Map.get
    Users.find_by_id CacheService.get_user LruCache.get Users.load_user LruCache.set
    CacheService.set_user Map.set
second_checked = refl

grant_refresh_twice_example :
    let first = (grant_refresh env (λ n. 20) "T1" payload ann looked_at_twice).0 in
    let last = (grant_refresh env (λ n. 21) "T2" payload ann first).0 in
    (Map.has "T1" last.refresh_tokens ≡ true) × (Map.has "T2" last.refresh_tokens ≡ true)
grant_refresh_twice_example =
    grant_refresh_twice env (λ n. 20) (λ n. 21) "T1" "T2" payload ann ann service looked_at
      looked_at_twice first_checked second_checked refl
      (λ p. let h : false ≡ true = (eq_iff "T1" "T2").1 p in cc)
      (λ p. let h : false ≡ true = (eq_iff "T1" "T0").1 p in cc)
