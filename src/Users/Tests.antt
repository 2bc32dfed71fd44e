-- ===== src/Users/Tests.antt =====
-- The service of users at concrete inputs.
use text.Mathlib.TextEquality.{eq_iff}
use talksy.Common.{◌≡◌, refl, true, false, List, [], ◌∷◌, none, some, arith, String, ok, throw}
use talksy.Common.Map
use talksy.Common.Map.{Map}
use talksy.LruCache
use talksy.CacheService
use talksy.CacheService.{User, CacheConfig, CacheService}
use talksy.RedisPool.{RedisPool, Redis}
use talksy.Users
use talksy.Users.{
  Env, UserService, CreateUser, save_user, store_user, find_by_id, get_email_index_key, new_user,
}
use talksy.Users.Consistent.{IsOffline}
use talksy.Users.Refine.{
  Op, found, created, updated, deleted, create_op, find_by_id_op, find_by_email_op,
  update_password_op, delete_user_op, apply_all, promised_all, AreAllowed, start,
  apply_all-promised_all,
}
use talksy.Users.Fallback.{IsUp, create-store_user_failed, find_by_id-store_user}

abbrev config : CacheConfig
config = record {
  enabled = true;
  user_ttl_ms = 100;
  user_max_size = 2;
  token_ttl_ms = 50;
  token_max_size = 2;
}

abbrev cache : CacheService
cache = record {
  user_cache = LruCache.Valid.new 2 100;
  token_cache = LruCache.Valid.new 2 50;
  email_to_id_cache = LruCache.Valid.new 2 100;
  user_to_token_hashes = [];
  config = config;
}

create-config : CacheService.create config ≡ ok cache
unfolding CacheService.create LruCache.create
create-config = refl

abbrev ann : User
ann = record { id = "1"; email = "ann@x"; password_hash = "old"; created_at = 7; updated_at = 7 }

-- A server that keeps what it is sent, behind a pool in this state; one that refuses to set anything.
abbrev server : RedisPool → Redis (Map String)
server p = record {
  pool = λ r. p;
  get = λ k r. (r, ok (Map.get k r));
  set = λ k v r. (Map.set k v r, ok tt);
  set_px = λ k v ttl r. (Map.set k v r, ok tt);
  del = λ ks r. (r, ok 0);
  exists = λ k r. (r, ok 0);
  keys = λ pattern r. (r, ok []);
}

abbrev failing : RedisPool → Redis (Map String)
failing p = record (server p) { set = λ k v r. (r, throw "down") }

abbrev down : RedisPool
down = record { enabled = false; has_client = false; is_connected = false; connecting = false }

abbrev up : RedisPool
up = record { enabled = true; has_client = true; is_connected = true; connecting = false }

abbrev env : Redis (Map String) → Env (Map String)
env redis = record {
  redis = redis;
  lower = λ s. s;
  hash = λ rounds salt password. password;
  compare = λ password hash. true;
  serialize_user = λ user. user.email;
  deserialize_user = λ text. ok ann;
  key_prefix = "talksy:";
  bcrypt_rounds = 12;
}

abbrev ops : List Op
ops =
    create_op (λ n. 7) "1" "salt" (record { email = "ann@x"; password = "old" })
    ∷ find_by_email_op (λ n. 8) "ann@x"
    ∷ update_password_op (λ n. 9) "salt" "1" "new"
    ∷ find_by_id_op (λ n. 10) "1"
    ∷ delete_user_op (λ n. 11) "1"
    ∷ find_by_email_op (λ n. 12) "ann@x"
    ∷ []

promised_all-ops :
    (promised_all (env (server down)) ops []).1
    ≡ created (ok ann)
      ∷ found (some ann)
      ∷ updated (ok tt)
      ∷ found (some (record ann { password_hash = "new"; updated_at = 9 }))
      ∷ deleted true
      ∷ found none
      ∷ []
unfolding promised_all Map.set Map.get Map.delete
promised_all-ops = refl

offline : IsOffline (env (server down)) []
offline = record { no_client = refl; unavailable = refl }

ops-AreAllowed : AreAllowed (env (server down)) ops []
unfolding AreAllowed promised_all Map.get
ops-AreAllowed = (
  (
    refl,
    (λ p. let h : false ≡ true = (eq_iff "1" "").1 p in cc),
    (λ p. let h : false ≡ true = (eq_iff "ann@x" "").1 p in cc),
  ),
  (tt, (tt, (tt, (tt, (tt, tt))))),
)

apply_all-promised_all_example :
    ((apply_all (env (server down)) ops (start (env (server down)) cache [])).1
      ≡ (promised_all (env (server down)) ops []).1)
    × ((apply_all (env (server down)) ops (start (env (server down)) cache [])).0.users
        ≡ (promised_all (env (server down)) ops []).0)
apply_all-promised_all_example =
    apply_all-promised_all (env (server down)) config cache [] ops (λ e. refl) offline create-config
      ops-AreAllowed

abbrev empty : UserService (Map String)
empty = record { users = []; email_index = []; cache = cache; redis = [] }

missed : (CacheService.get_user 8 8 "1" cache).1 ≡ none
unfolding CacheService.get_user LruCache.get Map.get
missed = refl

not_saved : (save_user (env (failing up)) ann []).1 ≡ false
unfolding save_user
not_saved = refl

no_address : (CacheService.get_user_id_by_email (λ s. s) 8 8 "ann@x" cache).1 ≡ none
unfolding CacheService.get_user_id_by_email LruCache.get Map.get
no_address = refl

not_indexed :
    ((env (failing up)).redis.get
      (get_email_index_key (env (failing up)) "ann@x")
      (save_user (env (failing up)) ann []).0).1
    ≡ ok none
unfolding save_user Map.get
not_indexed = refl

abbrev again : CreateUser
again = record { email = "ann@x"; password = "other" }

create-store_user_failed_example :
    let stored = store_user (env (failing up)) (λ n. 7) ann empty in
    (Map.get "ann@x" stored.email_index ≡ some "1")
    × (Map.get "1" stored.users ≡ some ann)
    × ((Users.create
          (env (failing up))
          (λ n. 8)
          "2"
          "salt"
          again
          (record stored { cache = cache })).1
        ≡ ok (new_user (env (failing up)) 8 "2" "salt" again))
create-store_user_failed_example =
    create-store_user_failed (env (failing up)) (λ n. 7) (λ n. 8) ann "2" "salt" again empty cache
      refl not_saved refl refl not_indexed no_address

server-IsUp : (r : Map String) → IsUp (env (server up)) r
server-IsUp r = record {
  client = λ k v. refl;
  accepts = λ k v. refl;
  keeps = λ k v. ground (arith, Map.get-set k k v r);
  leaves = λ j k v ne. ground (arith, Map.get-set j k v r);
}

find_by_id-store_user_example :
    ((find_by_id
        (env (server up))
        (λ n. 8)
        "1"
        (record (store_user (env (server up)) (λ n. 7) ann empty) { cache = cache })).1
      ≡ some ann)
    × ((store_user (env (server up)) (λ n. 7) ann empty).users ≡ [])
    × ((store_user (env (server up)) (λ n. 7) ann empty).email_index ≡ [])
find_by_id-store_user_example =
    find_by_id-store_user (env (server up)) (λ n. 7) (λ n. 8) ann empty cache refl (server-IsUp [])
      (server-IsUp _) (λ p. let h : false ≡ true = (eq_iff "ann@x" "").1 p in cc) refl
      (λ p. let h : false ≡ true = (eq_iff "talksy:user:email:ann@x" "talksy:user:1").1 p in cc)
      missed
