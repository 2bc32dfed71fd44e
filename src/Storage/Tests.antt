-- ===== src/Storage/Tests.antt =====
-- The storage service at concrete inputs.
use talksy.Common.{
  ℕ, zero, suc, ◌≡◌, refl, Bool, true, false, List, [], ◌∷◌, Option, none, some, String, Result, ok,
  throw,
}
use talksy.Common.Map
use talksy.MemoryStorage
use talksy.RedisStorage
use talksy.RedisStorage.{Env}
use talksy.Storage.{StorageService, switch_to_fallback, attempt_redis_reconnection}
use talksy.Storage.Served.{
  Op, Reply, set_op, get_op, session, done, apply_all, IsServed, apply_all-IsServed,
}

-- A server that answers so many commands and then throws.
abbrev answer : {A : Type 0} → A → ℕ → ℕ × Result A
answer a zero = (zero, throw "down")
answer a (suc n) = (n, ok a)

abbrev env : Env ℕ String
env = record {
  redis = record {
    pool =
        λ r. record { enabled = true; has_client = true; is_connected = true; connecting = false };
    get = λ k r. answer (some "in redis") r;
    set = λ k v r. answer tt r;
    set_px = λ k v ttl r. answer tt r;
    del = λ ks r. answer 1 r;
    exists = λ k r. answer 1 r;
    keys = λ pattern r. answer [] r;
  };
  serialize_session = λ text. text;
  deserialize_session = λ text. ok text;
  key_prefix = "talksy:";
  without_prefix = λ key. key;
}

abbrev service : StorageService ℕ String
service = record { active_redis = true; using_fallback = false; memory = []; redis = 2 }

-- The third command throws; what was stored in Redis before is not found.
abbrev ops : List (Op String)
ops =
    set_op 1 1 "a" "s" none
    ∷ get_op 2 "a"
    ∷ get_op 3 "a"
    ∷ set_op 4 4 "b" "t" none
    ∷ get_op 5 "b"
    ∷ []

apply_all-ops :
    (apply_all env ops service).1
    ≡ done tt ∷ session (some "in redis") ∷ session none ∷ done tt ∷ session (some "t") ∷ []
unfolding apply_all talksy.Storage.Served.apply talksy.Storage.set talksy.Storage.get
    RedisStorage.set RedisStorage.get talksy.Common.str_dec MemoryStorage.get switch_to_fallback
    Map.get MemoryStorage.set Map.set
apply_all-ops = refl

apply_all-IsServed_example : IsServed env ops service
apply_all-IsServed_example = apply_all-IsServed env ops service refl
