-- ===== src/RedisPool.antt =====
-- src/redis/redis-pool.service.ts: the class `RedisPoolService`, which shares one client of Redis. The
-- client is a library's: of it the pool keeps whether there is one and whether it is connected. `Redis`
-- has the commands that the services send, each of which may throw.
pub mod Reach
mod Tests
use talksy.Common.{
  ℕ, Bool, true, false, not, ◌&&◌, if◌then◌else◌, List, Option, none, some, String, str_dec, Result,
  ok, throw, ite,
}

pub record RedisPool : Type 0 where
  pub enabled : Bool
  pub has_client : Bool
  pub is_connected : Bool
  pub connecting : Bool

unfoldable pub create : Bool → RedisPool
create enabled = record {
  enabled = enabled;
  has_client = false;
  is_connected = false;
  connecting = false;
}

-- Whether `getClient` returns a client.
abbrev pub get_client : RedisPool → Bool
get_client p = if not p.is_connected then false else p.has_client

abbrev pub is_available : RedisPool → Bool
is_available p = p.enabled && p.is_connected && p.has_client

abbrev pub is_enabled : RedisPool → Bool
is_enabled p = p.enabled

-- What a call of `connect` comes to at once: it waits for the connection that is being made, it returns
-- a value, or it has begun to make a connection.
pub data Connecting : Type 0 where
  waits : Connecting
  returns : Bool → Connecting
  begins : Connecting

-- `connect` up to its first `await`, with the client that `doConnect` makes.
unfoldable pub connect : RedisPool → RedisPool × Connecting
connect p =
    if p.connecting
    then (p, waits)
    else if p.is_connected && p.has_client
    then (p, returns true)
    else if not p.enabled
    then (p, returns false)
    else (record p { connecting = true; has_client = true }, begins)

-- The rest of it, when the client has connected or has failed to.
unfoldable pub connected : Bool → RedisPool → RedisPool
connected true p = record p { is_connected = true; connecting = false }
connected false p = record p { has_client = false; is_connected = false; connecting = false }

-- The handlers of the client's events.
unfoldable pub on_error : RedisPool → RedisPool
on_error p = record p { is_connected = false }

unfoldable pub on_connect : RedisPool → RedisPool
on_connect p = record p { is_connected = true }

unfoldable pub on_close : RedisPool → RedisPool
on_close p = record p { is_connected = false }

-- `quit` may throw, which makes no difference.
unfoldable pub disconnect : RedisPool → RedisPool
disconnect p = if p.has_client then record p { has_client = false; is_connected = false } else p

-- The reply to `ping`, where it is sent.
unfoldable pub is_healthy : Result String → RedisPool → Bool
is_healthy (ok reply) p = if get_client p then ite (str_dec reply "PONG") true false else false
is_healthy (throw message) p = false

-- The commands on the state of the server and of the connection.
pub record Redis (R : Type 0) : Type 0 where
  pub pool : R → RedisPool
  pub get : String → R → R × Result (Option String)
  pub set : String → String → R → R × Result (Unit {0})
  pub set_px : String → String → ℕ → R → R × Result (Unit {0})
  pub del : List String → R → R × Result ℕ
  pub exists : String → R → R × Result ℕ
  pub keys : String → R → R × Result (List String)
