-- ===== src/MemoryStorage.antt =====
-- src/storage/adapters/in-memory-storage.adapter.ts: the class `InMemoryStorageAdapter`, for sessions of any
-- type. A pending timer is the time at which it is due, and `fire` is what it does. A method that
-- changes the store returns the new one, first; each reading of the clock is an argument.
pub mod Reads
pub mod Timers
mod Tests
use talksy.Common.{
  ℕ, ◌+◌, Bool, true, false, ltb, ◌==◌, if◌then◌else◌, List, [], ◌∷◌, Option, none, some, String,
  length,
}
use talksy.Common.Map
use talksy.Common.Map.{Map}

pub record StoredSession (V : Type 0) : Type 0 where
  pub session : V
  pub expires_at : Option ℕ
  pub timer : Option ℕ

abbrev pub Store : Type 0 → Type 0
Store V = Map (StoredSession V)

-- `ttlMs ? ... : null`: no time to live, and zero, are none.
abbrev pub after : ℕ → Option ℕ → Option ℕ
after now none = none
after now (some ttl_ms) = if ltb 0 ttl_ms then some (now + ttl_ms) else none

-- `expiresAt !== null && Date.now() > expiresAt`
abbrev pub is_past : ℕ → Option ℕ → Bool
is_past now none = false
is_past now (some expires_at) = ltb expires_at now

-- `expiresAt === null || expiresAt > now`
abbrev pub is_ahead : ℕ → Option ℕ → Bool
is_ahead now none = true
is_ahead now (some expires_at) = ltb now expires_at

module _ {V : Type 0} where
  unfoldable pub delete : String → Store V → Store V × Bool
  delete key s = elim (Map.get key s) [ none ↦ (s, false) | some stored ↦ (Map.delete key s, true) ]

  unfoldable pub get : ℕ → String → Store V → Store V × Option V
  unfolding delete
  get now key s = elim (Map.get key s) [
    | none ↦ (s, none)
    | some stored ↦
        if is_past now stored.expires_at then ((delete key s).0, none) else (s, some stored.session)
  ]

  -- The timer of a session that is replaced goes with it.
  unfoldable pub set : ℕ → ℕ → String → V → Option ℕ → Store V → Store V
  set now now' key value ttl_ms s =
      Map.set key
        (record { session = value; expires_at = after now ttl_ms; timer = after now' ttl_ms }) s

  unfoldable pub has : ℕ → String → Store V → Store V × Bool
  unfolding delete
  has now key s = elim (Map.get key s) [
    | none ↦ (s, false)
    | some stored ↦ if is_past now stored.expires_at then ((delete key s).0, false) else (s, true)
  ]

  unfoldable pub keys : ℕ → Store V → List String
  keys now [] = []
  keys now ((key, stored) ∷ s) =
      let rest = keys now s in if is_ahead now stored.expires_at then key ∷ rest else rest

  unfoldable pub clear : Store V → Store V
  clear s = []

  unfoldable pub count : ℕ → Store V → ℕ
  unfolding keys
  count now s = length (keys now s)

  -- The callback of a timer.
  unfoldable pub fire : String → Store V → Store V
  fire key s = Map.delete key s
