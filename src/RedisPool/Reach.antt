-- ===== src/RedisPool/Reach.antt =====
-- The states that a pool can be in.
use talksy.Common.{◌≡◌, refl, arith, Bool, true, false, not, ◌&&◌}
use talksy.RedisPool.{
  RedisPool, create, get_client, is_available, connect, connected, on_error, on_connect, on_close,
  disconnect,
}

-- A connection ends that has begun; the events of a client, also of one that has been dropped, come at
-- any time.
pub data Reach (enabled : Bool) : RedisPool → Type 0 where
  start : Reach enabled (create enabled)
  connect_step : {p : RedisPool} → Reach enabled p → Reach enabled (connect p).0
  connected_step :
      {p : RedisPool} (success : Bool)
      → p.connecting ≡ true
      → Reach enabled p
      → Reach enabled (connected success p)
  error_step : {p : RedisPool} → Reach enabled p → Reach enabled (on_error p)
  open_step : {p : RedisPool} → Reach enabled p → Reach enabled (on_connect p)
  close_step : {p : RedisPool} → Reach enabled p → Reach enabled (on_close p)
  disconnect_step : {p : RedisPool} → Reach enabled p → Reach enabled (disconnect p)

-- A pool that is disabled has no client and makes none.
record IsSound (enabled : Bool) (p : RedisPool) : Type 0 where
  same : p.enabled ≡ enabled
  idle : p.enabled ≡ false → p.has_client ≡ false
  unstarted : p.enabled ≡ false → p.connecting ≡ false

Reach-IsSound : {enabled : Bool} {p : RedisPool} → Reach enabled p → IsSound enabled p
unfolding create connect connected on_error on_connect on_close disconnect
Reach-IsSound start = record { same = refl; idle = λ h. refl; unstarted = λ h. refl }
Reach-IsSound (connect_step {p = p} r) =
    let v = Reach-IsSound r in
    record {
      same = ground (arith, v.same);
      idle = λ h. ground (arith, v.idle, v.unstarted);
      unstarted = λ h. ground (arith, v.idle, v.unstarted);
    }
Reach-IsSound (connected_step true on r) =
    let v = Reach-IsSound r in record { same = v.same; idle = v.idle; unstarted = λ h. refl }
Reach-IsSound (connected_step false on r) =
    let v = Reach-IsSound r in record { same = v.same; idle = λ h. refl; unstarted = λ h. refl }
Reach-IsSound (error_step r) =
    let v = Reach-IsSound r in record { same = v.same; idle = v.idle; unstarted = v.unstarted }
Reach-IsSound (open_step r) =
    let v = Reach-IsSound r in record { same = v.same; idle = v.idle; unstarted = v.unstarted }
Reach-IsSound (close_step r) =
    let v = Reach-IsSound r in record { same = v.same; idle = v.idle; unstarted = v.unstarted }
Reach-IsSound (disconnect_step {p = p} r) =
    let v = Reach-IsSound r in
    record {
      same = ground (arith, v.same);
      idle = λ h. ground (arith, v.idle);
      unstarted = λ h. ground (arith, v.unstarted);
    }

-- In every state that a pool can be in, `getClient` returns a client if and only if `isAvailable` holds,
-- and neither ever does for a pool that is disabled, however its connections and their events interleave.
pub Reach-is_available :
    {enabled : Bool} {p : RedisPool}
    → Reach enabled p
    → (get_client p ≡ is_available p)
      × (p.enabled ≡ enabled)
      × ((get_client p && not enabled) ≡ false)
Reach-is_available {enabled = enabled} {p = p} r =
    let v = Reach-IsSound r in (ground (arith, v.idle), v.same, ground (arith, v.idle, v.same))
