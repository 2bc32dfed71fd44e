-- ===== src/RedisPool/Tests.antt =====
-- The pool at concrete inputs.
use talksy.Common.{◌≡◌, refl, true, false, not, ◌&&◌}
use talksy.RedisPool.{RedisPool, create, get_client, is_available, connect, connected, on_close}
use talksy.RedisPool.Reach.{
  Reach, start, connect_step, connected_step, close_step, Reach-is_available,
}

-- A connection that is made, and then lost.
abbrev opened : RedisPool
opened = connected true (connect (create true)).0

opened-Reach : Reach true opened
unfolding create connect
opened-Reach = connected_step true refl (connect_step start)

get_client-opened : (get_client opened ≡ true) × (get_client (on_close opened) ≡ false)
unfolding create connect connected on_close
get_client-opened = (refl, refl)

Reach-is_available_example :
    (get_client (on_close opened) ≡ is_available (on_close opened))
    × ((on_close opened).enabled ≡ true)
    × ((get_client (on_close opened) && not true) ≡ false)
Reach-is_available_example = Reach-is_available (close_step opened-Reach)
