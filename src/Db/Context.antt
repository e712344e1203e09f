-- ===== src/Db/Context.antt =====
-- The connection of the two `RedisConnector`s, of cpp/src/nsb.cc and of cpp/rabbit/src/NSBUnified.cpp. What
-- `redisConnect` returns is an argument: a null pointer, or a context with or without an error.
use nsb_ci.Prelude.{Bool, true, false, not, ◌≡◌, refl, ◌↔◌, if◌then◌else◌}
use nsb_ci.Daemon.{Outcome, ok, undefined}

pub data Context : Type 0 where
  null : Context
  live : Bool → Context
  freed : Context

-- `isConnected`; to look at a context that was freed is undefined.
unfoldable pub is_connected_context : Context → Outcome Bool
is_connected_context null = ok false
is_connected_context (live err) = ok (not err)
is_connected_context freed = undefined

-- `RedisConnector::connect` of nsb.cc, which reads the error of a null pointer.
unfoldable pub connect_context : Context → Outcome (Context × Bool)
connect_context null = undefined
connect_context (live err) = ok (live err, not err)
connect_context freed = undefined

-- `RedisConnector::doConnect` of NSBUnified.cpp
unfoldable pub do_connect : Context → Outcome (Context × Bool)
do_connect null = ok (null, false)
do_connect (live err) = ok (live err, not err)
do_connect freed = undefined

-- `~RedisConnector` of nsb.cc, with `disconnect`
unfoldable pub destroy_context : Context → Outcome Context
destroy_context null = ok null
destroy_context (live err) = ok (if err then live err else freed)
destroy_context freed = undefined

-- `~RedisConnector` of NSBUnified.cpp, with `doDisconnect`, which forgets the pointer.
unfoldable pub do_destroy : Context → Outcome Context
do_destroy null = ok null
do_destroy (live err) = ok (if err then live err else null)
do_destroy freed = undefined

-- The two connectors agree on every context that is there, and the destructor of either lets go of it just where
-- the connection is up: a context with an error is never freed.
pub do_connect-connect_context :
    (err : Bool)
    → (do_connect (live err) ≡ connect_context (live err))
      × ((destroy_context (live err) ≡ ok freed) ↔ (err ≡ false))
      × ((do_destroy (live err) ≡ ok null) ↔ (err ≡ false))
unfolding do_connect connect_context destroy_context do_destroy
do_connect-connect_context true = (refl, (λ e. cc, λ e. cc), (λ e. cc, λ e. cc))
do_connect-connect_context false = (refl, (λ e. refl, λ e. refl), (λ e. refl, λ e. refl))
