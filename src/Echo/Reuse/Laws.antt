-- ===== src/Echo/Reuse/Laws.antt =====
-- Which sockets the two servers of reuse-addr hold while they serve, and leave.
use migration_transport_hack.Base.{◌≡◌, ◌≢◌, ◌⊎◌, arith}
use migration_transport_hack.Async.{exception, ok, err}
use migration_transport_hack.Proxy.{absent, live, closed}
use migration_transport_hack.Echo.Reuse.{Answers, start_first, start_second}

-- Once it has a client, the first server has closed its listening socket before it serves, and
-- leaves nothing open; without one, the exception leaves it and the socket stays open.
start_first_lem :
    (a : Answers)
    → let (r, s) = start_first a in
      ((r ≡ ok tt) × (s.listener ≡ closed) × (s.listener_then ≡ closed) × (s.conn ≡ closed))
      ⊎ ((r ≢ ok tt) × (s.listener ≡ live) × (s.conn ≡ absent))
unfolding start_first
start_first_lem a = ground arith

-- The second server leaves no socket open, whatever happens, and lets no `Exception` out; while it
-- serves, it listens on.
start_second_lem :
    (a : Answers)
    → let (r, s) = start_second a in
      (s.listener ≡ closed)
      × (s.conn ≢ live)
      × (r ≢ err exception)
      × ((s.conn ≡ absent) ⊎ (s.listener_then ≡ live))
unfolding start_second
start_second_lem a = ground arith
