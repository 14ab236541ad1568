-- ===== src/Echo/Reuse.antt =====
-- `start_server` of reuse-addr/s1.py and s2.py, which hand a port over: the first closes its
-- listening socket as soon as it has a client, so that the second can bind.
pub mod Laws
use migration_transport_hack.Async.{Raised, exception, cancelled_error, Result, ok, err, None}
use migration_transport_hack.Proxy.{Socket, absent, live, closed}

-- A server: its listening socket, the connection, and the listening socket as it was when the
-- thread of the connection started.
pub record Server : Type 0 where
  pub listener : Socket
  pub conn : Socket
  pub listener_then : Socket

abbrev made : Server
made = record { listener = live; conn = absent; listener_then = absent }

-- The answers of `bind` and `listen`, and of `accept`.
pub record Answers : Type 0 where
  pub binding : Result None
  pub accepting : Result None

-- `join`: where the thread ends, its `finally` has closed the connection; after an interrupt, the
-- server closes it.
abbrev join : Server → Server
join s = record s { conn = closed }

abbrev start_thread : Server → Server
start_thread s = record s { conn = live; listener_then = s.listener }

abbrev close_listener : Server → Server
close_listener s = record s { listener = closed }

abbrev first_accept : Result None → Server → Result None × Server
first_accept (err e) s = (err e, s)
first_accept (ok _) s = (ok tt, join (start_thread (close_listener s)))

-- s1.py
abbrev first_bind : Result None → Answers → Result None × Server
first_bind (err e) a = (err e, made)
first_bind (ok _) a = first_accept a.accepting made

pub start_first : Answers → Result None × Server
start_first a = first_bind a.binding a

-- s2.py: `except Exception` prints, and `finally` closes the listening socket.
abbrev swallowed : Result None × Server → Result None × Server
swallowed (ok _, s) = (ok tt, s)
swallowed (err exception, s) = (ok tt, s)
swallowed (err cancelled_error, s) = (err cancelled_error, s)

abbrev second_accept : Result None → Server → Result None × Server
second_accept (err e) s = (err e, s)
second_accept (ok _) s = (ok tt, join (start_thread s))

abbrev second_bind : Result None → Answers → Result None × Server
second_bind (err e) a = (err e, made)
second_bind (ok _) a = second_accept a.accepting made

pub start_second : Answers → Result None × Server
start_second a = let (r, s) = swallowed (second_bind a.binding a) in (r, close_listener s)
