-- ===== src/Proxy/Service.antt =====
-- `start`, `stop` and `main` of migrate-proxy/tcp-migration-server.py: what is left of a run however
-- it ends.
pub mod Laws
pub mod Unordered
use migration_transport_hack.Base.{Bool, true, false, List, [], snoc}
use migration_transport_hack.Async.{Result, ok, err, exception, cancelled_error, None}
use migration_transport_hack.Histogram.{Histogram, Report, print_histogram}
use migration_transport_hack.Proxy.System.{System, Event, idle, run}

-- `self.server`, and whether its sockets are open.
pub data Sockets : Type 0 where
  no_server : Sockets
  listening : Sockets
  closed_server : Sockets

pub record Service : Type 0 where
  pub server : Sockets
  pub system : System
  pub printed : List Report  -- oldest first

abbrev pub created : Service
created = record { server = no_server; system = idle; printed = [] }

-- How a coroutine ends: it returns or raises, or `KeyboardInterrupt` leaves it.
pub data Ending : Type 0 where
  ends : Result None → Ending
  keyboard_interrupt : Ending

-- `close` and `wait_closed`
abbrev close : Sockets → Sockets
close no_server = no_server
close listening = closed_server
close closed_server = closed_server

-- `bound` is the answer of `asyncio.start_server`; then the events happen, and `serve_forever` ends.
-- `async with` closes the server on the way out.
unfoldable pub start : Result None → List Event → Ending → Service → Ending × Service
start (err e) es ending s = (ends (err e), s)
start (ok _) es ending s = (ending, record s { server = close listening; system = run es s.system })

-- `if self.server:`
unfoldable pub stop : Service → Service
stop s = record s { server = close s.server }

abbrev print : Histogram → Service → Service
print h s = record s { printed = snoc s.printed (print_histogram h) }

-- `except KeyboardInterrupt`
abbrev or_stop : Ending × Service → Ending × Service
or_stop (keyboard_interrupt, s) = (ends (ok tt), stop s)
or_stop (ends r, s) = (ends r, s)

abbrev print_last : Ending × Service → Ending × Service
print_last (e, s) = (e, print s.system.read_histogram s)

unfoldable pub main : Result None → List Event → Ending → Ending × Service
main bound es ending = print_last (or_stop (start bound es ending created))
