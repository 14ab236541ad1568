-- ===== src/Websocket/Service.antt =====
-- `start`, `stop` and `main` of migrate-websocket/websocket-migration-server.py.
pub mod Laws
use migration_transport_hack.Base.{Option, none, some, Bool, true, false}
use migration_transport_hack.Async.{Raised, exception, Result, ok, err, None}
use migration_transport_hack.Certificates.{Directory}
use migration_transport_hack.Ssl.{Context, Made, made, raised, Library, server_context}

-- `self.server`: the server of the websockets library, with the context that it was given.
pub data Serving : Type 0 where
  no_server : Serving
  open_server : Context → Serving
  closed_server : Context → Serving

-- How a coroutine ends: it returns or raises, or `KeyboardInterrupt` leaves it.
pub data Ending : Type 0 where
  ends : Result None → Ending
  keyboard_interrupt : Ending

-- `wait_closed` returns when the server is closed.
abbrev waited_for : Ending → Context → Serving
waited_for (ends (ok _)) c = closed_server c
waited_for (ends (err e)) c = open_server c
waited_for keyboard_interrupt c = open_server c

abbrev serve : Result None → Ending → Context → Ending × Serving
serve (ok _) waited c = (waited, waited_for waited c)
serve (err e) waited c = (ends (err e), no_server)

-- `bound` is the answer of `websockets.serve`, and `waited` is how `wait_closed` ends.
abbrev start_with : Made → Result None → Ending → Ending × Serving
start_with (made c) bound waited = serve bound waited c
start_with (raised e) bound waited = (ends (err exception), no_server)

unfoldable pub start : Library → Directory → Result None → Ending → Ending × Serving
start lib d bound waited = start_with (server_context lib d) bound waited

unfoldable pub stop : Serving → Serving
stop no_server = no_server
stop (open_server c) = closed_server c
stop (closed_server c) = closed_server c

-- `except KeyboardInterrupt`
abbrev pub or_stop : Ending × Serving → Ending × Serving
or_stop (keyboard_interrupt, s) = (ends (ok tt), stop s)
or_stop (ends r, s) = (ends r, s)

unfoldable pub main : Library → Directory → Result None → Ending → Ending × Serving
main lib d bound waited = or_stop (start lib d bound waited)
