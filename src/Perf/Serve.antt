-- ===== src/Perf/Serve.antt =====
-- `start_server` and `main` of proxy-perf/websocket/receive.py.
use migration_transport_hack.Base.{◌≡◌, ◌≢◌, refl, Option, arith}
use migration_transport_hack.Async.{Result, ok, err, exception, cancelled_error, None}
use migration_transport_hack.Certificates.{Directory}
use migration_transport_hack.Ssl.{
  client_auth, Context, Made, made, raised, Library, Presented, admits, websocket_receiver_context,
}
use migration_transport_hack.Ssl.Laws.{presents, is_own, websocket_receiver_context-admits}

-- The server of the websockets library, with the context that it was given.
pub data Serving : Type 0 where
  no_server : Serving
  open_server : Context → Serving
  closed_server : Context → Serving

-- How a coroutine ends: it returns or raises, or `KeyboardInterrupt` leaves it.
pub data Ending : Type 0 where
  ends : Result None → Ending
  keyboard_interrupt : Ending

-- `wait_closed` returns when the server is closed.
abbrev waited_for : Ending → Context → Serving
waited_for (ends (ok _)) c = closed_server c
waited_for _ c = open_server c

-- `bound` is the answer of `websockets.serve`, and `waited` is how `wait_closed` ends.
abbrev serve : Result None → Ending → Context → Ending × Serving
serve (ok _) waited c = (waited, waited_for waited c)
serve (err e) waited c = (ends (err e), no_server)

abbrev start_with : Made → Result None → Ending → Ending × Serving
start_with (made c) bound waited = serve bound waited c
start_with (raised e) bound waited = (ends (err exception), no_server)

unfoldable pub start_server : Library → Directory → Result None → Ending → Ending × Serving
start_server lib d bound waited = start_with (websocket_receiver_context lib d) bound waited

-- `except KeyboardInterrupt` and `except Exception`
abbrev caught : Ending × Serving → Result None × Serving
caught (ends (err cancelled_error), s) = (err cancelled_error, s)
caught (ends (err exception), s) = (ok tt, s)
caught (ends (ok _), s) = (ok tt, s)
caught (keyboard_interrupt, s) = (ok tt, s)

unfoldable pub main : Library → Directory → Result None → Ending → Result None × Serving
main lib d bound waited = caught (start_server lib d bound waited)

start_with_open :
    (m : Made) (bound : Result None) (waited : Ending) (c : Context)
    → (start_with m bound waited).1 ≡ open_server c
    → m ≡ made c
start_with_open (made b) (ok _) (ends (ok _)) c e = cc
start_with_open (made b) (ok _) (ends (err x)) c e = ground arith
start_with_open (made b) (ok _) keyboard_interrupt c e = ground arith
start_with_open (made b) (err x) waited c e = cc
start_with_open (raised x) bound waited c e = cc

-- A websocket receiver that `main` leaves listening admits just the clients that present a
-- certificate of the authority in `ca.pem`, in date and usable by a client.
admits-receiver :
    (lib : Library) (d : Directory) (bound : Result None) (waited : Ending) (c : Context)
    (p : Option Presented)
    → (start_server lib d bound waited).1 ≡ open_server c
    → admits c p ≡ presents is_own client_auth p
unfolding start_server
admits-receiver lib d bound waited c p e =
    websocket_receiver_context-admits lib d c p
      (start_with_open (websocket_receiver_context lib d) bound waited c e)

caught_keeps : (x : Ending × Serving) → ((caught x).0 ≢ err exception) × ((caught x).1 ≡ x.1)
caught_keeps (ends (err cancelled_error), s) = (λ e. cc, refl)
caught_keeps (ends (err exception), s) = (λ e. cc, refl)
caught_keeps (ends (ok _), s) = (λ e. cc, refl)
caught_keeps (keyboard_interrupt, s) = (λ e. cc, refl)

-- `main` raises nothing but a cancellation, and unlike the migration server it closes nothing: what
-- `start_server` has left listening it leaves listening.
receiver_main_keeps :
    (lib : Library) (d : Directory) (bound : Result None) (waited : Ending)
    → let (r, s) = main lib d bound waited in
      (r ≢ err exception) × (s ≡ (start_server lib d bound waited).1)
unfolding main
receiver_main_keeps lib d bound waited = caught_keeps (start_server lib d bound waited)
