-- ===== src/Websocket/Service/Laws.antt =====
-- Whom the websocket server admits while it listens, and when `main` closes it.
use migration_transport_hack.Base.{◌≡◌, ◌≢◌, refl, ◌⊎◌, inl, inr, Option, arith}
use migration_transport_hack.Async.{Result, ok, err, None}
use migration_transport_hack.Certificates.{Directory}
use migration_transport_hack.Ssl.{
  client_auth, Context, Made, made, raised, Library, server_context, Presented, admits,
}
use migration_transport_hack.Ssl.Laws.{presents, is_own, server_context-admits}
use migration_transport_hack.Websocket.Service.{
  open_server, closed_server, Ending, ends, keyboard_interrupt, start, stop, main, start_with,
}

start_with_open :
    (m : Made) (bound : Result None) (waited : Ending) (c : Context)
    → (start_with m bound waited).1 ≡ open_server c
    → m ≡ made c
start_with_open (made b) (ok _) (ends (ok _)) c e = cc
start_with_open (made b) (ok _) (ends (err x)) c e = ground arith
start_with_open (made b) (ok _) keyboard_interrupt c e = ground arith
start_with_open (made b) (err x) waited c e = cc
start_with_open (raised x) bound waited c e = cc

-- A server that `start` leaves listening admits just the clients that present a certificate of the
-- authority in `ca.pem`, in date and usable by a client: it never listens without a context that
-- requires one.
admits-start :
    (lib : Library) (d : Directory) (bound : Result None) (waited : Ending) (c : Context)
    (p : Option Presented)
    → (start lib d bound waited).1 ≡ open_server c
    → admits c p ≡ presents is_own client_auth p
unfolding start
admits-start lib d bound waited c p e =
    server_context-admits lib d c p (start_with_open (server_context lib d) bound waited c e)

-- Where `wait_closed` does not return, `main` closes the server just where `KeyboardInterrupt`
-- leaves `start` itself; a cancellation or an exception leaves `main` with the server still open.
main_closes :
    (lib : Library) (d : Directory) (waited : Ending) (c : Context)
    → server_context lib d ≡ made c
    → waited ≢ ends (ok tt)
    → (main lib d (ok tt) waited ≡ (ends (ok tt), closed_server c)) × (waited ≡ keyboard_interrupt)
      ⊎ (main lib d (ok tt) waited ≡ (waited, open_server c)) × (waited ≢ keyboard_interrupt)
unfolding main start stop
main_closes lib d (ends (ok tt)) c e h = absurd (h refl)
main_closes lib d (ends (err x)) c e h = inr (rw e refl, λ k. cc)
main_closes lib d keyboard_interrupt c e h = inl (rw e refl, refl)
