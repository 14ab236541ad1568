-- ===== src/Tests/Mains.antt =====
-- The programs that wait for connections, to their end: the table of the websocket server, and the
-- mains of both clients.
use migration_transport_hack.Base.{
  ◌≡◌, ◌≢◌, ◌++◌, ◌≤◌, refl, true, false, none, some, List, [], ◌∷◌, length,
}
use migration_transport_hack.Histogram.{print_histogram}
use migration_transport_hack.Dict.{lookup}
use migration_transport_hack.Async.{ok, err, exception}
use migration_transport_hack.Forward.{Turn, read_returns, read_runs, start}
use migration_transport_hack.Forward as One
use migration_transport_hack.Forward.Order.{in_hand}
use migration_transport_hack.Forward.Bounded.{run_holds}
use migration_transport_hack.Proxy.System.{connects, links, turns, unix_to_tcp}
use migration_transport_hack.Proxy.System as Whole
use migration_transport_hack.Proxy.Service.{keyboard_interrupt}
use migration_transport_hack.Proxy.Client.{Listener}
use migration_transport_hack.Proxy.Client.Service.{main, reads_after, client_main_reports}
use migration_transport_hack.Websocket.Client.Service.{interrupted, client_main_cleans}
use migration_transport_hack.Websocket.Client.Service as Client_service
use migration_transport_hack.Websocket.Server.Roster.{Event, arrives, leaves, idle, run, step}
use migration_transport_hack.Websocket.Server.Roster.Laws.{IsExact, run-IsExact}
use migration_transport_hack.Tests.Websockets.{quiet, serving}

abbrev busy : List Turn
busy = read_returns (1 ∷ []) ∷ read_runs ∷ read_returns (2 ∷ []) ∷ []

run_holds_example :
    let s = One.run busy (start []) in
    (length s.queue.queue ≤ 1000) × (length (s.queue.queue ++ in_hand s.read_task) ≤ 1001)
run_holds_example = run_holds busy []

-- The first of three handlers ends before the third starts.
abbrev comings : List Event
comings = arrives 8 none ∷ arrives 9 (some []) ∷ leaves 1 ∷ arrives 8 none ∷ leaves 0 ∷ []

run-IsExact_example : IsExact (run comings idle)
unfolding step
run-IsExact_example = run-IsExact comings idle (tt, λ k. refl) (refl, (refl, (refl, tt)))

abbrev one_read : List Whole.Event
one_read = connects ∷ links 1 ∷ turns 1 unix_to_tcp (read_returns (7 ∷ [])) ∷ []

abbrev stale : Listener
stale = record { socket_file = true; serving = false }

client_main_reports_example : main (ok tt) one_read keyboard_interrupt stale ≡ record {
  result = ok tt;
  listener = record { socket_file = false; serving = false };
  printed = print_histogram (reads_after (ok tt) one_read) ∷ [];
}
client_main_reports_example = client_main_reports (ok tt) one_read keyboard_interrupt stale refl

client_main_cleans_example :
    let (r, s') = Client_service.main quiet (ok tt) (interrupted (λ s. s)) serving in
    (s'.socket_file ≡ false) × (lookup 5 s'.active_connections ≡ none) × (r ≢ err exception)
client_main_cleans_example =
    client_main_cleans quiet (ok tt) (interrupted (λ s. s)) serving 5 (λ i. (refl, refl))
