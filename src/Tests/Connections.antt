-- ===== src/Tests/Connections.antt =====
-- One connection of the TCP server on small schedules, and what the mains leave.
use migration_transport_hack.Base.{◌≡◌, refl, List, [], ◌∷◌, ◌++◌, arith}
use migration_transport_hack.Histogram.{count_read}
use migration_transport_hack.Async.{ok, err, exception}
use migration_transport_hack.Queue.{put, get, close}
use migration_transport_hack.Forward.{
  received, on_write, write_round, deliver, write, read_returns, read_runs, write_runs, start,
  finished, cancel_both, on_write_cancel,
}
use migration_transport_hack.Forward as One
use migration_transport_hack.Forward.Order.{reads}
use migration_transport_hack.Proxy.System as Whole
use migration_transport_hack.Proxy.System.{tcp_to_unix, unix_to_tcp, idle, connects, links}
use migration_transport_hack.Proxy.Service.{main, keyboard_interrupt, ends}
use migration_transport_hack.Proxy.Service.Unordered.{SameSizes-printed}
use migration_transport_hack.Connect.{connect_to_unix_socket}
use migration_transport_hack.Proxy.{Answers}
use migration_transport_hack.Proxy.Server.{handle_client}
use migration_transport_hack.Proxy.Session.Liveness.{connection-Ends}
use migration_transport_hack.Proxy.Session.Refines.{Matches, session_refines}
use migration_transport_hack.Tests.Handlers.{late}
use migration_transport_hack.Proxy.Session.{wakes, linked, Event, turns, cancelled, run, step}
use migration_transport_hack.Proxy.Session.Silence.{closed_silent}
use migration_transport_hack.Proxy.Session.Closing.{turns_at}
use migration_transport_hack.Proxy.Session.Ending.{ending, Ends, first_direction}

-- QEMU's answer is still in the queue when the stream to QEMU ends.
abbrev halfway : List Event
halfway =
    turns tcp_to_unix (read_returns (1 ∷ 2 ∷ []))
    ∷ turns tcp_to_unix read_runs
    ∷ turns unix_to_tcp (read_returns (5 ∷ []))
    ∷ turns unix_to_tcp read_runs
    ∷ turns tcp_to_unix (read_returns [])
    ∷ turns tcp_to_unix read_runs
    ∷ turns tcp_to_unix write_runs
    ∷ turns tcp_to_unix write_runs
    ∷ []

abbrev afterwards : List Event
afterwards = turns unix_to_tcp write_runs ∷ cancelled ∷ turns tcp_to_unix write_runs ∷ []

first_direction_example :
    let s = run halfway (linked []) in
    let r = run afterwards (step wakes s) in
    (s.forth.written ≡ reads (turns_at tcp_to_unix halfway) (start []))
    × ((r.forth.written ≡ s.forth.written) × (r.back.written ≡ s.back.written))
    × Ends s (run ending s)
unfolding run step One.step received on_write write_round deliver write put get close count_read
    finished
first_direction_example =
    first_direction [] halfway afterwards tcp_to_unix refl refl refl (omega arith)

-- The stream to QEMU has been read to its end, and a chunk of it is queued.
abbrev read_out : List Event
read_out =
    turns tcp_to_unix (read_returns (1 ∷ 2 ∷ []))
    ∷ turns tcp_to_unix read_runs
    ∷ turns tcp_to_unix (read_returns [])
    ∷ turns tcp_to_unix read_runs
    ∷ []

abbrev slowly : List Event
slowly =
    turns unix_to_tcp (read_returns (5 ∷ []))
    ∷ turns tcp_to_unix write_runs
    ∷ turns unix_to_tcp write_runs
    ∷ turns tcp_to_unix write_runs
    ∷ []

connection-Ends_example :
    let s = run read_out (linked []) in
    let t = run slowly s in
    (t.forth.written ≡ s.forth.written ++ s.forth.queue.queue) × Ends t (run ending t)
unfolding run step One.step received on_write write_round deliver write put get close count_read
connection-Ends_example =
    connection-Ends [] read_out slowly tcp_to_unix refl refl refl tt tt (omega arith)

closed_silent_example :
    let s = run (halfway ++ ending) (linked []) in
    ((run afterwards s).forth.written ≡ s.forth.written)
    × ((run afterwards s).back.written ≡ s.back.written)
unfolding run step One.step received on_write write_round deliver write put get close count_read
    finished cancel_both on_write_cancel
closed_silent_example = closed_silent [] (halfway ++ ending) afterwards refl refl

session_refines_example :
    (a : Answers) × (let (r, t) = (handle_client late a (record { connection_counter = 4 })).1 in
      Matches (run (halfway ++ ending) (linked [])) r t)
unfolding run step One.step received on_write write_round deliver write put get close count_read
    finished cancel_both on_write_cancel connect_to_unix_socket
session_refines_example =
    session_refines late (record { connection_counter = 4 }) 2 [] (halfway ++ ending) refl refl

-- Two clients, one of which sends one byte and one two, and the other way round.
abbrev one_two : List Whole.Event
one_two =
    connects
    ∷ links 1
    ∷ connects
    ∷ links 2
    ∷ Whole.turns 1 tcp_to_unix (read_returns (7 ∷ []))
    ∷ Whole.turns 2 tcp_to_unix (read_returns (8 ∷ 9 ∷ []))
    ∷ []

abbrev two_one : List Whole.Event
two_one =
    connects
    ∷ links 1
    ∷ Whole.turns 1 unix_to_tcp (read_returns (8 ∷ 9 ∷ []))
    ∷ Whole.turns 1 unix_to_tcp read_runs
    ∷ Whole.turns 1 unix_to_tcp (read_returns (3 ∷ []))
    ∷ []

SameSizes-printed_example :
    (main (ok tt) one_two keyboard_interrupt).1.printed
    ≡ (main (ok tt) two_one (ends (err exception))).1.printed
unfolding Whole.step One.step received put count_read
SameSizes-printed_example =
    SameSizes-printed one_two two_one keyboard_interrupt (ends (err exception)) (λ k. ground arith)
