-- ===== src/Tests/Systems.antt =====
-- Whole programs on small schedules: the TCP server with its connections, the chain of two proxies,
-- and two calls of `cleanup_connection` for one connection.
use migration_transport_hack.Base.{
  ◌≡◌, ◌≢◌, ◌⊎◌, inl, inr, refl, true, false, none, some, List, [], ◌∷◌, ◌++◌, arith, ◌==◌,
  if◌then◌else◌, map,
}
use migration_transport_hack.Histogram.{Histogram, count_read, print_histogram}
use migration_transport_hack.Async.{ok}
use migration_transport_hack.Queue.{put, get, close}
use migration_transport_hack.Forward.{
  Forward, received, on_write, write_round, deliver, write, Turn, read_returns, read_runs,
  write_runs, read_cancelled, start, run, finished, step,
}
use migration_transport_hack.Forward.Shared.{share, counted}
use migration_transport_hack.Forward.Fair.{fair_finishes}
use migration_transport_hack.Proxy.System.{
  Side, tcp_to_unix, unix_to_tcp, System, idle, Event, connects, links, turns,
}
use migration_transport_hack.Proxy.System as Whole
use migration_transport_hack.Proxy.System.Private.{turns_of, run-alone}
use migration_transport_hack.Proxy.System.Shared.{all_reads}
use migration_transport_hack.Proxy.System.Delivery.{Passage, Has, taken_in, proxies_deliver}
use migration_transport_hack.Proxy.Chain.{bytes}
use migration_transport_hack.Proxy.Service.{main, keyboard_interrupt, closed_server}
use migration_transport_hack.Proxy.Service.Laws.{outcome, main_reports}
use migration_transport_hack.Websocket.Client.Race.{
  Race, closing_websocket, returned, key_error, begun, advance, ◌⟶*◌, here, more, handler_moves,
  shutdown_moves,
}
use migration_transport_hack.Websocket.Client.Race.Laws.{both_closing-fails}

-- A chunk comes while the write task waits, then the stream ends.
abbrev nearly : List Turn
nearly = write_runs ∷ read_returns (1 ∷ 2 ∷ []) ∷ read_runs ∷ read_returns [] ∷ read_runs ∷ []

-- A schedule with turns of the ended read task in between.
abbrev unhurried : List Turn
unhurried = read_runs ∷ write_runs ∷ read_returns (9 ∷ []) ∷ write_runs ∷ []

fair_finishes_example :
    let s = run nearly (start []) in
    let r = run unhurried s in (finished r ≡ true) × (r.written ≡ s.written ++ s.queue.queue)
unfolding run step received on_write write_round deliver write put get close count_read
fair_finishes_example = fair_finishes nearly unhurried [] refl refl tt (omega arith)

-- Two connections, whose turns alternate.
abbrev two_clients : List Event
two_clients =
    connects
    ∷ links 1
    ∷ connects
    ∷ turns 1 tcp_to_unix (read_returns (7 ∷ []))
    ∷ links 2
    ∷ turns 2 tcp_to_unix (read_returns (8 ∷ 9 ∷ []))
    ∷ turns 1 tcp_to_unix read_runs
    ∷ turns 2 tcp_to_unix read_cancelled
    ∷ turns 1 tcp_to_unix write_runs
    ∷ []

-- A server whose first connection has its tasks.
abbrev linked : System
linked = record {
  connection_counter = 1;
  read_histogram = [];
  forwards = λ i side. if i == 1 then some (start []) else none;
}

run-alone_example :
    (k : Histogram) × ((Whole.run two_clients linked).forwards 1 tcp_to_unix
      ≡ some (share k (run (turns_of 1 tcp_to_unix two_clients) (start []))))
run-alone_example = run-alone two_clients linked 1 tcp_to_unix (start []) [] refl

main_reports_example :
    let (r, s) = main (ok tt) two_clients keyboard_interrupt in
    (r ≡ outcome keyboard_interrupt)
    × (s.server ≡ closed_server)
    × (s.printed ≡ print_histogram (counted (all_reads two_clients idle) []) ∷ [])
main_reports_example = main_reports two_clients keyboard_interrupt

-- The near proxy has written one chunk, and the far one reads it in two parts.
abbrev near : List Turn
near =
    read_returns (1 ∷ 2 ∷ [])
    ∷ read_runs
    ∷ read_returns []
    ∷ read_runs
    ∷ write_runs
    ∷ write_runs
    ∷ []

abbrev far : List Turn
far =
    read_returns (1 ∷ [])
    ∷ read_runs
    ∷ read_returns (2 ∷ [])
    ∷ read_runs
    ∷ read_returns []
    ∷ read_runs
    ∷ write_runs
    ∷ write_runs
    ∷ write_runs
    ∷ []

-- The same turns, in proxies that serve other connections as well.
abbrev near_proxy : Passage
near_proxy = record {
  number = 1;
  side = unix_to_tcp;
  before = connects ∷ connects ∷ links 2 ∷ [];
  after =
      turns 2 unix_to_tcp (read_returns (9 ∷ [])) ∷ map (turns 1 unix_to_tcp) near
      ++ turns 2 unix_to_tcp read_cancelled ∷ [];
}

abbrev far_proxy : Passage
far_proxy = record {
  number = 2;
  side = tcp_to_unix;
  before = connects ∷ links 1 ∷ connects ∷ [];
  after = turns 1 tcp_to_unix (read_returns []) ∷ map (turns 2 tcp_to_unix) far;
}

proxies_deliver_example :
    (f : Forward) × (g : Forward) × Has near_proxy f
    × Has far_proxy g
    × (bytes g.written ≡ taken_in near_proxy)
    × (g.total_bytes ≡ f.total_bytes)
unfolding Whole.run Whole.step run step received on_write write_round deliver write put get close
    count_read
proxies_deliver_example =
    proxies_deliver near_proxy far_proxy refl refl (omega arith) (omega arith) refl refl refl

-- The shutdown begins while the handler is closing, and both go on in turn.
abbrev both : Race
both = record { tracked = true; handler = closing_websocket; shutdown = closing_websocket }

abbrev clash : Race
clash = record { tracked = false; handler = returned; shutdown = key_error }

both⟶*clash : both ⟶* clash
unfolding advance
both⟶*clash =
    more (more (more (more here (handler_moves refl)) (shutdown_moves refl)) (handler_moves refl))
      (shutdown_moves refl)

begun⟶*clash : begun ⟶* clash
unfolding advance
begun⟶*clash =
    more
      (more
        (more
          (more (more (more here (handler_moves refl)) (shutdown_moves refl)) (handler_moves refl))
          (shutdown_moves refl))
        (handler_moves refl))
      (shutdown_moves refl)

both_closing-fails_example : (clash.handler ≢ returned) ⊎ (clash.shutdown ≢ returned)
both_closing-fails_example =
    both_closing-fails {r = both} {s = clash} refl (inl refl) (inl refl) both⟶*clash (inl refl)
      (inr (inl refl))
