-- ===== src/Perf/Receive.antt =====
-- The receivers: `handle_client` and `handle_client_unix` of proxy-perf/tcp/receive.py; in the child
-- Messages, `handle_client` of proxy-perf/websocket/receive.py.
pub mod Laws
pub mod Messages
use migration_transport_hack.Base.{
  ℕ, ◌+◌, ◌-◌, Bool, true, false, List, [], ◌∷◌, length, snoc, ltb, ◌==◌, ◌&&◌, if◌then◌else◌,
}
use migration_transport_hack.Async.{
  Raised, cancelled_error, exception, Result, ok, err, None, swallow, after_finally,
}
use migration_transport_hack.Forward.{Chunk}
use migration_transport_hack.Proxy.{Socket, absent, live, closed}
use migration_transport_hack.Perf.Meter.{Meter, started, count, report_progress}
use migration_transport_hack.Perf.Send.{Final}

-- What a round of a receiving loop meets. The clock is read after a chunk has been counted.
pub data Event : Type 0 where
  receives : Chunk → ℕ → Event  -- `recv` returns; the empty chunk is the end of the stream
  nothing_yet : Event  -- `SSLWantReadError`, or a timeout: `continue`
  disconnects : Event  -- `ConnectionResetError` or another `SSLError`
  forward_raises : Chunk → Event  -- `recv` returns, and `unix_sock.sendall` raises
  breaks : Event  -- another exception

-- How a loop ended: by a `break`, by an exception that leaves it, or not yet.
pub data Stop : Type 0 where
  stopped : Stop
  raised : Stop
  receiving : Stop

pub record Received : Type 0 where
  pub meter : Meter
  pub forwarded : List Chunk  -- what `sendall` has taken, oldest first

abbrev pub nothing_received : ℕ → Received
nothing_received now = record { meter = started now; forwarded = [] }

unfoldable pub received : Chunk → ℕ → Received → Received
received d now r = record r { meter = report_progress now (count (length d) r.meter) }

unfoldable pub forward : Chunk → ℕ → Received → Received
unfolding received
forward d now r = received d now (record r { forwarded = snoc r.forwarded d })

-- The loop of `handle_client`. An exception that it does not name leaves it.
pub receive_loop : List Event → Received → Stop × Received
unfolding received
receive_loop [] r = (receiving, r)
receive_loop (receives [] now ∷ rest) r = (stopped, r)
receive_loop (receives (b ∷ bs) now ∷ rest) r = receive_loop rest (received (b ∷ bs) now r)
receive_loop (nothing_yet ∷ rest) r = receive_loop rest r
receive_loop (disconnects ∷ rest) r = (stopped, r)
receive_loop (forward_raises d ∷ rest) r = (raised, r)
receive_loop (breaks ∷ rest) r = (raised, r)

-- The loop of `handle_client_unix`. It breaks on every other exception.
pub forward_loop : List Event → Received → Stop × Received
unfolding forward
forward_loop [] r = (receiving, r)
forward_loop (receives [] now ∷ rest) r = (stopped, r)
forward_loop (receives (b ∷ bs) now ∷ rest) r = forward_loop rest (forward (b ∷ bs) now r)
forward_loop (nothing_yet ∷ rest) r = forward_loop rest r
forward_loop (disconnects ∷ rest) r = (stopped, r)
forward_loop (forward_raises d ∷ rest) r = (stopped, r)
forward_loop (breaks ∷ rest) r = (stopped, r)

-- The numbers that the `finally` block prints: none without data, and with data a division by
-- zero if no time has passed.
pub data Results : Type 0 where
  no_results : Results
  printed : Final → Results
  zero_division : Results

pub final_results : ℕ → Meter → Results
final_results now m =
    if m.bytes == 0
    then no_results
    else if now == m.start_time
    then zero_division
    else printed (record { total_time = now - m.start_time; bytes = m.bytes; chunks = m.chunks })

-- A handler: whether it is over, its results, what came in, and its sockets.
pub record Handled : Type 0 where
  pub stop : Stop
  pub results : Results
  pub received : Received
  pub ssl_sock : Socket
  pub unix_sock : Socket

-- The `finally` block, with the clock in it: the sockets are closed after the results.
abbrev sockets_after : Results → Socket → Socket
sockets_after zero_division socket = socket
sockets_after _ absent = absent
sockets_after _ _ = closed

abbrev finish_after : Stop → Results → Received → Socket → Handled
finish_after receiving f r unix = record {
  stop = receiving;
  results = no_results;
  received = r;
  ssl_sock = live;
  unix_sock = unix;
}
finish_after stop f r unix = record {
  stop = stop;
  results = f;
  received = r;
  ssl_sock = sockets_after f live;
  unix_sock = sockets_after f unix;
}

-- How a handler ends, from how its loop did.
pub finish : ℕ → Socket → Stop × Received → Handled
unfolding final_results
finish over unix (stop, r) = finish_after stop (final_results over r.meter) r unix

-- `now` is the clock at the start, `over` the one in the `finally` block.
unfoldable pub handle_client : List Event → ℕ → ℕ → Handled
handle_client events now over = finish over absent (receive_loop events (nothing_received now))

-- `connecting` is the answer of `unix_sock.connect`. Without a connection the handler closes the
-- client's socket and returns.
pub handle_client_unix : Result None → List Event → ℕ → ℕ → Handled
handle_client_unix (err e) events now over = record {
  stop = stopped;
  results = no_results;
  received = nothing_received now;
  ssl_sock = closed;
  unix_sock = closed;
}
handle_client_unix (ok _) events now over =
    finish over live (forward_loop events (nothing_received now))
