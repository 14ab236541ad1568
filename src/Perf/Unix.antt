-- ===== src/Perf/Unix.antt =====
-- The two ends of proxy-perf/tcp that listen on a unix socket: `UnixReceiver.receive_data` of
-- unix-receiver.py, and `TCPSender.benchmark_send_unix` of send.py, which relays to TLS what a unix
-- client sends.
pub mod Laws
pub mod Receiving
pub mod Stops
use migration_transport_hack.Base.{ℕ, ◌+◌, ◌-◌, ◌&&◌, Bool, true, false, List, [], ◌∷◌, ltb}
use migration_transport_hack.Async.{Raised, Result, ok, err, None}
use migration_transport_hack.Forward.{Chunk}
use migration_transport_hack.Proxy.{Socket, absent, live, closed}
use migration_transport_hack.Perf.Meter.{Meter, report_progress}
use migration_transport_hack.Perf.Send.{Final}
use migration_transport_hack.Perf.Receive.{
  Event, receives, nothing_yet, disconnects, forward_raises, breaks, Stop, stopped, raised,
  receiving, Received, nothing_received, received, forward, Results, no_results, printed,
}

-- A round of the loop of `receive_data`: the test of the `while`, and what `recv` comes to.
pub record Round : Type 0 where
  pub running : Bool
  pub check : ℕ
  pub event : Event

-- Every exception but the timeout ends the loop with a `break`.
pub receive_round : Event → (Received → Stop × Received) → Received → Stop × Received
receive_round (receives [] now) go_on r = (stopped, r)
receive_round (receives (b ∷ bs) now) go_on r = go_on (received (b ∷ bs) now r)
receive_round nothing_yet go_on r = go_on r
receive_round disconnects go_on r = (stopped, r)
receive_round (forward_raises d) go_on r = (stopped, r)
receive_round breaks go_on r = (stopped, r)

-- `while self.running and (time.time() - start_time < duration_seconds)`
pub timed_loop : ℕ → List Round → Received → Stop × Received
timed_loop duration [] r = (receiving, r)
timed_loop duration (t ∷ rest) r = elim (t.running && ltb t.check (r.meter.start_time + duration)) [
  | false ↦ (stopped, r)
  | true ↦ receive_round t.event (timed_loop duration rest) r
]

-- What a round of `benchmark_send_unix` comes to.
pub data Pick : Type 0 where
  relays : Chunk → ℕ → Pick  -- `recv` and `sendall` return; the empty chunk is the end
  idles : ℕ → Pick  -- `select` finds nothing ready
  loses : Chunk → Pick  -- `recv` returns, and `sendall` raises a `socket.error`
  passes : Pick  -- `select` or `recv` raises one
  fails : Pick  -- another exception

pub record Turn : Type 0 where
  pub check : ℕ
  pub pick : Pick

-- `except socket.error: pass`
unfoldable pub relay_round : Pick → (Received → Stop × Received) → Received → Stop × Received
relay_round (relays [] now) go_on r = (stopped, r)
relay_round (relays (b ∷ bs) now) go_on r = go_on (forward (b ∷ bs) now r)
relay_round (idles now) go_on r = go_on (record r { meter = report_progress now r.meter })
relay_round (loses d) go_on r = go_on r
relay_round passes go_on r = go_on r
relay_round fails go_on r = (raised, r)

unfoldable pub relay_loop : ℕ → List Turn → Received → Stop × Received
relay_loop duration [] r = (receiving, r)
relay_loop duration (t ∷ rest) r = elim (ltb t.check (r.meter.start_time + duration)) [
  | false ↦ (stopped, r)
  | true ↦ relay_round t.pick (relay_loop duration rest) r
]

-- What a call leaves: its results, what came in, its sockets, and the file of the unix socket.
pub record Left : Type 0 where
  pub stop : Stop
  pub results : Results
  pub received : Received
  pub client : Socket
  pub server : Socket
  pub ssl_sock : Socket
  pub socket_file : Bool

-- Both functions guard their averages against a division by zero.
abbrev totals : ℕ → Meter → Results
totals over m =
    printed (record { total_time = over - m.start_time; bytes = m.bytes; chunks = m.chunks })

abbrev results_of : Stop → ℕ → Meter → Results
results_of stopped over m = totals over m
results_of _ over m = no_results

-- The `finally` block: `client.close()` comes first, and where there is no client its `NameError`
-- is swallowed with all that follows.
abbrev finish : Left → Left
finish l = elim l.client [
  | absent ↦ l
  | _ ↦ record l {
    client = closed;
    server = closed;
    ssl_sock = close l.ssl_sock;
    socket_file = false;
  }
]
  where
    close : Socket → Socket
    close absent = absent
    close _ = closed

abbrev pub over_at : ℕ → Socket → Stop × Received → Left
over_at over ssl (receiving, r) = record {
  stop = receiving;
  results = no_results;
  received = r;
  client = live;
  server = live;
  ssl_sock = ssl;
  socket_file = true;
}
over_at over ssl (stop, r) = finish (record {
  stop = stop;
  results = results_of stop over r.meter;
  received = r;
  client = live;
  server = live;
  ssl_sock = ssl;
  socket_file = true;
})

abbrev broken : Socket → Bool → ℕ → Left
broken ssl file now = finish (record {
  stop = raised;
  results = no_results;
  received = nothing_received now;
  client = absent;
  server = live;
  ssl_sock = ssl;
  socket_file = file;
})

-- `binding` is the answer of `bind` and `listen`, `accepting` that of `accept`.
pub receive_data : Result None → Result None → ℕ → ℕ → ℕ → List Round → Left
receive_data (err e) accepting duration now over rounds = broken absent false now
receive_data (ok _) (err e) duration now over rounds = broken absent true now
receive_data (ok _) (ok _) duration now over rounds =
    over_at over absent (timed_loop duration rounds (nothing_received now))

-- Once the unix socket listens: `wrapping` makes the TLS socket and `connecting` connects it. The
-- pauses of a target bandwidth change nothing here.
unfoldable pub benchmark_send_unix :
    Result None → Result None → Result None → ℕ → ℕ → ℕ → List Turn → Left
benchmark_send_unix (err e) connecting accepting duration now over turns = broken absent true now
benchmark_send_unix (ok _) (err e) accepting duration now over turns = broken live true now
benchmark_send_unix (ok _) (ok _) (err e) duration now over turns = broken live true now
benchmark_send_unix (ok _) (ok _) (ok _) duration now over turns =
    over_at over live (relay_loop duration turns (nothing_received now))
