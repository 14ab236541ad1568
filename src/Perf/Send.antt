-- ===== src/Perf/Send.antt =====
-- The senders: `UnixSender.send_data` of proxy-perf/tcp/unix-sender.py, `benchmark_send` of
-- proxy-perf/tcp/send.py and of proxy-perf/websocket/send.py.
pub mod Laws
pub mod Outcome
use migration_transport_hack.Base.{
  ℕ, ◌+◌, ◌-◌, Option, none, some, Bool, true, false, List, [], ◌∷◌, ltb, ◌==◌, if◌then◌else◌,
}
use migration_transport_hack.Async.{Raised, exception, cancelled_error, Result, ok, err, None}
use migration_transport_hack.Proxy.{Socket, absent, live, closed}
use migration_transport_hack.Perf.Meter.{Meter, started, count, report_progress}

abbrev pub chunk_size : ℕ
chunk_size = 8192

-- What a round of a sending loop meets: the clock at the test of the `while`, the answer of the
-- send and of the sleep, and the clock that is read next (after the loop, if the test fails).
pub record Round : Type 0 where
  pub check : ℕ
  pub sending : Result None
  pub now : ℕ

pub record Sent : Type 0 where
  pub meter : Meter
  pub pauses : ℕ  -- how often the loop has slept for `send_delay`

-- The final statistics: the rates are quotients by `total_time`.
pub record Final : Type 0 where
  pub total_time : ℕ
  pub bytes : ℕ
  pub chunks : ℕ

pub data Ending : Type 0 where
  reported : Final → Ending
  failed : Raised → Ending
  sending_on : Ending  -- the rounds so far have not ended the loop

-- `sendall(test_data)` and what follows it in the body
unfoldable pub send_chunk : Bool → ℕ → Sent → Sent
send_chunk limited now s = record {
  meter = report_progress now (count chunk_size s.meter);
  pauses = if limited then s.pauses + 1 else s.pauses;
}

-- With no time passed the average is a division by zero.
abbrev pub final_statistics : ℕ → Meter → Ending
final_statistics now m =
    if now == m.start_time
    then failed exception
    else reported (record { total_time = now - m.start_time; bytes = m.bytes; chunks = m.chunks })

-- `while time.time() - start_time < duration_seconds`, and the statistics after it
unfoldable pub send_loop : Bool → ℕ → List Round → Sent → Ending × Sent
unfolding send_chunk
send_loop limited duration [] s = (sending_on, s)
send_loop limited duration (r ∷ rounds) s = elim (ltb r.check (s.meter.start_time + duration)) [
  | false ↦ (final_statistics r.now s.meter, s)
  | true ↦ elim r.sending [
    | err e ↦ (failed e, s)
    | ok _ ↦ send_loop limited duration rounds (send_chunk limited r.now s)
  ]
]

abbrev pub nothing_sent : ℕ → Sent
nothing_sent now = record { meter = started now; pauses = 0 }

-- A run of a benchmark: how its loop ended, what was sent, what is left of the socket.
pub record Benchmark : Type 0 where
  pub ending : Ending
  pub sent : Sent
  pub socket : Socket

-- `finally: sock.close()`; a test that still sends has its socket open.
abbrev close_socket : Ending → Socket → Socket
close_socket sending_on socket = socket
close_socket _ absent = absent
close_socket _ _ = closed

abbrev over_socket : Socket → Ending × Sent → Benchmark
over_socket socket (ending, sent) = record {
  ending = ending;
  sent = sent;
  socket = close_socket ending socket;
}

-- The `try` of every sender: connect on a socket that exists, take the time, send.
abbrev pub run_benchmark : Result None → Bool → ℕ → ℕ → List Round → Benchmark
run_benchmark (err e) limited duration now rounds = over_socket live (failed e, nothing_sent now)
run_benchmark (ok _) limited duration now rounds =
    over_socket live (send_loop limited duration rounds (nothing_sent now))

-- `UnixSender.send_data`: `connecting` is the answer of `sock.connect`.
unfoldable pub send_data : Result None → ℕ → ℕ → List Round → Benchmark
unfolding send_loop
send_data connecting duration now rounds = run_benchmark connecting false duration now rounds

-- `send_delay > 0`, for a target in whole MBps
pub is_limited : Option ℕ → Bool
is_limited none = false
is_limited (some target) = ltb 0 target

abbrev no_socket : ℕ → Raised → Benchmark
no_socket now e = record { ending = failed e; sent = nothing_sent now; socket = absent }

-- `TCPSender.benchmark_send`: `context` is the answer of `create_ssl_context`, `wrapping` that of
-- making the socket.
pub benchmark_send :
    Result None → Result None → Result None → Option ℕ → ℕ → ℕ → List Round → Benchmark
unfolding send_loop is_limited
benchmark_send (err e) wrapping connecting target duration now rounds = no_socket now e
benchmark_send (ok _) (err e) connecting target duration now rounds = no_socket now e
benchmark_send (ok _) (ok _) connecting target duration now rounds =
    run_benchmark connecting (is_limited target) duration now rounds

-- `WebSocketSender.benchmark_send`: the `async with` connects and closes.
pub websocket_benchmark_send : Result None → Result None → Option ℕ → ℕ → ℕ → List Round → Benchmark
unfolding send_loop is_limited
websocket_benchmark_send (err e) connecting target duration now rounds = no_socket now e
websocket_benchmark_send (ok _) (err e) target duration now rounds = no_socket now e
websocket_benchmark_send (ok _) (ok _) target duration now rounds =
    run_benchmark (ok tt) (is_limited target) duration now rounds
