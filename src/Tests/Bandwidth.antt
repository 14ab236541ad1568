-- ===== src/Tests/Bandwidth.antt =====
-- The bandwidth tests at chosen clocks.
use migration_transport_hack.Base.{
  true, ◌⊎◌, ◌+◌, ◌*◌, ◌/◌, ℕ, ◌≡◌, refl, false, some, List, [], ◌∷◌,
}
use migration_transport_hack.Async.{None, Result, ok}
use migration_transport_hack.Perf.Meter.{second, count, report_progress}
use migration_transport_hack.Proxy.{live}
use migration_transport_hack.Perf.Unix.{
  Round as UnixRound, Turn, relays, loses, idles, relay_loop, relay_round, benchmark_send_unix,
  receive_data,
}
use migration_transport_hack.Websocket.{binary, text}
use migration_transport_hack.Perf.Receive.Messages.{Arrival, message, connection_closed}
use migration_transport_hack.Perf.Unix.Laws.{all_ok, picked, Leaves, benchmark_send_unix-Leaves}
use migration_transport_hack.Perf.Unix.Receiving.{both_ok, taken, receive_data-Leaves}
use migration_transport_hack.Perf.Receive.{
  stopped, forward, received, printed, Event, receives, nothing_yet,
}
use migration_transport_hack.Perf.Send.{
  Round, reported, send_loop, send_data, is_limited, benchmark_send, send_chunk,
}
use migration_transport_hack.Perf.Send.Laws.{IsSound, benchmark_send-IsSound}

abbrev sends : ℕ → ℕ → Round
sends check now = record { check = check; sending = ok tt; now = now }

-- Three rounds of a test of two seconds, and the one that finds it over.
abbrev rounds : List Round
rounds =
    sends 0 (second / 2)
    ∷ sends (second / 2) second
    ∷ sends second (second + 1)
    ∷ sends (2 * second) (2 * second)
    ∷ []

send_data_result :
    (send_data (ok tt) (2 * second) 0 rounds).ending
    ≡ reported (record { total_time = 2 * second; bytes = 24576; chunks = 3 })
unfolding send_data send_loop send_chunk count report_progress
send_data_result = refl

benchmark_send-IsSound_example :
    IsSound
      (is_limited (some 100))
      0
      3
      (some (ok (2 * second)))
      (benchmark_send (ok tt) (ok tt) (ok tt) (some 100) (2 * second) 0 rounds)
benchmark_send-IsSound_example =
    benchmark_send-IsSound (ok tt) (ok tt) (ok tt) (some 100) (2 * second) 0 rounds

abbrev connects : Result None
connects = ok tt

abbrev arrivals : List Event
arrivals =
    receives (1 ∷ 2 ∷ []) 3
    ∷ nothing_yet
    ∷ receives (3 ∷ []) second
    ∷ receives [] second
    ∷ receives (4 ∷ []) second
    ∷ []

-- A text message is not counted, and what comes after the end is not received.
abbrev messages : List Arrival
messages =
    message (binary (1 ∷ 2 ∷ [])) 1
    ∷ message (text (7 ∷ [])) 2
    ∷ message (binary (3 ∷ [])) second
    ∷ connection_closed
    ∷ message (binary (4 ∷ [])) second
    ∷ []

-- One chunk is relayed, one is lost to a `socket.error`, and the clock then runs out.
abbrev turns : List Turn
turns =
    record { check = 0; pick = relays (1 ∷ 2 ∷ []) 1 }
    ∷ record { check = 2; pick = loses (3 ∷ []) }
    ∷ record { check = 3; pick = idles second }
    ∷ record { check = 2 * second; pick = relays (4 ∷ []) (2 * second) }
    ∷ []

relay_result :
    (benchmark_send_unix connects connects connects (2 * second) 0 (2 * second) turns).results
    ≡ printed (record { total_time = 2 * second; bytes = 2; chunks = 1 })
unfolding benchmark_send_unix relay_loop relay_round forward received count report_progress
relay_result = refl

benchmark_send_unix-Leaves_example :
    let l = benchmark_send_unix connects connects connects (2 * second) 0 (2 * second) turns in
    ((all_ok connects connects connects ≡ true)
      × (l.received.forwarded ≡ picked (2 * second) turns)
      × Leaves 0 (2 * second) (picked (2 * second) turns) stopped l)
    ⊎ ((all_ok connects connects connects ≡ false)
        × (l.received.forwarded ≡ [])
        × (l.server ≡ live)
        × (l.socket_file ≡ true))
benchmark_send_unix-Leaves_example =
    benchmark_send_unix-Leaves connects connects connects (2 * second) 0 (2 * second) turns

-- A signal comes after the second chunk.
abbrev heard : List UnixRound
heard =
    record { running = true; check = 0; event = receives (1 ∷ []) 1 }
    ∷ record { running = true; check = 1; event = nothing_yet }
    ∷ record { running = true; check = second; event = receives (2 ∷ 3 ∷ []) second }
    ∷ record { running = false; check = second; event = nothing_yet }
    ∷ []

receive_data-Leaves_example :
    let l = receive_data connects connects (9 * second) 0 second heard in
    ((both_ok connects connects ≡ true) × Leaves 0 second (taken (9 * second) heard) stopped l)
    ⊎ ((both_ok connects connects ≡ false) × (l.server ≡ live))
receive_data-Leaves_example = receive_data-Leaves connects connects (9 * second) 0 second heard
