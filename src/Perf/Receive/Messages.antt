-- ===== src/Perf/Receive/Messages.antt =====
-- `WebSocketReceiver.handle_client` of proxy-perf/websocket/receive.py
use migration_transport_hack.Base.{ℕ, ◌≡◌, ◌⊎◌, inl, inr, refl, List, [], ◌∷◌}
use migration_transport_hack.Forward.{Chunk}
use migration_transport_hack.Websocket.{Message, binary, text}
use migration_transport_hack.Perf.Meter.Laws.{IsValid, started-IsValid}
use migration_transport_hack.Perf.Receive.{
  Stop, stopped, raised, receiving, Received, nothing_received, received, Results, no_results,
  final_results,
}
use migration_transport_hack.Perf.Receive.Laws.{
  Takes, none-Takes, more-Takes, received-IsValid, Sums, final_results-Sums,
}

-- What `async for message in websocket` brings next, with the clock that is read after a message.
pub data Arrival : Type 0 where
  message : Message → ℕ → Arrival
  ends : Arrival
  connection_closed : Arrival  -- `ConnectionClosed`
  fails : Arrival  -- another exception

-- The body of the `try`. Both handlers go on to the `finally` block.
pub message_loop : List Arrival → Received → Stop × Received
message_loop [] r = (receiving, r)
message_loop (message (binary d) now ∷ rest) r = message_loop rest (received d now r)
message_loop (message (text d) now ∷ rest) r = message_loop rest r
message_loop (ends ∷ rest) r = (stopped, r)
message_loop (connection_closed ∷ rest) r = (stopped, r)
message_loop (fails ∷ rest) r = (stopped, r)

abbrev results_of : ℕ → Stop × Received → Stop × Results
results_of over (receiving, r) = (receiving, no_results)
results_of over (stop, r) = (stop, final_results over r.meter)

-- `now` is the clock at the start, `over` the one in the `finally` block.
pub handle_messages : List Arrival → ℕ → ℕ → Stop × Results
unfolding message_loop
handle_messages arrivals now over = results_of over (message_loop arrivals (nothing_received now))

-- The binary messages before the end.
abbrev pub binaries : List Arrival → List Chunk
binaries [] = []
binaries (message (binary d) now ∷ rest) = d ∷ binaries rest
binaries (message (text d) now ∷ rest) = binaries rest
binaries (_ ∷ rest) = []

message_loop-Takes :
    (arrivals : List Arrival) (r : Received)
    → IsValid r.meter
    → Takes (binaries arrivals) r (message_loop arrivals r).1
unfolding message_loop
message_loop-Takes [] r v = none-Takes r v
message_loop-Takes (message (binary d) now ∷ rest) r v =
    more-Takes d now (binaries rest) r _
      (message_loop-Takes rest (received d now r) (received-IsValid d now r v))
message_loop-Takes (message (text d) now ∷ rest) r v = message_loop-Takes rest r v
message_loop-Takes (ends ∷ rest) r v = none-Takes r v
message_loop-Takes (connection_closed ∷ rest) r v = none-Takes r v
message_loop-Takes (fails ∷ rest) r v = none-Takes r v

results_of-Sums :
    (now over : ℕ) (ds : List Chunk) (p : Stop × Received)
    → Takes ds (nothing_received now) p.1
    → let (stop, results) = results_of over p in (stop ≡ receiving) ⊎ Sums now over ds results
results_of-Sums now over ds (receiving, r) t = inl refl
results_of-Sums now over ds (stopped, r) t = inr (final_results-Sums now over ds r t)
results_of-Sums now over ds (raised, r) t = inr (final_results-Sums now over ds r t)

-- The websocket receiver, on any arrivals: it still receives, or its results sum up exactly the
-- binary messages that came before the end or the first exception; they are a division by zero when
-- bytes have come in and no time has passed, and there are none when no byte has come in.
handle_messages-Sums :
    (arrivals : List Arrival) (now over : ℕ)
    → let (stop, results) = handle_messages arrivals now over in
      (stop ≡ receiving) ⊎ Sums now over (binaries arrivals) results
unfolding handle_messages
handle_messages-Sums arrivals now over =
    results_of-Sums now over (binaries arrivals) (message_loop arrivals (nothing_received now))
      (message_loop-Takes arrivals (nothing_received now) (started-IsValid now))
