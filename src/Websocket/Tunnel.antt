-- ===== src/Websocket/Tunnel.antt =====
-- What the forwarding loops send, and the two of them end to end.
use migration_transport_hack.Base.{◌+◌, ◌≡◌, List, [], ◌∷◌, ◌++◌, map}
use migration_transport_hack.Forward.{Chunk}
use migration_transport_hack.Forward.Counts.{size}
use migration_transport_hack.Websocket.{
  binary, text, Progress, Incoming, arrives, write_raises, drain_raises, stops, Outgoing, reads,
  send_raises, stops_reading,
}

-- The binary messages up to the first failure or the end: a reference for `forward_ws_to_unix`.
abbrev pub payload : List Incoming → List Chunk
payload [] = []
payload (arrives (binary d) ∷ rest) = d ∷ payload rest
payload (arrives (text d) ∷ rest) = payload rest
payload (write_raises d ∷ rest) = []
payload (drain_raises d ∷ rest) = d ∷ []
payload (stops why ∷ rest) = []

-- The same without a last message whose `drain` raised.
abbrev pub drained : List Incoming → List Chunk
drained [] = []
drained (arrives (binary d) ∷ rest) = d ∷ drained rest
drained (arrives (text d) ∷ rest) = drained rest
drained (write_raises d ∷ rest) = []
drained (drain_raises d ∷ rest) = []
drained (stops why ∷ rest) = []

-- The chunks up to the end of the stream or the first failure.
abbrev pub stream : List Outgoing → List Chunk
stream [] = []
stream (reads [] ∷ rest) = []
stream (reads (b ∷ bs) ∷ rest) = (b ∷ bs) ∷ stream rest
stream (send_raises d ∷ rest) = []
stream (stops_reading why ∷ rest) = []

-- What a loop adds to its progress: the chunks that go out, and those that are counted.
abbrev pub Adds : Progress → List Chunk → List Chunk → Progress → Type 0
Adds p ds counted q = (q.sent ≡ p.sent ++ ds) × (q.total_bytes ≡ p.total_bytes + size counted)

-- A network that carries each `send` of bytes as one binary message, in order.
abbrev pub IsFaithful : (List Chunk → List Incoming) → Type 0
IsFaithful network = (ds : List Chunk) → network ds ≡ map (λ d. arrives (binary d)) ds
