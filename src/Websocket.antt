-- ===== src/Websocket.antt =====
-- The websocket proxies of migrate-websocket: the two forwarding loops, which both programs have.
pub mod Tunnel
pub mod Server
pub mod Service
pub mod Client
use migration_transport_hack.Base.{
  ℕ, ◌+◌, ◌/◌, ◌%◌, List, [], ◌∷◌, length, snoc, ◌==◌, if◌then◌else◌,
}
use migration_transport_hack.Forward.{Chunk, Ending, completed, cancelled, failed, megabyte}

pub data Message : Type 0 where
  binary : Chunk → Message
  text : Chunk → Message  -- a `str`

-- What the loop of a forwarding coroutine has done so far.
pub record Progress : Type 0 where
  pub sent : List Chunk
  pub total_bytes : ℕ
  pub logged : List ℕ

abbrev pub begun : Progress
begun = record { sent = []; total_bytes = 0; logged = [] }

-- The chunk has gone out: the count, and a line for every total that is a whole number of MB.
pub account : Chunk → Progress → Progress
account d p =
    let total : ℕ = p.total_bytes + length d in
    record {
      sent = snoc p.sent d;
      total_bytes = total;
      logged = if total % megabyte == 0 then snoc p.logged (total / megabyte) else p.logged;
    }

-- What `async for message in websocket` brings next. The end of the list is the end of the loop.
pub data Incoming : Type 0 where
  arrives : Message → Incoming
  write_raises : Chunk → Incoming  -- a binary message whose `write` raises
  drain_raises : Chunk → Incoming  -- one that is written, and `drain` raises
  stops : Ending → Incoming  -- the loop is cancelled, or the websocket raises

-- `forward_ws_to_unix`
pub forward_ws_to_unix : List Incoming → Progress → Ending × Progress
unfolding account
forward_ws_to_unix [] p = (completed, p)
forward_ws_to_unix (arrives (binary d) ∷ rest) p = forward_ws_to_unix rest (account d p)
forward_ws_to_unix (arrives (text d) ∷ rest) p = forward_ws_to_unix rest p
forward_ws_to_unix (write_raises d ∷ rest) p = (failed, p)
forward_ws_to_unix (drain_raises d ∷ rest) p = (failed, record p { sent = snoc p.sent d })
forward_ws_to_unix (stops why ∷ rest) p = (why, p)

-- What `unix_reader.read(8192)` and the `send` after it come to. The end of the list is a stream
-- that has ended, as is the empty chunk.
pub data Outgoing : Type 0 where
  reads : Chunk → Outgoing
  send_raises : Chunk → Outgoing
  stops_reading : Ending → Outgoing

-- `forward_unix_to_ws`
pub forward_unix_to_ws : List Outgoing → Progress → Ending × Progress
unfolding account
forward_unix_to_ws [] p = (completed, p)
forward_unix_to_ws (reads [] ∷ rest) p = (completed, p)
forward_unix_to_ws (reads (b ∷ bs) ∷ rest) p = forward_unix_to_ws rest (account (b ∷ bs) p)
forward_unix_to_ws (send_raises d ∷ rest) p = (failed, p)
forward_unix_to_ws (stops_reading why ∷ rest) p = (why, p)
