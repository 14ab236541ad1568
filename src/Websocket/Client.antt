-- ===== src/Websocket/Client.antt =====
-- `MigrationWebSocketClient` of migrate-websocket/websocket-migration-client.py:
-- `handle_qemu_connection`, `cleanup_connection` and `start_unix_server`.
pub mod Cleanup
pub mod Race
pub mod Service
use migration_transport_hack.Base.{ℕ, Bool, true, false, List, [], ◌∷◌, snoc, if◌then◌else◌}
use migration_transport_hack.Dict.{Dict, insert, erase, contains, keys}
use migration_transport_hack.Async.{
  Result, ok, err, cancelled_error, Action, None, pure, modify, outside, ◌>>=◌, ◌>>◌, try_except,
  finally,
}
use migration_transport_hack.Proxy.{
  Task, unstarted, running, over, Waited, forth_done, back_done, both_done, wait_cancelled,
}

-- What a call that closes a socket of a connection is about.
pub data Closing : Type 0 where
  closes_websocket : ℕ → Closing
  closes_unix : ℕ → Closing

pub record Client : Type 0 where
  pub active_connections : Dict (Unit {0})
  pub closings : List Closing  -- the calls of `close`, oldest first
  pub unix_to_ws : Task  -- the tasks of the connection at hand
  pub ws_to_unix : Task
  pub socket_file : Bool  -- whether something stands at `unix_socket_path`

-- What closing each connection's sockets answers.
pub record Closers : Type 0 where
  pub websocket : ℕ → Result None  -- `websocket.close()`
  pub unix : ℕ → Result None  -- `unix_writer.wait_closed()`

abbrev log : Closing → Action Client None
log c = modify (λ s. record s { closings = snoc s.closings c })

-- An entry always has both of its sockets.
abbrev close_entry : Closers → ℕ → Action Client None
close_entry c i = do
  log (closes_websocket i)
  outside (c.websocket i)
  log (closes_unix i)
  outside (c.unix i)
  modify (λ s. record s { active_connections = erase i s.active_connections })

pub cleanup_connection : Closers → ℕ → Action Client None
cleanup_connection c i s = (if contains i s.active_connections then close_entry c i else pure tt) s

abbrev finish_tasks : Waited → Client → Result None × Client
finish_tasks forth_done s = (ok tt, record s { unix_to_ws = over })
finish_tasks back_done s = (ok tt, record s { ws_to_unix = over })
finish_tasks both_done s = (ok tt, record s { unix_to_ws = over; ws_to_unix = over })
finish_tasks wait_cancelled s = (err cancelled_error, s)

abbrev cancel : Task → Task
cancel running = over
cancel t = t

abbrev forward_until_closed : ℕ → Result None → Result None → Waited → Action Client None
forward_until_closed i context opening waited = do
  outside context
  outside opening
  modify (λ s. record s { active_connections = insert i tt s.active_connections })
  modify (λ s. record s { unix_to_ws = running; ws_to_unix = running })
  finish_tasks waited
  modify (λ s. record s { unix_to_ws = cancel s.unix_to_ws; ws_to_unix = cancel s.ws_to_unix })

-- `context` is the answer of `create_ssl_context`, `opening` that of `websockets.connect`.
pub handle_qemu_connection : ℕ → Result None → Result None → Waited → Closers → Action Client None
handle_qemu_connection i context opening waited c =
    finally (try_except false (forward_until_closed i context opening waited))
      (cleanup_connection c i)

-- The loop over `list(self.active_connections.keys())`.
pub cleanup_all : Closers → List ℕ → Action Client None
cleanup_all c [] = pure tt
cleanup_all c (i ∷ rest) = cleanup_connection c i >> cleanup_all c rest

abbrev unlink_existing : Action Client None
unlink_existing = modify (λ s. record s { socket_file = false })

-- The `finally` block of `start_unix_server`.
pub shut_down : Closers → Action Client None
shut_down c = (λ s. cleanup_all c (keys s.active_connections) s) >> unlink_existing

-- `start` is the answer of `asyncio.start_unix_server`. `serve` is what serving the connections does
-- to the client, with the answer of `serve_forever`.
pub start_unix_server : Closers → Result None → Action Client None → Action Client None
start_unix_server c start serve s =
    (do
      unlink_existing
      finally
          (try_except false
            (do outside start; modify (λ s. record s { socket_file = true }); serve))
          (shut_down c))
      s
