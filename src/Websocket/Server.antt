-- ===== src/Websocket/Server.antt =====
-- `MigrationWebSocketServer.handle_client` of migrate-websocket/websocket-migration-server.py
pub mod Cleanup
pub mod Roster
use text.Mathlib.Text.{◌==◌ as str_eq}
use migration_transport_hack.Base.{
  ℕ, String, Option, none, some, Bool, true, false, List, [], ◌∷◌, if◌then◌else◌,
}
use migration_transport_hack.Dict.{Dict, insert, erase}
use migration_transport_hack.Async.{
  Result, ok, err, cancelled_error, exception, Action, None, pure, modify, outside, ◌>>=◌, ◌>>◌,
  try_except, finally,
}
use migration_transport_hack.Connect.{Probe, Connection, create_unix_connection}
use migration_transport_hack.Proxy.{
  Socket, absent, live, closed, Task, unstarted, running, over, Waited, forth_done, back_done,
  both_done, wait_cancelled,
}
use migration_transport_hack.Proxy.Server.{as_result}

-- A relative distinguished name of a certificate: pairs of a key and a value.
abbrev pub Name : Type 0
Name = List (String × String)

-- The inner loop, left at the first `commonName`.
pub common_name : Name → Option String → Option String
common_name [] found = found
common_name ((key, value) ∷ rest) found =
    if str_eq key "commonName" then some value else common_name rest found

-- `client_cn`, over `client_cert.get('subject', [])`; the outer loop is not left early.
unfoldable pub client_cn_from : List Name → Option String → Option String
unfolding common_name
client_cn_from [] found = found
client_cn_from (item ∷ rest) found = client_cn_from rest (common_name item found)

unfoldable pub client_cn : Option (List Name) → Option String
unfolding client_cn_from
client_cn none = none
client_cn (some subject) = client_cn_from subject none

-- The connections that the server tracks, with the name in each certificate, and the one at hand.
pub record Server : Type 0 where
  pub active_connections : Dict (Option String)
  pub unix_writer : Socket
  pub ws_to_unix : Task
  pub unix_to_ws : Task

pub record Answers : Type 0 where
  pub subject : Option (List Name)
  pub waited : Waited
  pub unix_closes : Result None  -- `wait_closed` of the unix writer

abbrev finish_tasks : Waited → Server → Result None × Server
finish_tasks forth_done s = (ok tt, record s { ws_to_unix = over })
finish_tasks back_done s = (ok tt, record s { unix_to_ws = over })
finish_tasks both_done s = (ok tt, record s { ws_to_unix = over; unix_to_ws = over })
finish_tasks wait_cancelled s = (err cancelled_error, s)

abbrev cancel : Task → Task
cancel running = over
cancel t = t

-- The body of the `try`: connect, forward until one side ends, close QEMU's socket.
abbrev forward_until_closed : Connection → Answers → Action Server None
forward_until_closed connection a = do
  outside (as_result connection)
  modify (λ s. record s { unix_writer = live })
  modify (λ s. record s { ws_to_unix = running; unix_to_ws = running })
  finish_tasks a.waited
  modify (λ s. record s { ws_to_unix = cancel s.ws_to_unix; unix_to_ws = cancel s.unix_to_ws })
  modify (λ s. record s { unix_writer = closed })
  outside a.unix_closes

-- `connection_id` is what `str(uuid.uuid4())[:8]` yields.
unfoldable pub handle_client :
    ℕ → (ℕ → Probe) → Answers → Dict (Option String) → Result None × Server
handle_client connection_id probe a active =
    (do
      modify (λ s. record s {
        active_connections = insert connection_id (client_cn a.subject) s.active_connections;
      })
      finally (try_except true (forward_until_closed (create_unix_connection probe).0 a)) (
          modify (λ s. record s { active_connections = erase connection_id s.active_connections })))
      (record {
        active_connections = active;
        unix_writer = absent;
        ws_to_unix = unstarted;
        unix_to_ws = unstarted;
      })
