-- ===== src/Proxy/Server.antt =====
-- `MigrationTCPServer.handle_client` of migrate-proxy/tcp-migration-server.py
pub mod Cleanup
use migration_transport_hack.Base.{ℕ, ◌+◌, true}
use migration_transport_hack.Async.{
  Result, ok, err, cancelled_error, exception, None, try_except, finally,
}
use migration_transport_hack.Connect.{
  Probe, connect_to_unix_socket, Connection, opened, gave_up, raised, was_cancelled,
}
use migration_transport_hack.Proxy.{Handler, Answers, connected, try_body, clean_up}

-- How the answer of `connect_to_unix_socket` looks to its caller.
abbrev pub as_result : Connection → Result None
as_result (opened _) = ok tt
as_result gave_up = err exception
as_result raised = err exception
as_result was_cancelled = err cancelled_error

pub record Server : Type 0 where
  pub connection_counter : ℕ

-- The new counter is the connection's number. Both kinds of exception are logged.
unfoldable pub handle_client :
    (ℕ → Probe) → Answers → Server → (ℕ × Server) × (Result None × Handler)
unfolding clean_up
handle_client probe a s =
    let id = s.connection_counter + 1 in
    let (connection, slept) = connect_to_unix_socket probe 30 1 in
    (
      (id, record s { connection_counter = id }),
      finally (try_except true (try_body (as_result connection) a)) (clean_up a) connected,
    )
