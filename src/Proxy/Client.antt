-- ===== src/Proxy/Client.antt =====
-- `MigrationTCPClient` of migrate-proxy/tcp-migration-client.py: `handle_new_qemu_connection` and
-- `connect_and_forward`.
pub mod Cleanup
pub mod Service
use migration_transport_hack.Base.{ℕ, ◌+◌, Bool, true, false}
use migration_transport_hack.Async.{
  Result, Action, None, modify, outside, ◌>>=◌, ◌>>◌, try_except, finally,
}
use migration_transport_hack.Proxy.{Handler, Answers, connected, try_body, clean_up}

pub record Client : Type 0 where
  pub connection_counter : ℕ

-- `opening` is the answer of `asyncio.open_connection`. `CancelledError` is not caught.
pub handle_new_qemu_connection :
    Result None → Answers → Client → (ℕ × Client) × (Result None × Handler)
unfolding clean_up
handle_new_qemu_connection opening a s =
    let id = s.connection_counter + 1 in
    (
      (id, record s { connection_counter = id }),
      finally (try_except false (try_body opening a)) (clean_up a) connected,
    )

pub record Listener : Type 0 where
  pub socket_file : Bool  -- whether something stands at `unix_socket_path`
  pub serving : Bool

-- `if os.path.exists(...): os.unlink(...)`
abbrev unlink_existing : Action Listener None
unlink_existing = modify (λ l. record l { socket_file = false })

-- `async with unix_server` closes the server on the way out.
abbrev serve : Result None → Action Listener None
serve served = finally (outside served) (modify (λ l. record l { serving = false }))

-- `start` is the answer of `start_unix_server`, which makes the socket's file, and `served` that
-- of `serve_forever`.
pub connect_and_forward : Result None → Result None → Action Listener None
connect_and_forward start served l =
    (do
      unlink_existing
      finally
          (try_except false (do
            outside start
            modify (λ l. record l { socket_file = true; serving = true })
            serve served))
          unlink_existing)
      l
