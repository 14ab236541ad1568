-- ===== src/Websocket/Server/Cleanup.antt =====
-- What the websocket server's handler leaves behind.
use migration_transport_hack.Base.{
  ◌≢◌, ◌⊎◌, ℕ, ◌≡◌, Option, none, arith, ◌==◌, if◌then◌else◌, String,
}
use migration_transport_hack.Dict.{Dict, lookup, insert, lookup-insert, lookup-erase}
use migration_transport_hack.Async.{ok}
use migration_transport_hack.Connect.{opened, create_unix_connection, Probe}
use migration_transport_hack.Proxy.{running, absent, live, closed, wait_cancelled}
use migration_transport_hack.Websocket.Server.{Answers, handle_client, client_cn}

-- Whatever happens, the handler returns normally, and leaves no entry for its connection and every
-- other entry as it was.
pub handle_client_untracks :
    (i : ℕ) (p : ℕ → Probe) (a : Answers) (active : Dict (Option String)) (j : ℕ)
    → let (r, s) = handle_client i p a active in
      (r ≡ ok tt) × (lookup j s.active_connections ≡ (if i == j then none else lookup j active))
unfolding handle_client
handle_client_untracks i p a active j = ground (
  arith,
  lookup-erase i j (insert i (client_cn a.subject) active),
  lookup-insert i j (client_cn a.subject) active,
)

-- When the forwarding ends by itself, the handler has closed QEMU's socket and no task runs on.
handle_client_closes_unix :
    (i : ℕ) (p : ℕ → Probe) (a : Answers) (active : Dict (Option String)) (k : ℕ)
    → (create_unix_connection p).0 ≡ opened k
    → a.waited ≢ wait_cancelled
    → let s = (handle_client i p a active).1 in
      (s.unix_writer ≡ closed) × (s.ws_to_unix ≢ running) × (s.unix_to_ws ≢ running)
unfolding handle_client
handle_client_closes_unix i p a active k c w = ground arith

-- A cancellation while the handler waits leaves QEMU's socket open and both tasks running, since
-- only the end of the `try` block closes that socket.
handle_client_leaks_unix :
    (i : ℕ) (p : ℕ → Probe) (a : Answers) (active : Dict (Option String)) (k : ℕ)
    → (create_unix_connection p).0 ≡ opened k
    → a.waited ≡ wait_cancelled
    → let s = (handle_client i p a active).1 in
      (s.unix_writer ≡ live) × (s.ws_to_unix ≡ running) × (s.unix_to_ws ≡ running)
unfolding handle_client
handle_client_leaks_unix i p a active k c w = ground arith

-- When the handler is over, QEMU's socket is not open and no task runs on, or a cancellation came
-- while it waited for the tasks, and then that socket is open and both run on.
pub handle_client_ends :
    (i : ℕ) (p : ℕ → Probe) (a : Answers) (active : Dict (Option String))
    → let s = (handle_client i p a active).1 in
      ((s.unix_writer ≢ live)
        × (s.ws_to_unix ≢ running)
        × (s.unix_to_ws ≢ running)
        × ((a.waited ≢ wait_cancelled) ⊎ (s.unix_writer ≡ absent)))
      ⊎ ((a.waited ≡ wait_cancelled)
          × (s.unix_writer ≡ live)
          × (s.ws_to_unix ≡ running)
          × (s.unix_to_ws ≡ running))
unfolding handle_client
handle_client_ends i p a active = ground arith
