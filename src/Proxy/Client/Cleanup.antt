-- ===== src/Proxy/Client/Cleanup.antt =====
-- What the client's handlers leave behind.
use migration_transport_hack.Base.{◌⊎◌, ◌↔◌, ◌≡◌, ◌≢◌, false, arith}
use migration_transport_hack.Async.{None, Result, ok, err, cancelled_error}
use migration_transport_hack.Proxy.{Answers, live, closed, wait_cancelled}
use migration_transport_hack.Proxy.Client.{
  Client, handle_new_qemu_connection, Listener, connect_and_forward,
}

-- If closing the TCP socket raises nothing, both sockets are closed on every path. The result is
-- that of the last `wait_closed`, except that a cancellation is passed on where that returns.
handle_new_qemu_connection_closes :
    (opening : Result None) (a : Answers) (s : Client)
    → a.inner_closes ≡ ok tt
    → a.outer_closes ≡ ok tt
    → let (r, h) = (handle_new_qemu_connection opening a s).1 in
      (h.outer ≡ closed)
      × (h.inner ≢ live)
      × ((r ≡ err cancelled_error)
          ↔ ((opening ≡ err cancelled_error) ⊎ ((opening ≡ ok tt) × (a.waited ≡ wait_cancelled))))
unfolding handle_new_qemu_connection
handle_new_qemu_connection_closes opening a s e f = ground arith

-- However the server on the unix socket starts and ends, nothing stands at its path afterwards and
-- nothing serves; only a cancellation is passed on.
connect_and_forward_unlinks :
    (start served : Result None) (l : Listener)
    → l.serving ≡ false
    → let (r, l') = connect_and_forward start served l in
      (l' ≡ record { socket_file = false; serving = false })
      × ((r ≡ err cancelled_error)
          ↔ ((start ≡ err cancelled_error) ⊎ ((start ≡ ok tt) × (served ≡ err cancelled_error))))
unfolding connect_and_forward
connect_and_forward_unlinks start served l e = ground arith
