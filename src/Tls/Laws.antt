-- ===== src/Tls/Laws.antt =====
-- What the TLS scripts get QEMU to do.
use migration_transport_hack.Base.{
  inr, inl, Bool, none, ◌⊎◌, ℕ, ◌≡◌, ◌≢◌, Option, some, true, false, List, [], ◌∷◌, arith,
}
use migration_transport_hack.Async.{exception, Result, ok, err, None}
use migration_transport_hack.Tls.{
  Handed, given, dropped, server, migrate_incoming, create_tcp_client, main_receive, Session,
  Command, query_status, migrate_set_parameters, getfd, migrate, Qemu, opening, max_bandwidth,
  main_send,
}

-- The commands before the first that fails.
abbrev pub until_failure : List Command → (Command → Result None) → List Command
until_failure [] answers = []
until_failure (c ∷ cs) answers = elim (answers c) [
  | ok _ ↦ c ∷ until_failure cs answers
  | err e ↦ []
]

-- A client that is not connected carries out no command and passes no descriptor.
abbrev pub IsRefusing : Qemu → Type 0
IsRefusing q =
    ((c : Command) → q.answers false c ≢ ok tt) × ((fd : Handed) → q.sending_fd false fd ≢ ok tt)

-- The script of a migration over a passed descriptor.
abbrev pub script : Command → List Command
script start = query_status ∷ migrate_set_parameters max_bandwidth ∷ getfd "migfd" ∷ start ∷ []

-- What QEMU carries out of a script is its beginning, up to the first failure, and the descriptor is
-- passed unless one of the first two commands fails. A script that returns has disconnected.
abbrev pub Follows : Qemu → Command → ℕ → Result None × Session → Type 0
Follows q start fd (r, s) =
    (s.accepted ≡ until_failure (script start) (q.answers true))
    × ((s.passed ≡ given fd ∷ [])
        ⊎ ((s.passed ≡ [])
            × ((q.answers true query_status ≢ ok tt)
                ⊎ (q.answers true (migrate_set_parameters max_bandwidth) ≢ ok tt))))
    × ((s.connected ≡ false) ⊎ (r ≢ ok tt))

-- What qemu-send.py does with a descriptor that it is given.
pub main_send-Follows :
    (q : Qemu) (made : Result (Option ℕ)) (fd : ℕ)
    → IsRefusing q
    → q.connecting ≡ ok tt
    → q.disconnecting ≡ ok tt
    → q.sending_fd true (given fd) ≡ ok tt
    → Follows q (migrate "fd:migfd") fd (main_send q (some fd) made opening)
unfolding main_send
main_send-Follows q made fd n c d p = ground (
  arith,
  n.0 query_status,
  n.0 (migrate_set_parameters max_bandwidth),
  n.0 (getfd "migfd"),
  n.0 (migrate "fd:migfd"),
)

-- What qemu-rec.py does with a descriptor that it is given.
pub main_receive-Follows :
    (q : Qemu) (made : Result (Option ℕ)) (fd : ℕ)
    → IsRefusing q
    → q.connecting ≡ ok tt
    → q.disconnecting ≡ ok tt
    → q.sending_fd true (given fd) ≡ ok tt
    → Follows q (migrate_incoming "fd:migfd") fd (main_receive q (some fd) made opening)
unfolding main_receive
main_receive-Follows q made fd n c d p = ground (
  arith,
  n.0 query_status,
  n.0 (migrate_set_parameters max_bandwidth),
  n.0 (getfd "migfd"),
  n.0 (migrate_incoming "fd:migfd"),
)

-- When qemu-send.py is given no descriptor and cannot make one, since the TLS upgrade or the
-- connection fails, it passes none, starts no migration and returns, still connected.
main_send_leaks :
    (q : Qemu) (upgraded : Bool) (reaching : Result ℕ)
    → q.connecting ≡ ok tt
    → q.answers true query_status ≡ ok tt
    → q.answers true (migrate_set_parameters max_bandwidth) ≡ ok tt
    → (upgraded ≡ false) ⊎ (reaching ≡ err exception)
    → main_send q none (create_tcp_client upgraded reaching) opening ≡ (
      ok tt,
      record {
        connected = true;
        accepted = query_status ∷ migrate_set_parameters max_bandwidth ∷ [];
        passed = [];
      },
    )
unfolding main_send create_tcp_client
main_send_leaks q upgraded reaching c a b (inl e) = ground arith
main_send_leaks q false reaching c a b (inr e) = ground arith
main_send_leaks q true reaching c a b (inr e) = ground arith

-- When qemu-rec.py listens but the TLS upgrade fails, an exception leaves `server` and the script,
-- which stays connected, and no descriptor is passed.
main_receive_leaks :
    (q : Qemu) (accepting : Result ℕ)
    → q.connecting ≡ ok tt
    → q.answers true query_status ≡ ok tt
    → q.answers true (migrate_set_parameters max_bandwidth) ≡ ok tt
    → main_receive q none (server (ok tt) false accepting) opening ≡ (
      err exception,
      record {
        connected = true;
        accepted = query_status ∷ migrate_set_parameters max_bandwidth ∷ [];
        passed = [];
      },
    )
unfolding main_receive server
main_receive_leaks q accepting c a b = ground arith

-- Both scripts, when they are given a descriptor that can be passed, the client library connects,
-- does nothing while it is not connected, and disconnects without an exception: although failures
-- are caught and a script goes on, QEMU carries out just the beginning of `query-status`, the
-- bandwidth, `getfd` and `migrate`, for qemu-rec.py `migrate-incoming`, up to the first failure,
-- and the descriptor is passed unless one of the first two fails. A script that returns has
-- disconnected.
pub mains-Follow :
    (q : Qemu) (made : Result (Option ℕ)) (fd : ℕ)
    → IsRefusing q
    → q.connecting ≡ ok tt
    → q.disconnecting ≡ ok tt
    → q.sending_fd true (given fd) ≡ ok tt
    → Follows q (migrate "fd:migfd") fd (main_send q (some fd) made opening)
      × Follows q (migrate_incoming "fd:migfd") fd (main_receive q (some fd) made opening)
mains-Follow q made fd n c d p =
    (main_send-Follows q made fd n c d p, main_receive-Follows q made fd n c d p)

-- Without a descriptor, and with a library that refuses to pass one that is closed, neither script
-- passes any, and QEMU carries out neither `getfd` nor the start of a migration: the socket that a
-- script has made itself never reaches QEMU.
mains_lose :
    (q : Qemu) (fd : ℕ)
    → q.connecting ≡ ok tt
    → q.answers true query_status ≡ ok tt
    → q.answers true (migrate_set_parameters max_bandwidth) ≡ ok tt
    → q.sending_fd true (dropped fd) ≡ err exception
    → let left : Session = record {
      connected = true;
      accepted = query_status ∷ migrate_set_parameters max_bandwidth ∷ [];
      passed = [];
    } in
      (main_send q none (ok (some fd)) opening ≡ (err exception, left))
      × (main_receive q none (ok (some fd)) opening ≡ (err exception, left))
unfolding main_send main_receive
mains_lose q fd c a b e = (ground arith, ground arith)

-- Where the TLS upgrade fails, and the client library connects and QEMU answers `query-status` and
-- takes the bandwidth, neither script passes a descriptor or starts a migration, and both leave the
-- client connected: qemu-send.py returns, as it does when the connection to the destination fails,
-- and an exception leaves qemu-rec.py.
mains_leak :
    (q : Qemu) (upgraded : Bool) (reaching accepting : Result ℕ)
    → q.connecting ≡ ok tt
    → q.answers true query_status ≡ ok tt
    → q.answers true (migrate_set_parameters max_bandwidth) ≡ ok tt
    → (upgraded ≡ false) ⊎ (reaching ≡ err exception)
    → let left : Session = record {
      connected = true;
      accepted = query_status ∷ migrate_set_parameters max_bandwidth ∷ [];
      passed = [];
    } in
      (main_send q none (create_tcp_client upgraded reaching) opening ≡ (ok tt, left))
      × (main_receive q none (server (ok tt) false accepting) opening ≡ (err exception, left))
mains_leak q upgraded reaching accepting c a b e =
    (main_send_leaks q upgraded reaching c a b e, main_receive_leaks q accepting c a b)
