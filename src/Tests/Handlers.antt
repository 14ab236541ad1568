-- ===== src/Tests/Handlers.antt =====
-- The connection handlers and the retry loops at chosen answers.
use migration_transport_hack.Base.{
  ◌⊎◌, ℕ, zero, suc, ◌≡◌, ◌≢◌, refl, true, false, ◌⊎◌, ◌==◌, if◌then◌else◌,
}
use migration_transport_hack.Async.{Raised, Result, ok, err, exception, cancelled_error, None}
use migration_transport_hack.Connect.{
  gave_up, Probe, absent, refused, accepted, opened, connect_to_unix_socket,
}
use migration_transport_hack.Connect.Laws.{Tries, connect_to_unix_socket-Tries}
use migration_transport_hack.Proxy.{
  Socket, Answers, live, closed, running, back_done, wait_cancelled,
}
use migration_transport_hack.Proxy.Server.{handle_client, Server}
use migration_transport_hack.Proxy.Server.Cleanup.{handle_client_sockets, handle_client_runs}
use migration_transport_hack.Proxy.Client.{Client, Listener}

-- QEMU's socket appears at the third attempt.
abbrev pub late : ℕ → Probe
late n = elim n [ zero ↦ absent | suc m ↦ if m == 0 then refused else accepted ]

late_opens : connect_to_unix_socket late 30 1 ≡ (opened 2, 2)
unfolding connect_to_unix_socket
late_opens = refl

connect_to_unix_socket-Tries_example : Tries late 1 30 0 0 (connect_to_unix_socket late 30 1)
connect_to_unix_socket-Tries_example = connect_to_unix_socket-Tries late 30 1

abbrev smooth : Answers
smooth = record { waited = back_done; inner_closes = ok tt; outer_closes = ok tt }

abbrev interrupted_wait : Answers
interrupted_wait = record { waited = wait_cancelled; inner_closes = ok tt; outer_closes = ok tt }

abbrev reset : Answers
reset = record { waited = back_done; inner_closes = err exception; outer_closes = ok tt }

abbrev fresh : Server
fresh = record { connection_counter = 0 }

-- QEMU never listens: thirty attempts, thirty seconds.
never_opens : connect_to_unix_socket (λ n. absent) 30 1 ≡ (gave_up, 30)
unfolding connect_to_unix_socket
never_opens = refl

abbrev fine : Result None
fine = ok tt

abbrev cancelled : Result None
cancelled = err cancelled_error

abbrev counted : Client
counted = record { connection_counter = 4 }

abbrev stale : Listener
stale = record { socket_file = true; serving = false }

-- `wait_closed` of QEMU's socket raises.
handle_client_sockets_example :
    let (r, h) = (handle_client late reset fresh).1 in
    ((h.outer ≡ closed) × (h.inner ≢ live) × (r ≡ ok tt))
    ⊎ ((x : Raised) × (reset.inner_closes ≡ err x)
        × ((r ≡ err x) × (h.inner ≡ closed) × (h.outer ≡ live)))
handle_client_sockets_example = handle_client_sockets late reset fresh

handle_client_runs_example :
    let h = (handle_client late interrupted_wait fresh).1.1 in
    ((h.forth ≢ running)
      × (h.back ≢ running)
      × ((interrupted_wait.waited ≢ wait_cancelled) ⊎ (h.inner ≡ Socket.absent)))
    ⊎ ((interrupted_wait.waited ≡ wait_cancelled) × (h.forth ≡ running) × (h.back ≡ running))
handle_client_runs_example = handle_client_runs late interrupted_wait fresh
