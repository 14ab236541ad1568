-- ===== src/Proxy/Server/Cleanup.antt =====
-- What `handle_client` leaves behind: sockets, tasks, and its result.
use migration_transport_hack.Base.{ℕ, ◌≡◌, ◌≢◌, ◌⊎◌, inl, inr, refl, arith}
use migration_transport_hack.Async.{ok, err, Raised, Result-cases}
use migration_transport_hack.Connect.{
  was_cancelled, raised, gave_up, Probe, Connection, opened, connect_to_unix_socket,
}
use migration_transport_hack.Proxy.{
  Answers, absent, live, closed, unstarted, running, wait_cancelled,
}
use migration_transport_hack.Proxy.Server.{Server, handle_client}

-- If closing QEMU's socket raises nothing, the handler closes both sockets, whether or not it got
-- a connection to QEMU and however the forwarding ended, and swallows every exception but that of
-- the last `wait_closed`.
handle_client_closes :
    (p : ℕ → Probe) (a : Answers) (s : Server)
    → a.inner_closes ≡ ok tt
    → let (r, h) = (handle_client p a s).1 in
      (h.outer ≡ closed) × (h.inner ≢ live) × (r ≡ a.outer_closes)
unfolding handle_client
handle_client_closes p a s e = ground arith

-- When the wait for the first of the two tasks is not cancelled, none of them runs on.
handle_client_tasks :
    (p : ℕ → Probe) (a : Answers) (s : Server)
    → a.waited ≢ wait_cancelled
    → let h = (handle_client p a s).1.1 in (h.forth ≢ running) × (h.back ≢ running)
unfolding handle_client
handle_client_tasks p a s e = ground arith

-- The handler opens nothing and starts no task when the retry loop gets no connection.
handle_client_refused :
    (p : ℕ → Probe) (a : Answers) (s : Server)
    → ((k : ℕ) → (connect_to_unix_socket p 30 1).0 ≢ opened k)
    → (handle_client p a s).1 ≡ (
      a.outer_closes,
      record { inner = absent; outer = closed; forth = unstarted; back = unstarted },
    )
unfolding handle_client
handle_client_refused p a s e = go (connect_to_unix_socket p 30 1).0 refl
  where
    go :
        (c : Connection)
        → (connect_to_unix_socket p 30 1).0 ≡ c
        → (handle_client p a s).1 ≡ (
          a.outer_closes,
          record { inner = absent; outer = closed; forth = unstarted; back = unstarted },
        )
    go (opened k) f = absurd (e k f)
    go gave_up f = ground arith
    go raised f = ground arith
    go was_cancelled f = ground arith

-- A cancellation that arrives while the handler waits is swallowed, and leaves both forwarding
-- tasks running on writers that are closed.
handle_client_leaks_tasks :
    (p : ℕ → Probe) (a : Answers) (s : Server) (k : ℕ)
    → (connect_to_unix_socket p 30 1).0 ≡ opened k
    → a.waited ≡ wait_cancelled
    → a.inner_closes ≡ ok tt
    → (handle_client p a s).1
      ≡ (a.outer_closes, record { inner = closed; outer = closed; forth = running; back = running })
unfolding handle_client
handle_client_leaks_tasks p a s k c w e = ground arith

-- When `wait_closed` of QEMU's socket raises, the client's socket stays open and the exception
-- leaves the handler.
handle_client_leaks_writer :
    (p : ℕ → Probe) (a : Answers) (s : Server) (k : ℕ) (x : Raised)
    → (connect_to_unix_socket p 30 1).0 ≡ opened k
    → a.inner_closes ≡ err x
    → let (r, h) = (handle_client p a s).1 in (r ≡ err x) × (h.inner ≡ closed) × (h.outer ≡ live)
unfolding handle_client
handle_client_leaks_writer p a s k x c e = ground arith

sockets_at :
    (p : ℕ → Probe) (a : Answers) (s : Server) (c : Connection) (x : Raised)
    → (connect_to_unix_socket p 30 1).0 ≡ c
    → a.inner_closes ≡ err x
    → let (r, h) = (handle_client p a s).1 in
      ((h.outer ≡ closed) × (h.inner ≢ live) × (r ≡ a.outer_closes))
      ⊎ ((r ≡ err x) × (h.inner ≡ closed) × (h.outer ≡ live))
unfolding handle_client
sockets_at p a s (opened k) x c e = inr (handle_client_leaks_writer p a s k x c e)
sockets_at p a s gave_up x c e = inl (ground arith)
sockets_at p a s raised x c e = inl (ground arith)
sockets_at p a s was_cancelled x c e = inl (ground arith)

-- The handler closes the client's socket, does not leave QEMU's open and raises only what the last
-- `wait_closed` raises; or `wait_closed` of QEMU's socket raises, and then the client's socket stays
-- open and that exception leaves the handler.
pub handle_client_sockets :
    (p : ℕ → Probe) (a : Answers) (s : Server)
    → let (r, h) = (handle_client p a s).1 in
      ((h.outer ≡ closed) × (h.inner ≢ live) × (r ≡ a.outer_closes))
      ⊎ ((x : Raised) × (a.inner_closes ≡ err x)
          × ((r ≡ err x) × (h.inner ≡ closed) × (h.outer ≡ live)))
handle_client_sockets p a s = elim (Result-cases a.inner_closes) [
  | inl e ↦ inl (handle_client_closes p a s e)
  | inr (x, e) ↦ elim (sockets_at p a s (connect_to_unix_socket p 30 1).0 x refl e) [
    | inl h ↦ inl h
    | inr h ↦ inr (x, e, h)
  ]
]

-- No forwarding task runs on when the handler is over, or the wait for the two was cancelled while
-- they ran, and then both run on.
pub handle_client_runs :
    (p : ℕ → Probe) (a : Answers) (s : Server)
    → let h = (handle_client p a s).1.1 in
      ((h.forth ≢ running)
        × (h.back ≢ running)
        × ((a.waited ≢ wait_cancelled) ⊎ (h.inner ≡ absent)))
      ⊎ ((a.waited ≡ wait_cancelled) × (h.forth ≡ running) × (h.back ≡ running))
unfolding handle_client
handle_client_runs p a s = ground arith
