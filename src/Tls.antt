-- ===== src/Tls.antt =====
-- The scripts of migrate-tls, qemu-send.py and qemu-rec.py: `main` hands QEMU a connected socket
-- and starts the migration over it. The functions that both files have are the same in both.
pub mod Laws
pub mod Descriptor
use migration_transport_hack.Base.{
  ℕ, ◌+◌, String, Option, none, some, Bool, true, false, List, [], ◌∷◌, snoc,
}
use migration_transport_hack.Async.{
  Raised, exception, cancelled_error, Result, ok, err, None, Action, pure, raise, modify, outside,
  ◌>>=◌, ◌>>◌,
}

pub data Command : Type 0 where
  query_status : Command
  migrate_set_parameters : ℕ → Command  -- the value of `max-bandwidth`
  getfd : String → Command
  migrate : String → Command
  migrate_incoming : String → Command

-- What a script hands over as a descriptor: the number that it was given, which is open; the
-- `fileno()` of a socket that it has made, which is closed by then, since the assignment drops the
-- only reference to the socket; or `None`.
pub data Handed : Type 0 where
  given : ℕ → Handed
  dropped : ℕ → Handed
  nothing : Handed

-- What QEMU's client library answers, which depends on whether it is connected.
pub record Qemu : Type 0 where
  pub connecting : Result None
  pub answers : Bool → Command → Result None
  pub sending_fd : Bool → Handed → Result None  -- `send_fd_scm`
  pub disconnecting : Result None

pub record Session : Type 0 where
  pub connected : Bool
  pub accepted : List Command  -- those that QEMU has carried out, oldest first
  pub passed : List Handed  -- what has been handed over

abbrev pub opening : Session
opening = record { connected = false; accepted = []; passed = [] }

abbrev Step : Type 0
Step = Action Session None

abbrev connect : Qemu → Step
connect q = do outside q.connecting; modify (λ s. record s { connected = true })

abbrev accept : Result None → Command → Session → Session
accept (ok _) c s = record s { accepted = snoc s.accepted c }
accept (err _) c s = s

abbrev execute : Qemu → Command → Step
execute q c s = let r = q.answers s.connected c in (r, accept r c s)

abbrev disconnect : Qemu → Step
disconnect q = do modify (λ s. record s { connected = false }); outside q.disconnecting

-- `except Exception`: print it and disconnect.
abbrev or_disconnect : Qemu → Result None × Session → Result None × Session
or_disconnect q (err exception, s) = disconnect q s
or_disconnect q (r, s) = (r, s)

abbrev try_execute : Qemu → Command → Step
try_execute q c s = or_disconnect q (execute q c s)

abbrev pass : Result None → Handed → Session → Session
pass (ok _) fd s = record s { passed = snoc s.passed fd }
pass (err _) fd s = s

abbrev send_fd_scm : Qemu → Handed → Step
send_fd_scm q fd s = let r = q.sending_fd s.connected fd in (r, pass r fd s)

-- `qemu_add_fd`, which always yields "migfd"
abbrev qemu_add_fd : Qemu → Handed → Step
qemu_add_fd q socketfd = do send_fd_scm q socketfd; try_execute q (getfd "migfd")

abbrev migrate_fd : Qemu → Step
migrate_fd q = try_execute q (migrate "fd:migfd")

abbrev migrate_incoming_fd : Qemu → Step
migrate_incoming_fd q = try_execute q (migrate_incoming "fd:migfd")

abbrev pub max_bandwidth : ℕ
max_bandwidth = 107374182400

-- The beginning of `main`, up to the migration parameters.
abbrev prepare : Qemu → Step
prepare q = do
  connect q
  try_execute q query_status
  execute q (migrate_set_parameters max_bandwidth)

-- `create_tcp_client`: whether the TLS upgrade succeeds, and the answer of `connect`, with the
-- descriptor.
pub create_tcp_client : Bool → Result ℕ → Result (Option ℕ)
create_tcp_client false connecting = ok none
create_tcp_client true (ok fd) = ok (some fd)
create_tcp_client true (err exception) = ok none
create_tcp_client true (err cancelled_error) = err cancelled_error

-- `server`: the answer of `bind` and `listen`, whether the TLS upgrade succeeds, and the answer of
-- `accept`. After a failed upgrade the `except` block calls `close` on `None`.
pub server : Result None → Bool → Result ℕ → Result (Option ℕ)
server (err exception) upgraded accepting = ok none
server (err cancelled_error) upgraded accepting = err cancelled_error
server (ok _) false accepting = err exception
server (ok _) true (ok fd) = ok (some fd)
server (ok _) true (err exception) = ok none
server (ok _) true (err cancelled_error) = err cancelled_error

abbrev hand_over : Qemu → Handed → Step → Step
hand_over q fd start = do qemu_add_fd q fd; start; disconnect q

-- `client_socket = client_socket.fileno()` closes the socket. Without one the sender returns, and
-- stays connected.
abbrev send_over : Qemu → Result (Option ℕ) → Step
send_over q (ok (some fd)) = hand_over q (dropped fd) (migrate_fd q)
send_over q (ok none) = pure tt
send_over q (err e) = raise e

-- `main` of qemu-send.py. `client` is what `create_tcp_client` returns.
unfoldable pub main_send : Qemu → Option ℕ → Result (Option ℕ) → Step
main_send q (some fd) client s = (do prepare q; hand_over q (given fd) (migrate_fd q)) s
main_send q none client s = (do prepare q; send_over q client) s

-- So does `socket = socket.fileno()`. Without a socket the receiver prints a message and goes on
-- with `None`.
abbrev receive_over : Qemu → Result (Option ℕ) → Step
receive_over q (ok (some fd)) = hand_over q (dropped fd) (migrate_incoming_fd q)
receive_over q (ok none) = hand_over q nothing (migrate_incoming_fd q)
receive_over q (err e) = raise e

-- `main` of qemu-rec.py. `accepted` is what `server` returns.
pub main_receive : Qemu → Option ℕ → Result (Option ℕ) → Step
main_receive q (some fd) accepted s =
    (do prepare q; hand_over q (given fd) (migrate_incoming_fd q)) s
main_receive q none accepted s = (do prepare q; receive_over q accepted) s
