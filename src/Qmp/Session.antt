-- ===== src/Qmp/Session.antt =====
-- The four QMP scripts: what each one sends to QEMU, in which order, and how it ends.
pub mod Laws
use migration_transport_hack.Base.{
  ℕ, ◌+◌, String, Option, none, some, Bool, true, false, List, [], ◌∷◌, ◌++◌, snoc,
}
use Prim.Native.String.{◌++◌ as ◌<>◌}
use migration_transport_hack.Async.{Raised, exception, cancelled_error, Result, ok, err, None}
use migration_transport_hack.Qmp.Monitor.{Reply, Outcome, over, broken, watching, Watch, monitor}

pub data Command : Type 0 where
  query_status : Command
  migrate_set_capabilities : String → Bool → Command
  migrate_set_parameters : ℕ → Command  -- the value of `multifd-channels`
  migrate : String → Command
  migrate_incoming : String → Command

-- What QEMU and the client library answer: to the connection, to each command, to each round of the
-- monitoring loop, and to `disconnect`, which raises what the library's reader and writer have met.
pub record Qemu : Type 0 where
  pub connecting : Result None
  pub answers : Command → Result None
  pub replies : List Reply
  pub disconnecting : Result None

pub record Session : Type 0 where
  pub issued : List Command  -- oldest first, `query-migrate` left out
  pub watch : Watch
  pub disconnects : ℕ

abbrev pub opening : Session
opening = record { issued = []; watch = record { sleeps = 0; progress = [] }; disconnects = 0 }

-- How a coroutine stands: it has returned, it has raised, or it is still in the monitoring loop.
pub data State : Type 0 where
  returned : State
  raised : Raised → State
  waiting : State

abbrev pub Step : Type 0
Step = Session → State × Session

infixl 5 ◌>>◌
abbrev pub ◌>>◌ : Step → Step → Step
◌>>◌ m k s =
    let (r, s') = m s in
    elim r [ returned ↦ k s' | raised e ↦ (raised e, s') | waiting ↦ (waiting, s') ]

abbrev answered : Result None → State
answered (ok _) = returned
answered (err e) = raised e

abbrev connect : Qemu → Step
connect q s = (answered q.connecting, s)

abbrev pub execute : Qemu → Command → Step
execute q c s = (answered (q.answers c), record s { issued = snoc s.issued c })

abbrev watched : Outcome → State
watched (over _) = returned
watched (broken e) = raised e
watched watching = waiting

abbrev pub monitor_migration : Qemu → Step
monitor_migration q s =
    let (o, w) = monitor q.replies s.watch in (watched o, record s { watch = w })

-- `except Exception`
abbrev caught : State → State
caught (raised exception) = returned
caught (raised cancelled_error) = raised cancelled_error
caught returned = returned
caught waiting = waiting

-- An exception of `disconnect` takes the place of what was to come.
abbrev after_disconnect : Result None → State → State
after_disconnect (ok _) r = r
after_disconnect (err e) r = raised e

-- `finally: await qmp_client.disconnect()`
abbrev disconnect : Qemu → State × Session → State × Session
disconnect q (waiting, s) = (waiting, s)
disconnect q (r, s) =
    (after_disconnect q.disconnecting r, record s { disconnects = s.disconnects + 1 })

abbrev finish : Qemu → State × Session → State × Session
finish q (r, s) = disconnect q (caught r, s)

abbrev pub or_default : Option String → String → String
or_default none d = d
or_default (some path) d = path

abbrev pub dest_socket : String
dest_socket = "/tmp/qemu_migration_dest.sock"

abbrev pub source_socket : String
source_socket = "/tmp/qemu_migration_source.sock"

abbrev multifd : Command
multifd = migrate_set_capabilities "multifd" true

-- unix-receive-tcp.py
pub setup_incoming_migration_tcp_forwarded : Qemu → Option String → State × Session
setup_incoming_migration_tcp_forwarded q path =
    let incoming_uri = "unix:" <> or_default path dest_socket in
    finish q (
      (do
        connect q
        execute q query_status
        execute q multifd
        execute q (migrate_set_parameters 1)
        execute q (migrate_incoming incoming_uri)
        monitor_migration q)
        opening)

-- unix-send-tcp.py: `execute_and_monitor_migration`
abbrev execute_and_monitor_tcp : Qemu → String → Step
execute_and_monitor_tcp q destination_uri = do
  execute q (migrate destination_uri)
  monitor_migration q

unfoldable pub migrate_vm_tcp_forwarded : Qemu → Option String → State × Session
migrate_vm_tcp_forwarded q path =
    let destination_uri = "unix:" <> or_default path source_socket in
    finish q (
      (do
        connect q
        execute q query_status
        execute q multifd
        execute q (migrate_set_parameters 1)
        execute_and_monitor_tcp q destination_uri)
        opening)

-- unix-receive-websocket.py
pub setup_incoming_migration_websocket_forwarded : Qemu → Option String → State × Session
setup_incoming_migration_websocket_forwarded q path =
    let incoming_uri = "unix:" <> or_default path dest_socket in
    finish q (
      (do
        connect q
        execute q query_status
        execute q multifd
        execute q (migrate_set_parameters 2)
        execute q (migrate_incoming incoming_uri)
        monitor_migration q)
        opening)

-- unix-send-websocket.py: its `execute_and_monitor_migration` sets the parameters too.
abbrev execute_and_monitor_websocket : Qemu → String → Step
execute_and_monitor_websocket q destination_uri = do
  execute q multifd
  execute q (migrate_set_parameters 2)
  execute q (migrate destination_uri)
  monitor_migration q

pub migrate_vm_websocket_forwarded : Qemu → Option String → State × Session
migrate_vm_websocket_forwarded q path =
    let destination_uri = "unix:" <> or_default path source_socket in
    finish q (
      (do connect q; execute q query_status; execute_and_monitor_websocket q destination_uri)
        opening)
