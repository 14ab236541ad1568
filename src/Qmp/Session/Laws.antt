-- ===== src/Qmp/Session/Laws.antt =====
-- The order of the commands, and the end of each script.
use Prim.Native.String.{◌++◌ as ◌<>◌}
use migration_transport_hack.Base.{
  Bool, false, refl, ap, sym, ◌∙◌, ℕ, ◌≡◌, ◌≢◌, arith, String, Option, List, [], ◌∷◌, true, ◌⊎◌,
}
use migration_transport_hack.Async.{exception, Result, ok, err, None}
use migration_transport_hack.Qmp.Monitor.{watching, monitor}
use migration_transport_hack.Qmp.Session.{
  source_socket, migrate, opening, migrate_vm_tcp_forwarded,
  setup_incoming_migration_websocket_forwarded, migrate_vm_websocket_forwarded, Command,
  query_status, migrate_set_capabilities, migrate_set_parameters, migrate_incoming, Qemu, Session,
  State, raised, waiting, or_default, dest_socket, setup_incoming_migration_tcp_forwarded,
}

-- The commands up to the first that fails, with that one.
abbrev pub until_error : Result None → List Command → (Command → Result None) → List Command
until_error (err e) cs answers = []
until_error (ok _) [] answers = []
until_error (ok _) (c ∷ cs) answers = c ∷ until_error (answers c) cs answers

-- Whether the connection and all the commands are taken.
abbrev pub all_taken : Result None → List Command → (Command → Result None) → Bool
all_taken (err e) cs answers = false
all_taken (ok _) [] answers = true
all_taken (ok _) (c ∷ cs) answers = all_taken (answers c) cs answers

-- What a script is to do over a connection: configure two channels or one, and start.
abbrev pub script : ℕ → Command → List Command
script channels start =
    query_status
    ∷ migrate_set_capabilities "multifd" true
    ∷ migrate_set_parameters channels
    ∷ start
    ∷ []

-- A script that has followed a list of commands: it has issued them up to the first failure, it is
-- unfinished just where all of them are taken and the monitoring loop watches, and otherwise it has
-- called `disconnect` exactly once, and lets no exception out but a cancellation, unless
-- `disconnect` itself raises.
abbrev pub Follows : Qemu → List Command → State × Session → Type 0
Follows q cs (r, s) =
    (s.issued ≡ until_error q.connecting cs q.answers)
    × (((r ≡ waiting) × (s.disconnects ≡ 0) × ((monitor q.replies opening.watch).0 ≡ watching))
        ⊎ ((r ≢ waiting)
            × (s.disconnects ≡ 1)
            × ((all_taken q.connecting cs q.answers ≡ false)
                ⊎ ((monitor q.replies opening.watch).0 ≢ watching))))
    × ((r ≢ raised exception) ⊎ (q.disconnecting ≡ err exception))

setup_incoming_migration_tcp_forwarded-Follows :
    (q : Qemu) (path : Option String)
    → Follows q
        (script 1 (migrate_incoming ("unix:" <> or_default path dest_socket)))
        (setup_incoming_migration_tcp_forwarded q path)
unfolding setup_incoming_migration_tcp_forwarded
setup_incoming_migration_tcp_forwarded-Follows q path = ground arith

migrate_vm_tcp_forwarded-Follows :
    (q : Qemu) (path : Option String)
    → Follows q
        (script 1 (migrate ("unix:" <> or_default path source_socket)))
        (migrate_vm_tcp_forwarded q path)
unfolding migrate_vm_tcp_forwarded
migrate_vm_tcp_forwarded-Follows q path = ground arith

setup_incoming_migration_websocket_forwarded-Follows :
    (q : Qemu) (path : Option String)
    → Follows q
        (script 2 (migrate_incoming ("unix:" <> or_default path dest_socket)))
        (setup_incoming_migration_websocket_forwarded q path)
unfolding setup_incoming_migration_websocket_forwarded
setup_incoming_migration_websocket_forwarded-Follows q path = ground arith

migrate_vm_websocket_forwarded-Follows :
    (q : Qemu) (path : Option String)
    → Follows q
        (script 2 (migrate ("unix:" <> or_default path source_socket)))
        (migrate_vm_websocket_forwarded q path)
unfolding migrate_vm_websocket_forwarded
migrate_vm_websocket_forwarded-Follows q path = ground arith

-- QEMU accepts the connection and every command.
abbrev pub IsWilling : Qemu → Type 0
IsWilling q = (q.connecting ≡ ok tt) × ((c : Command) → q.answers c ≡ ok tt)

until_error_willing :
    (cs : List Command) (r : Result None) (answers : Command → Result None)
    → r ≡ ok tt
    → ((c : Command) → answers c ≡ ok tt)
    → until_error r cs answers ≡ cs
until_error_willing [] r answers e h = rw e
until_error_willing (c ∷ cs) r answers e h =
    rw e (ap (λ t. c ∷ t) (until_error_willing cs (answers c) answers (h c) h))

-- How a script has configured QEMU's multifd channels.
abbrev pub channels_of : List Command → List ℕ
channels_of [] = []
channels_of (migrate_set_parameters n ∷ cs) = n ∷ channels_of cs
channels_of (_ ∷ cs) = channels_of cs

channels_followed :
    (q : Qemu) (n : ℕ) (start : Command) (r : State × Session)
    → channels_of (start ∷ []) ≡ []
    → IsWilling q
    → Follows q (script n start) r
    → channels_of r.1.issued ≡ n ∷ []
channels_followed q n start r other w f =
    rw (f.0, until_error_willing (script n start) q.connecting q.answers w.0 w.1)
      (ap (λ t. n ∷ t) other)

-- The two ends of a transport agree: where both QEMUs accept everything, sender and receiver set
-- the same number of multifd channels, once each.
channels_agree :
    (source dest : Qemu) (from to : Option String)
    → IsWilling source
    → IsWilling dest
    → (channels_of (migrate_vm_tcp_forwarded source from).1.issued
        ≡ channels_of (setup_incoming_migration_tcp_forwarded dest to).1.issued)
      × (channels_of (migrate_vm_websocket_forwarded source from).1.issued
          ≡ channels_of (setup_incoming_migration_websocket_forwarded dest to).1.issued)
channels_agree source dest from to ws wd = (
  channels_followed source 1 _ (migrate_vm_tcp_forwarded source from) refl ws
        (migrate_vm_tcp_forwarded-Follows source from)
      ∙ sym (
          channels_followed dest 1 _ (setup_incoming_migration_tcp_forwarded dest to) refl wd
            (setup_incoming_migration_tcp_forwarded-Follows dest to)),
  channels_followed source 2 _ (migrate_vm_websocket_forwarded source from) refl ws
        (migrate_vm_websocket_forwarded-Follows source from)
      ∙ sym (
          channels_followed dest 2 _ (setup_incoming_migration_websocket_forwarded dest to) refl wd
            (setup_incoming_migration_websocket_forwarded-Follows dest to)),
)
