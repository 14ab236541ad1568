-- ===== src/Connect.antt =====
-- The retry loops that wait for QEMU's unix socket: `connect_to_unix_socket` of
-- migrate-proxy/tcp-migration-server.py and `create_unix_connection` of
-- migrate-websocket/websocket-migration-server.py.
pub mod Laws
use migration_transport_hack.Base.{ℕ, zero, suc, ◌+◌}

-- What one attempt meets. `interrupted` is a `CancelledError` at one of its suspensions.
pub data Probe : Type 0 where
  absent : Probe  -- `os.path.exists` says no
  refused : Probe  -- `ConnectionRefusedError` or `FileNotFoundError`
  accepted : Probe  -- a reader and a writer
  broken : Probe  -- another exception
  interrupted : Probe

pub data Connection : Type 0 where
  opened : ℕ → Connection  -- by the attempt of this number, from 0
  gave_up : Connection  -- the `raise` after the loop
  raised : Connection  -- an exception that the loop does not catch
  was_cancelled : Connection

-- The loop, with the attempts left, the number of the next one, and the seconds slept.
pub attempts : (ℕ → Probe) → ℕ → ℕ → ℕ → ℕ → Connection × ℕ
attempts probe retry_delay zero attempt slept = (gave_up, slept)
attempts probe retry_delay (suc left) attempt slept = elim (probe attempt) [
  | accepted ↦ (opened attempt, slept)
  | broken ↦ (raised, slept)
  | interrupted ↦ (was_cancelled, slept)
  | _ ↦ attempts probe retry_delay left (attempt + 1) (slept + retry_delay)
]

-- `attempt` runs over `range(max_retries)`.
unfoldable pub connect_to_unix_socket : (ℕ → Probe) → ℕ → ℕ → Connection × ℕ
unfolding attempts
connect_to_unix_socket probe max_retries retry_delay = attempts probe retry_delay max_retries 0 0

pub create_unix_connection : (ℕ → Probe) → Connection × ℕ
unfolding attempts
create_unix_connection probe = attempts probe 1 30 0 0
