-- ===== src/Websocket/Client/Race.antt =====
-- `cleanup_connection` of migrate-websocket/websocket-migration-client.py, called for one connection
-- by its own handler and by the `finally` block of `start_unix_server` at the same time. Each call
-- is suspended in both of its `await`s, and the event loop interleaves the two.
pub mod Laws
use migration_transport_hack.Base.{◌≡◌, Bool, true, false}

-- Where a call stands.
pub data Cleaner : Type 0 where
  not_called : Cleaner
  closing_websocket : Cleaner  -- in `await conn_info['websocket'].close()`
  closing_unix : Cleaner  -- in `await conn_info['unix_writer'].wait_closed()`
  returned : Cleaner
  key_error : Cleaner  -- `del` has found no entry
  failed : Cleaner  -- one of the two `await`s has raised

-- The connection: whether `active_connections` has it, and the two calls.
pub record Race : Type 0 where
  pub tracked : Bool
  pub handler : Cleaner
  pub shutdown : Cleaner

-- A call up to its next suspension: what becomes of it and of the entry.
unfoldable pub advance : Cleaner → Bool → Cleaner × Bool
advance not_called true = (closing_websocket, true)
advance not_called false = (returned, false)
advance closing_websocket tracked = (closing_unix, tracked)
advance closing_unix true = (returned, false)
advance closing_unix false = (key_error, false)
advance over tracked = (over, tracked)

-- An `await` that raises.
pub break_off : Cleaner → Cleaner
break_off closing_websocket = failed
break_off closing_unix = failed
break_off other = other

infix 40 ◌⟶◌ ◌⟶*◌
pub data ◌⟶◌ (r s : Race) : Type 0 where
  handler_moves :
      s ≡ record r {
        handler = (advance r.handler r.tracked).0;
        tracked = (advance r.handler r.tracked).1;
      }
      → r ⟶ s
  shutdown_moves :
      s ≡ record r {
        shutdown = (advance r.shutdown r.tracked).0;
        tracked = (advance r.shutdown r.tracked).1;
      }
      → r ⟶ s
  handler_breaks : s ≡ record r { handler = break_off r.handler } → r ⟶ s
  shutdown_breaks : s ≡ record r { shutdown = break_off r.shutdown } → r ⟶ s

pub data ◌⟶*◌ (r : Race) : Race → Type 0 where
  here : r ⟶* r
  more : {s t : Race} → r ⟶* s → s ⟶ t → r ⟶* t

abbrev pub begun : Race
begun = record { tracked = true; handler = not_called; shutdown = not_called }
