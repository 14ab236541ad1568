-- ===== src/Websocket/Client/Service.antt =====
-- `main` of migrate-websocket/websocket-migration-client.py.
use migration_transport_hack.Base.{◌≡◌, ◌≢◌, ℕ, false, none}
use migration_transport_hack.Dict.{lookup}
use migration_transport_hack.Async.{Result, ok, err, exception, cancelled_error, Action, None}
use migration_transport_hack.Websocket.Client.{Client, Closers, start_unix_server}
use migration_transport_hack.Websocket.Client.Cleanup.{IsSmooth, start_unix_server_cleans}

-- How the server on the unix socket is left: by itself, or by `KeyboardInterrupt`, which no handler
-- of `start_unix_server` catches.
pub data Serving : Type 0 where
  serves : Action Client None → Serving
  interrupted : (Client → Client) → Serving  -- after what the connections have done

-- As the handlers around it see it: `KeyboardInterrupt`, like a cancellation, is no `Exception`.
abbrev served : Serving → Action Client None
served (serves f) s = f s
served (interrupted f) s = (err cancelled_error, f s)

-- `except KeyboardInterrupt`; it comes while the server serves. An exception of the `finally` block
-- takes its place and leaves `main`.
abbrev caught : Result None → Serving → Result None → Result None
caught (ok _) (interrupted f) (err exception) = err exception
caught (ok _) (interrupted f) _ = ok tt
caught _ _ r = r

unfoldable pub main : Closers → Result None → Serving → Client → Result None × Client
main c start serving s =
    let (r, s') = start_unix_server c start (served serving) s in (caught start serving r, s')

caught_calm :
    (start : Result None) (serving : Serving) (r : Result None)
    → r ≢ err exception
    → caught start serving r ≢ err exception
caught_calm (ok _) (interrupted f) (err exception) h = h
caught_calm (ok _) (interrupted f) (err cancelled_error) h = λ e. cc
caught_calm (ok _) (interrupted f) (ok _) h = λ e. cc
caught_calm (ok _) (serves f) r h = h
caught_calm (err e) serving r h = h

-- If closing raises nothing and no handler cleans up at the same time, then however the unix socket
-- starts and its serving ends, also by an interrupt from the keyboard, the program leaves no socket
-- file and no tracked connection, and raises nothing but a cancellation.
pub client_main_cleans :
    (c : Closers) (start : Result None) (serving : Serving) (s : Client) (j : ℕ)
    → IsSmooth c
    → let (r, s') = main c start serving s in
      (s'.socket_file ≡ false) × (lookup j s'.active_connections ≡ none) × (r ≢ err exception)
unfolding main
client_main_cleans c start serving s j smooth =
    let (file, table, calm) = start_unix_server_cleans c start (served serving) s j smooth in
    (file, table, caught_calm start serving _ calm)
