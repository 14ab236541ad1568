-- ===== src/Websocket/Client/Cleanup.antt =====
-- What the websocket client's handlers leave behind.
use migration_transport_hack.Base.{
  true, ◌⊎◌, ◌||◌, ◌≢◌, refl, false, Bool, List, ℕ, ◌≡◌, none, arith, ◌==◌, if◌then◌else◌, [], ◌∷◌,
  ◌++◌,
}
use migration_transport_hack.Dict.{
  lookup-insert, insert, keys, Dict, lookup, contains, lookup-erase,
}
use migration_transport_hack.Async.{exception, cancelled_error, err, None, Result, ok}
use migration_transport_hack.Proxy.{running, over, Waited, wait_cancelled}
use migration_transport_hack.Websocket.Client.{
  shut_down, start_unix_server, Waited, cleanup_all, handle_qemu_connection, closes_websocket,
  closes_unix, Client, Closers, cleanup_connection,
}

-- If closing raises nothing, `cleanup_connection` closes both sockets of a tracked connection,
-- the websocket first, forgets that connection alone, and leaves an unknown one alone.
cleanup_connection_lem :
    (c : Closers) (i : ℕ) (s : Client) (j : ℕ)
    → c.websocket i ≡ ok tt
    → c.unix i ≡ ok tt
    → let (r, s') = cleanup_connection c i s in
      (r ≡ ok tt)
      × (s'.closings ≡ (
          if contains i s.active_connections
          then (s.closings ++ closes_websocket i ∷ []) ++ closes_unix i ∷ []
          else s.closings))
      × (lookup j s'.active_connections ≡ (if i == j then none else lookup j s.active_connections))
unfolding cleanup_connection
cleanup_connection_lem c i s j ew eu = ground (arith, lookup-erase i j s.active_connections)

-- If closing raises nothing, a connection that was opened has both of its sockets closed once, in
-- the end, and is forgotten. Both tasks are over then, unless the wait for them was cancelled:
-- then both run on, and the handler passes the cancellation on.
pub handle_qemu_connection_closes :
    (i : ℕ) (w : Waited) (c : Closers) (s : Client)
    → c.websocket i ≡ ok tt
    → c.unix i ≡ ok tt
    → let (r, s') = handle_qemu_connection i (ok tt) (ok tt) w c s in
      (s'.closings ≡ (s.closings ++ closes_websocket i ∷ []) ++ closes_unix i ∷ [])
      × (lookup i s'.active_connections ≡ none)
      × (r ≡ elim w [ wait_cancelled ↦ err cancelled_error | _ ↦ ok tt ])
      × (s'.unix_to_ws ≡ elim w [ wait_cancelled ↦ running | _ ↦ over ])
      × (s'.ws_to_unix ≡ elim w [ wait_cancelled ↦ running | _ ↦ over ])
unfolding handle_qemu_connection cleanup_connection
handle_qemu_connection_closes i w c s ew eu = ground (
  arith,
  lookup-erase i i (insert i tt s.active_connections),
  lookup-insert i i tt s.active_connections,
)

-- When the certificates or the websocket cannot be had, the handler closes nothing: QEMU's
-- connection, which is not tracked yet, is left open.
handle_qemu_connection_leaks :
    (i : ℕ) (context opening : Result None) (w : Waited) (c : Closers) (s : Client)
    → lookup i s.active_connections ≡ none
    → (context ≢ ok tt) ⊎ (opening ≢ ok tt)
    → (handle_qemu_connection i context opening w c s).1 ≡ s
unfolding handle_qemu_connection cleanup_connection
handle_qemu_connection_leaks i context opening w c s new h = ground arith

-- Every key of the list.
abbrev pub member : ℕ → List ℕ → Bool
member j [] = false
member j (i ∷ is) = (i == j) || member j is

-- All closings return normally.
abbrev pub IsSmooth : Closers → Type 0
IsSmooth c = (i : ℕ) → (c.websocket i ≡ ok tt) × (c.unix i ≡ ok tt)

cleanup_all_lem :
    (c : Closers) (is : List ℕ) (s : Client) (j : ℕ)
    → IsSmooth c
    → ((cleanup_all c is s).0 ≡ ok tt)
      × (lookup j (cleanup_all c is s).1.active_connections
          ≡ (if member j is then none else lookup j s.active_connections))
unfolding cleanup_all
cleanup_all_lem c [] s j smooth = (refl, refl)
cleanup_all_lem c (i ∷ is) s j smooth =
    let one = cleanup_connection_lem c i s j (smooth i).0 (smooth i).1 in
    let rest = cleanup_all_lem c is (cleanup_connection c i s).1 j smooth in
    ground (arith, one.0, one.2, rest)

member-keys :
    (j : ℕ) (d : Dict (Unit {0})) → (if member j (keys d) then none else lookup j d) ≡ none
member-keys j [] = refl
member-keys j ((i, v) ∷ d) = ground (arith, member-keys j d)

-- The `finally` block leaves no tracked connection and no socket file.
abbrev IsClean : ℕ → Result None × Client → Type 0
IsClean j (r, s) = (r ≡ ok tt) × (s.socket_file ≡ false) × (lookup j s.active_connections ≡ none)

shut_down-IsClean : (c : Closers) (s : Client) (j : ℕ) → IsSmooth c → IsClean j (shut_down c s)
unfolding shut_down
shut_down-IsClean c s j smooth = ground (
  arith,
  cleanup_all_lem c (keys s.active_connections) s j smooth,
  member-keys j s.active_connections,
)

-- If closing raises nothing and no handler cleans up at the same time, then however the server
-- starts and serving ends, the client leaves no tracked connection and no socket file, and of the
-- exceptions it passes on none but a cancellation.
pub start_unix_server_cleans :
    (c : Closers) (start : Result None) (serve : Client → Result None × Client) (s : Client) (j : ℕ)
    → IsSmooth c
    → let (r, s') = start_unix_server c start serve s in
      (s'.socket_file ≡ false) × (lookup j s'.active_connections ≡ none) × (r ≢ err exception)
unfolding start_unix_server
start_unix_server_cleans c (ok _) serve s j smooth =
    ground (arith, shut_down-IsClean c (serve (record s { socket_file = true })).1 j smooth)
start_unix_server_cleans c (err e) serve s j smooth =
    ground (arith, shut_down-IsClean c (record s { socket_file = false }) j smooth)
