-- ===== src/Tests/Websockets.antt =====
-- The websocket proxies at chosen answers.
use migration_transport_hack.Base.{
  ◌⊎◌, ℕ, zero, suc, ◌≡◌, ◌≢◌, refl, true, Option, none, some, List, [], ◌∷◌, map, String,
}
use migration_transport_hack.Async.{Result, ok, err, exception, None}
use migration_transport_hack.Connect.{Probe, absent, accepted}
use migration_transport_hack.Dict.{Dict, lookup}
use migration_transport_hack.Proxy.{
  Socket, unstarted, running, over, live, back_done, forth_done, wait_cancelled,
}
use migration_transport_hack.Forward.{Chunk}
use migration_transport_hack.Websocket.{
  binary, text, Incoming, arrives, drain_raises, Outgoing, reads,
}
use migration_transport_hack.Websocket.Server.{Answers, handle_client, client_cn, client_cn_from}
use migration_transport_hack.Websocket.Server.Cleanup.{handle_client_ends, handle_client_untracks}
use migration_transport_hack.Websocket.Client.{
  Client, Closers, closes_websocket, closes_unix, handle_qemu_connection,
}
use migration_transport_hack.Websocket.Client.Cleanup.{handle_qemu_connection_closes}

abbrev mixed : List Incoming
mixed =
    arrives (binary (1 ∷ 2 ∷ []))
    ∷ arrives (text (9 ∷ []))
    ∷ drain_raises (3 ∷ [])
    ∷ arrives (binary (4 ∷ []))
    ∷ []

abbrev local : List Outgoing
local = reads (1 ∷ 2 ∷ []) ∷ reads (3 ∷ []) ∷ reads [] ∷ reads (4 ∷ []) ∷ []

abbrev wire : List Chunk → List Incoming
wire ds = map (λ d. arrives (binary d)) ds

-- A certificate with a name in its second part, and a client that shows it.
abbrev certified : Answers
certified = record {
  subject = some ((("countryName", "US") ∷ []) ∷ (("commonName", "source") ∷ []) ∷ []);
  waited = back_done;
  unix_closes = ok tt;
}

client_cn_result : client_cn certified.subject ≡ some "source"
unfolding client_cn client_cn_from
client_cn_result = refl

abbrev ready : ℕ → Probe
ready n = elim n [ zero ↦ absent | suc m ↦ accepted ]

abbrev others : Dict (Option String)
others = (7, none) ∷ []

handle_client_untracks_example :
    let (r, s) = handle_client 3 ready certified others in
    (r ≡ ok tt) × (lookup 7 s.active_connections ≡ some none)
handle_client_untracks_example = handle_client_untracks 3 ready certified others 7

abbrev shut : Answers
shut = record { subject = none; waited = wait_cancelled; unix_closes = ok tt }

abbrev pub quiet : Closers
quiet = record { websocket = λ i. ok tt; unix = λ i. ok tt }

-- The client serves connection 5 already.
abbrev pub serving : Client
serving = record {
  active_connections = (5, tt) ∷ [];
  closings = [];
  unix_to_ws = unstarted;
  ws_to_unix = unstarted;
  socket_file = true;
}

handle_qemu_connection_closes_example :
    let (r, s') = handle_qemu_connection 6 (ok tt) (ok tt) forth_done quiet serving in
    (s'.closings ≡ closes_websocket 6 ∷ closes_unix 6 ∷ [])
    × (lookup 6 s'.active_connections ≡ none)
    × (r ≡ ok tt)
    × (s'.unix_to_ws ≡ over)
    × (s'.ws_to_unix ≡ over)
handle_qemu_connection_closes_example =
    handle_qemu_connection_closes 6 forth_done quiet serving refl refl

abbrev unreachable : Result None
unreachable = err exception

handle_client_ends_example :
    let s = (handle_client 3 ready shut others).1 in
    ((s.unix_writer ≢ live)
      × (s.ws_to_unix ≢ running)
      × (s.unix_to_ws ≢ running)
      × ((shut.waited ≢ wait_cancelled) ⊎ (s.unix_writer ≡ Socket.absent)))
    ⊎ ((shut.waited ≡ wait_cancelled)
        × (s.unix_writer ≡ live)
        × (s.ws_to_unix ≡ running)
        × (s.unix_to_ws ≡ running))
handle_client_ends_example = handle_client_ends 3 ready shut others
