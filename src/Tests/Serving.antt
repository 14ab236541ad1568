-- ===== src/Tests/Serving.antt =====
-- The servers that listen with a TLS context, and the scripts that are sent a descriptor.
use migration_transport_hack.Base.{◌≡◌, refl, none, some, true, false, List, [], ◌∷◌}
use migration_transport_hack.Async.{ok}
use migration_transport_hack.Ssl.{admits, tcp_receiver_context}
use migration_transport_hack.Perf.Accept.{Arrival, connects, listening, to_unix, returned, main}
use migration_transport_hack.Perf.Accept.Laws.{socket_of, main_serves}
use migration_transport_hack.Tls.{migrate, migrate_incoming}
use migration_transport_hack.Tls.Laws.{Follows}
use migration_transport_hack.Tls.Descriptor.{
  rights, malformed, other, Sockets, Peer, script_send, script_receive,
}
use migration_transport_hack.Tls.Descriptor.Laws.{scripts_pass}
use migration_transport_hack.Tests.Certifying.{reader, full, server_made, elsewhere}
use migration_transport_hack.Tests.Descriptors.{old, old-IsRefusing}

-- The second client fails its handshake.
abbrev arrivals : List Arrival
arrivals = connects 4 true ∷ connects 5 false ∷ connects 6 true ∷ []

main_serves_example :
    (main reader full true true arrivals ≡ (
      returned,
      record {
        socket = socket_of false listening;
        context = some server_made;
        threads = (4, to_unix) ∷ [];
      },
    ))
    × (admits server_made elsewhere ≡ false)
unfolding tcp_receiver_context
main_serves_example = main_serves reader full true arrivals server_made elsewhere refl

abbrev peer : Peer
peer = record {
  binding = ok tt;
  accepting = ok tt;
  message = ok (other ∷ rights 7 ∷ malformed ∷ []);
}

abbrev stale : Sockets
stale = record { file = true; sock = false; conn = false }

abbrev shut : Sockets
shut = record { file = false; sock = false; conn = false }

scripts_pass_example :
    (Follows old (migrate "fd:migfd") 7 (script_send old peer (ok none) stale).0
      × ((script_send old peer (ok none) stale).1 ≡ shut))
    × (Follows old (migrate_incoming "fd:migfd") 7 (script_receive old peer (ok none) stale).0
        × ((script_receive old peer (ok none) stale).1 ≡ shut))
scripts_pass_example =
    scripts_pass old peer (ok none) stale (other ∷ []) 7 (malformed ∷ []) old-IsRefusing refl refl
      refl refl refl refl refl
