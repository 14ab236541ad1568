-- ===== src/Perf/Accept.antt =====
-- `start_server` and `main` of proxy-perf/tcp/receive.py: the loop that accepts clients, makes the
-- TLS handshake with each, and gives each a thread.
pub mod Laws
use migration_transport_hack.Base.{ℕ, Bool, true, false, Option, none, some, List, [], ◌∷◌, snoc}
use migration_transport_hack.Async.{Result, ok, err, exception, cancelled_error, None}
use migration_transport_hack.Certificates.{Directory}
use migration_transport_hack.Ssl.{Context, Made, made, raised, Library, tcp_receiver_context}

-- What a round of the loop meets.
pub data Arrival : Type 0 where
  connects : ℕ → Bool → Arrival  -- a client, and whether `wrap_socket` returns
  accept_raises : Arrival
  interrupts : Arrival  -- `KeyboardInterrupt`

pub data ServerSocket : Type 0 where
  unmade : ServerSocket
  unbound : ServerSocket
  listening : ServerSocket
  shut : ServerSocket

-- `handle_client_unix` or `handle_client`
pub data Handling : Type 0 where
  to_unix : Handling
  measuring : Handling

abbrev handling : Bool → Handling
handling true = to_unix
handling false = measuring

pub record Server : Type 0 where
  pub socket : ServerSocket
  pub context : Option Context
  pub threads : List (ℕ × Handling)  -- those started, the first client first

abbrev pub unstarted : Server
unstarted = record { socket = unmade; context = none; threads = [] }

-- How `start_server` ends: not yet, normally, or by an exception.
pub data Ending : Type 0 where
  accepting : Ending
  returned : Ending
  raises : Ending

abbrev start_thread : Bool → ℕ → Server → Server
start_thread unix client s = record s { threads = snoc s.threads (client, handling unix) }

-- Every exception leaves the loop; both handlers log it, and `finally` closes the socket.
unfoldable pub accept_loop : Bool → List Arrival → Server → Ending × Server
accept_loop unix [] s = (accepting, s)
accept_loop unix (connects client true ∷ rest) s =
    accept_loop unix rest (start_thread unix client s)
accept_loop unix (connects client false ∷ rest) s = (returned, record s { socket = shut })
accept_loop unix (accept_raises ∷ rest) s = (returned, record s { socket = shut })
accept_loop unix (interrupts ∷ rest) s = (returned, record s { socket = shut })

-- `bound` tells whether `bind` and `listen` return; they stand before the `try`.
abbrev listen : Bool → Bool → List Arrival → Context → Ending × Server
listen unix true arrivals c =
    accept_loop unix arrivals (record unstarted { socket = listening; context = some c })
listen unix false arrivals c = (raises, record unstarted { socket = unbound; context = some c })

unfoldable pub start_server : Made → Bool → Bool → List Arrival → Ending × Server
start_server (made c) unix bound arrivals = listen unix bound arrivals c
start_server (raised e) unix bound arrivals = (raises, unstarted)

-- `main`, which catches what `start_server` raises. The choice `2` asks for a unix socket.
abbrev pub caught : Ending × Server → Ending × Server
caught (raises, s) = (returned, s)
caught (accepting, s) = (accepting, s)
caught (returned, s) = (returned, s)

unfoldable pub main : Library → Directory → Bool → Bool → List Arrival → Ending × Server
main lib d two bound arrivals =
    caught (start_server (tcp_receiver_context lib d) two bound arrivals)
