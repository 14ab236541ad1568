-- ===== src/Perf/Accept/Laws.antt =====
-- Which clients of the receiver get a thread, and that one failed handshake ends the server.
use mathlib.Core.List.{append-nil, append_assoc}
use migration_transport_hack.Base.{
  ◌≡◌, refl, sym, ap, ◌∙◌, ℕ, Bool, true, false, Option, some, List, [], ◌∷◌, ◌++◌, map,
}
use migration_transport_hack.Certificates.{Directory}
use migration_transport_hack.Ssl.{
  client_auth, Context, Made, made, raised, Library, Presented, admits, tcp_receiver_context,
}
use migration_transport_hack.Ssl.Laws.{tcp_receiver_context-admits, presents, is_own}
use migration_transport_hack.Perf.Accept.{
  Arrival, connects, accept_raises, interrupts, ServerSocket, listening, shut, handling, Server,
  unstarted, Ending, accepting, returned, start_thread, accept_loop, start_server, caught, main,
}

-- The clients before the first round that fails.
abbrev pub served : List Arrival → List ℕ
served (connects client true ∷ rest) = client ∷ served rest
served _ = []

-- Whether no round fails.
abbrev pub goes_on : List Arrival → Bool
goes_on [] = true
goes_on (connects client true ∷ rest) = goes_on rest
goes_on _ = false

abbrev pub end_of : Bool → Ending
end_of true = accepting
end_of false = returned

abbrev pub socket_of : Bool → ServerSocket → ServerSocket
socket_of true k = k
socket_of false k = shut

accept_loop_lem :
    (unix : Bool) (arrivals : List Arrival) (s : Server)
    → accept_loop unix arrivals s ≡ (
      end_of (goes_on arrivals),
      record s {
        socket = socket_of (goes_on arrivals) s.socket;
        threads = s.threads ++ map (λ client. (client, handling unix)) (served arrivals);
      },
    )
unfolding accept_loop
accept_loop_lem unix [] s =
    ap (λ ts. (accepting, record s { threads = ts })) (sym (append-nil s.threads))
accept_loop_lem unix (connects client true ∷ rest) s =
    accept_loop_lem unix rest (start_thread unix client s)
    ∙ ap
        (λ ts. (
          end_of (goes_on rest),
          record s { socket = socket_of (goes_on rest) s.socket; threads = ts },
        ))
        (append_assoc s.threads ((client, handling unix) ∷ [])
          (map (λ c. (c, handling unix)) (served rest)))
accept_loop_lem unix (connects client false ∷ rest) s =
    ap (λ ts. (returned, record s { socket = shut; threads = ts })) (sym (append-nil s.threads))
accept_loop_lem unix (accept_raises ∷ rest) s =
    ap (λ ts. (returned, record s { socket = shut; threads = ts })) (sym (append-nil s.threads))
accept_loop_lem unix (interrupts ∷ rest) s =
    ap (λ ts. (returned, record s { socket = shut; threads = ts })) (sym (append-nil s.threads))

start_server-made :
    (m : Made) (two : Bool) (arrivals : List Arrival) (c : Context)
    → m ≡ made c
    → start_server m two true arrivals ≡ (
      end_of (goes_on arrivals),
      record {
        socket = socket_of (goes_on arrivals) listening;
        context = some c;
        threads = map (λ client. (client, handling two)) (served arrivals);
      },
    )
unfolding start_server
start_server-made m two arrivals c e =
    rw e (accept_loop_lem two arrivals (record unstarted { socket = listening; context = some c }))

caught-end_of : (b : Bool) (s : Server) → caught (end_of b, s) ≡ (end_of b, s)
caught-end_of true s = refl
caught-end_of false s = refl

-- Where the context is made and the address bound, a thread is started, in the order of the
-- arrivals, for exactly the clients that come before the first failed handshake, failed `accept` or
-- interrupt; there the server closes its socket and returns, so one client whose handshake fails
-- ends it for all. Its context admits just the clients with a certificate of the authority in
-- `ca.pem`, in date and usable by a client.
pub main_serves :
    (lib : Library) (d : Directory) (two : Bool) (arrivals : List Arrival) (c : Context)
    (p : Option Presented)
    → tcp_receiver_context lib d ≡ made c
    → (main lib d two true arrivals ≡ (
      end_of (goes_on arrivals),
      record {
        socket = socket_of (goes_on arrivals) listening;
        context = some c;
        threads = map (λ client. (client, handling two)) (served arrivals);
      },
    ))
      × (admits c p ≡ presents is_own client_auth p)
unfolding main
main_serves lib d two arrivals c p e = (
  ap caught (start_server-made (tcp_receiver_context lib d) two arrivals c e)
      ∙ caught-end_of (goes_on arrivals) _,
  tcp_receiver_context-admits lib d c p e,
)

start_server_unbound :
    (m : Made) (two : Bool) (arrivals : List Arrival)
    → let (r, s) = caught (start_server m two false arrivals) in (r ≡ returned) × (s.threads ≡ [])
unfolding start_server
start_server_unbound (made c) two arrivals = (refl, refl)
start_server_unbound (raised e) two arrivals = (refl, refl)

-- A server whose address cannot be bound returns from `main` and has started no thread.
receiver_unbound :
    (lib : Library) (d : Directory) (two : Bool) (arrivals : List Arrival)
    → let (r, s) = main lib d two false arrivals in (r ≡ returned) × (s.threads ≡ [])
unfolding main
receiver_unbound lib d two arrivals = start_server_unbound (tcp_receiver_context lib d) two arrivals
