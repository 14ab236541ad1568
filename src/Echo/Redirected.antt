-- ===== src/Echo/Redirected.antt =====
-- `main` of bpf_redirect/tcp-server.py: its argument, and the loop that gives each client a thread.
use mathlib.Core.List.{append-nil, append_assoc}
use migration_transport_hack.Base.{
  ℕ, ◌≡◌, ◌∙◌, sym, ap, Option, none, some, List, [], ◌∷◌, ◌++◌, snoc,
}
use migration_transport_hack.Async.{Result, ok, err, None}
use migration_transport_hack.Proxy.{Socket, absent, live, closed}

-- What `accept` comes to. `KeyboardInterrupt` ends the loop like an exception.
data Accepted : Type 0 where
  client : ℕ → Accepted
  raises : Accepted

data Ending : Type 0 where
  accepting : Ending
  returned : Ending
  exited : Ending  -- `sys.exit(1)`

record Server : Type 0 where
  listener : Socket
  threads : List ℕ  -- the clients that have one, the first first

accept_loop : List Accepted → Server → Ending × Server
accept_loop [] s = (accepting, s)
accept_loop (client c ∷ rest) s = accept_loop rest (record s { threads = snoc s.threads c })
accept_loop (raises ∷ rest) s = (returned, record s { listener = closed })

abbrev listen : Result None → List Accepted → Ending × Server
listen (ok _) arrivals = accept_loop arrivals (record { listener = live; threads = [] })
listen (err e) arrivals = (returned, record { listener = closed; threads = [] })

-- `port` is the number that the one argument gives, if it does.
main : Option ℕ → Result None → List Accepted → Ending × Server
main none binding arrivals = (exited, record { listener = absent; threads = [] })
main (some port) binding arrivals = listen binding arrivals

-- The clients before the first `accept` that raises.
abbrev clients : List Accepted → List ℕ
clients [] = []
clients (client c ∷ rest) = c ∷ clients rest
clients (raises ∷ rest) = []

-- Whether every `accept` has returned.
abbrev after : List Accepted → Socket → Ending × Socket
after [] k = (accepting, k)
after (client c ∷ rest) k = after rest k
after (raises ∷ rest) k = (returned, closed)

accept_loop_lem :
    (arrivals : List Accepted) (s : Server)
    → accept_loop arrivals s ≡ (
      (after arrivals s.listener).0,
      record { listener = (after arrivals s.listener).1; threads = s.threads ++ clients arrivals },
    )
unfolding accept_loop
accept_loop_lem [] s =
    ap (λ ts. (accepting, record s { threads = ts })) (sym (append-nil s.threads))
accept_loop_lem (client c ∷ rest) s =
    accept_loop_lem rest (record s { threads = snoc s.threads c })
    ∙ ap
        (λ ts. (
          (after rest s.listener).0,
          record { listener = (after rest s.listener).1; threads = ts },
        ))
        (append_assoc s.threads (c ∷ []) (clients rest))
accept_loop_lem (raises ∷ rest) s =
    ap (λ ts. (returned, record { listener = closed; threads = ts })) (sym (append-nil s.threads))

-- Once it listens, the server has started a thread for exactly the clients before the first `accept`
-- that raises, and there it closes its socket and returns.
main_lem :
    (port : ℕ) (arrivals : List Accepted)
    → main (some port) (ok tt) arrivals ≡ (
      (after arrivals live).0,
      record { listener = (after arrivals live).1; threads = clients arrivals },
    )
unfolding main
main_lem port arrivals = accept_loop_lem arrivals (record { listener = live; threads = [] })
