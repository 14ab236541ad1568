-- ===== src/Proxy/Service/Laws.antt =====
-- However the TCP server ends, what its sockets and its printed histogram are.
use migration_transport_hack.Base.{◌≡◌, refl, ap, List, [], ◌∷◌}
use migration_transport_hack.Async.{Raised, ok, err}
use migration_transport_hack.Histogram.{print_histogram}
use migration_transport_hack.Forward.Shared.{counted}
use migration_transport_hack.Proxy.System.{Event, idle}
use migration_transport_hack.Proxy.System.Shared.{all_reads, run_histogram}
use migration_transport_hack.Proxy.Service.{
  closed_server, created, Ending, ends, keyboard_interrupt, start, stop, main,
}

-- An interrupt from the keyboard is taken for a normal end.
abbrev pub outcome : Ending → Ending
outcome keyboard_interrupt = ends (ok tt)
outcome (ends r) = ends r

-- Once the server has its sockets, whatever its connections do and however it ends, `main` leaves
-- the sockets closed and prints one report: that of the histogram of all the chunks that all the
-- connections have read. Other exceptions than `KeyboardInterrupt` leave `main` too.
pub main_reports :
    (es : List Event) (ending : Ending)
    → let (r, s) = main (ok tt) es ending in
      (r ≡ outcome ending)
      × (s.server ≡ closed_server)
      × (s.printed ≡ print_histogram (counted (all_reads es idle) []) ∷ [])
unfolding main start stop
main_reports es keyboard_interrupt =
    (refl, refl, ap (λ h. print_histogram h ∷ []) (run_histogram es idle).0)
main_reports es (ends r) = (refl, refl, ap (λ h. print_histogram h ∷ []) (run_histogram es idle).0)

-- Where the address cannot be bound, the error leaves `main` after a report of no reads.
main_unbound :
    (e : Raised) (es : List Event) (ending : Ending)
    → main (err e) es ending ≡ (ends (err e), record created { printed = print_histogram [] ∷ [] })
unfolding main start
main_unbound e es ending = refl
