-- ===== src/Proxy/Service/Unordered.antt =====
-- What the TCP server prints is a function of the bag of the sizes that its connections read.
use mathlib.Core.Quot
use migration_transport_hack.Base.{ℕ, ◌≡◌, refl, sym, ap, ◌∙◌, List, [], ◌∷◌, map, length}
use migration_transport_hack.Async.{ok}
use migration_transport_hack.Histogram.{Histogram, print_histogram, count_read}
use migration_transport_hack.Histogram.Sizes.{Sizes, SameSizes, tallied, report_of}
use migration_transport_hack.Forward.{Chunk}
use migration_transport_hack.Forward.Shared.{counted}
use migration_transport_hack.Proxy.System.{Event, idle}
use migration_transport_hack.Proxy.System.Shared.{all_reads}
use migration_transport_hack.Proxy.Service.{Ending, main}
use migration_transport_hack.Proxy.Service.Laws.{main_reports}

-- The sizes of the chunks that all the connections read, by the schedule.
abbrev pub sizes_read : List Event → List ℕ
sizes_read es = map length (all_reads es idle)

tallied-counted : (ds : List Chunk) (h : Histogram) → counted ds h ≡ tallied (map length ds) h
tallied-counted [] h = refl
tallied-counted (d ∷ ds) h = tallied-counted ds (count_read (length d) h)

-- The abstract view of a run: the sizes read, in no order.
abbrev pub read_by_all : List Event → Sizes
read_by_all es = Quot.mk (sizes_read es)

-- A server that has its sockets prints one report, however it ends, and this is the report on the
-- sizes that its connections read, their order and the connections forgotten.
main-report_of :
    (es : List Event) (ending : Ending)
    → (main (ok tt) es ending).1.printed ≡ report_of (read_by_all es) ∷ []
unfolding report_of
main-report_of es ending =
    (main_reports es ending).2
    ∙ ap (λ h. print_histogram h ∷ []) (tallied-counted (all_reads es idle) [])

-- Two runs of a server that has its sockets, under any schedules and with any endings, in which the
-- same sizes are read, each as often, print the same.
pub SameSizes-printed :
    (es other : List Event) (ending last : Ending)
    → SameSizes (sizes_read es) (sizes_read other)
    → (main (ok tt) es ending).1.printed ≡ (main (ok tt) other last).1.printed
SameSizes-printed es other ending last same =
    main-report_of es ending
    ∙ ap (λ b. report_of b ∷ []) (Quot.sound same)
    ∙ sym (main-report_of other last)
