-- ===== src/Proxy/Client/Service.antt =====
-- `main` of migrate-proxy/tcp-migration-client.py: what is left of a run however it ends.
use migration_transport_hack.Base.{◌≡◌, refl, List, [], ◌∷◌, false}
use migration_transport_hack.Async.{Result, ok, err, exception, cancelled_error, None}
use migration_transport_hack.Histogram.{Histogram, Report, print_histogram}
use migration_transport_hack.Forward.Shared.{counted}
use migration_transport_hack.Proxy.System.{Event, idle, run}
use migration_transport_hack.Proxy.System.Shared.{all_reads, run-counted}
use migration_transport_hack.Proxy.Service.{Ending, ends, keyboard_interrupt}
use migration_transport_hack.Proxy.Client.{Listener, connect_and_forward}

-- How `serve_forever` is left, as the handlers around it see it: `KeyboardInterrupt`, like a
-- cancellation, is no `Exception`.
abbrev served : Ending → Result None
served (ends r) = r
served keyboard_interrupt = err cancelled_error

-- `except KeyboardInterrupt`; it comes while the server serves.
abbrev caught : Result None → Ending → Result None → Result None
caught (ok _) keyboard_interrupt r = ok tt
caught _ _ r = r

-- Connections come once the unix socket is there.
abbrev forwarded : Result None → List Event → Histogram
forwarded (ok _) es = (run es idle).read_histogram
forwarded (err e) es = []

pub record Leftover : Type 0 where
  pub result : Result None
  pub listener : Listener
  pub printed : List Report

-- `start` is the answer of `start_unix_server`; then the events happen, and `serve_forever` ends.
unfoldable pub main : Result None → List Event → Ending → Listener → Leftover
main start es ending l =
    let (r, l') = connect_and_forward start (served ending) l in
    record {
      result = caught start ending r;
      listener = l';
      printed = print_histogram (forwarded start es) ∷ [];
    }

-- Whether a cancellation leaves the program.
abbrev pub outcome : Result None → Ending → Result None
outcome (err cancelled_error) ending = err cancelled_error
outcome (ok _) (ends (err cancelled_error)) = err cancelled_error
outcome _ _ = ok tt

-- What all the connections of a run have read: nothing if the unix socket could not be made.
abbrev pub reads_after : Result None → List Event → Histogram
reads_after (ok _) es = counted (all_reads es idle) []
reads_after (err e) es = []

-- However the client's unix socket starts and its serving ends, nothing stands at the socket's path
-- and nothing serves afterwards, only a cancellation leaves the program, and one report is printed:
-- that of the histogram of all the chunks that the connections have read.
pub client_main_reports :
    (start : Result None) (es : List Event) (ending : Ending) (l : Listener)
    → l.serving ≡ false
    → main start es ending l ≡ record {
      result = outcome start ending;
      listener = record { socket_file = false; serving = false };
      printed = print_histogram (reads_after start es) ∷ [];
    }
unfolding main connect_and_forward
client_main_reports (ok _) es keyboard_interrupt l e = rw (run-counted es idle) refl
client_main_reports (ok _) es (ends (ok _)) l e = rw (run-counted es idle) refl
client_main_reports (ok _) es (ends (err exception)) l e = rw (run-counted es idle) refl
client_main_reports (ok _) es (ends (err cancelled_error)) l e = rw (run-counted es idle) refl
client_main_reports (err exception) es ending l e = rw e refl
client_main_reports (err cancelled_error) es ending l e = rw e refl
