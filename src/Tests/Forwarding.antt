-- ===== src/Tests/Forwarding.antt =====
-- The forwarder of the TCP proxies and the tunnel of the websocket ones, on small streams.
use mathlib.Core.List.{Sublist}
use migration_transport_hack.Base.{ℕ, ◌*◌, ◌<◌, ◌≡◌, refl, true, List, [], ◌∷◌, ◌++◌, arith}
use migration_transport_hack.Histogram.{
  Histogram, Line, report, print_histogram, total_reads, count_read,
}
use migration_transport_hack.Histogram.Laws.{
  IsPercent, Rises, items, parts, lookup, print_histogram_lem,
}
use migration_transport_hack.Queue.{put, get, close}
use migration_transport_hack.Forward.{
  received, on_write, write_round, deliver, write, Turn, read_returns, read_runs, write_runs, start,
  run, finished, queue_size, step,
}
use migration_transport_hack.Forward.Order.{kept, reads, run-kept}
use migration_transport_hack.Forward.Wakeup.{IsAwake, start-IsAwake, run-IsAwake}
use migration_transport_hack.Forward.Drain.{written-eq-reads}
use migration_transport_hack.Forward.Overflow.{flood, last_of, flood-last_of}

-- Two chunks, then the end of the stream; the write task sleeps first and drains last.
abbrev exchange : List Turn
exchange =
    write_runs
    ∷ read_returns (1 ∷ 2 ∷ [])
    ∷ read_runs
    ∷ read_returns (3 ∷ [])
    ∷ write_runs
    ∷ read_runs
    ∷ read_returns []
    ∷ read_runs
    ∷ write_runs
    ∷ write_runs
    ∷ []

exchange_result :
    ((run exchange (start [])).written ≡ (1 ∷ 2 ∷ []) ∷ (3 ∷ []) ∷ [])
    × (finished (run exchange (start [])) ≡ true)
unfolding run step received on_write write_round deliver write put get close count_read finished
exchange_result = (refl, refl)

written-eq-reads_example : (run exchange (start [])).written ≡ reads exchange (start [])
unfolding run step received on_write write_round deliver write put get close count_read
written-eq-reads_example = written-eq-reads exchange [] (omega arith) refl

run-kept_example :
    Sublist (kept (run exchange (start []))) (kept (start []) ++ reads exchange (start []))
run-kept_example = run-kept exchange (start [])

run-IsAwake_example : IsAwake (run exchange (start []))
run-IsAwake_example = run-IsAwake exchange (start []) (start-IsAwake [])

-- The same up to the end of the stream: one chunk is still queued.
abbrev cut_short : List Turn
cut_short = read_returns (1 ∷ 2 ∷ []) ∷ read_runs ∷ read_returns [] ∷ read_runs ∷ []

flood-last_of_example :
    let s = run (flood ((1, []) ∷ (2, []) ∷ [])) (start []) in
    (s.queue.queue ≡ last_of queue_size ((1 ∷ []) ∷ (2 ∷ []) ∷ [])) × (s.written ≡ [])
flood-last_of_example = flood-last_of ((1, []) ∷ (2, []) ∷ []) []

abbrev seen : Histogram
seen = (8192, 3) ∷ (100, 1) ∷ []

print_histogram_lem_example :
    (ls : List Line) × (print_histogram seen ≡ report ls (total_reads seen))
    × (0 < total_reads seen)
    × Rises 0 (items ls)
    × ((n : ℕ) → lookup n (items ls) ≡ lookup n seen)
    × IsPercent (total_reads seen) ls
    × (parts ls ≡ 100 * total_reads seen)
print_histogram_lem_example = print_histogram_lem (8192, 3) ((100, 1) ∷ []) (omega arith)
