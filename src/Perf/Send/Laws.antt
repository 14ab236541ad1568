-- ===== src/Perf/Send/Laws.antt =====
-- What the senders count, report and leave behind.
use mathlib.Core.Path.{subst}
use migration_transport_hack.Base.{
  ℕ, suc, true, some, ◌+◌, ◌*◌, ◌≤◌, ◌≡◌, ◌≢◌, ◌⊎◌, refl, Option, Bool, false, List, [], ◌∷◌, arith,
  ltb, ◌==◌, if◌then◌else◌, Bool-cases, inl, inr,
}
use migration_transport_hack.Async.{exception, Result, Result-cases, ok, err, None}
use migration_transport_hack.Proxy.{live}
use migration_transport_hack.Perf.Meter.{count}
use migration_transport_hack.Perf.Meter.Laws.{
  IsValid, started-IsValid, count-IsValid, report_progress-IsValid, report_progress_keeps,
}
use migration_transport_hack.Perf.Send.Outcome.{
  sends_before, stop_before, EndsAs, sends_of, stop_of,
}
use migration_transport_hack.Perf.Send.{
  chunk_size, Round, Sent, Ending, failed, sending_on, send_chunk, final_statistics, send_loop,
  run_benchmark, nothing_sent, Benchmark, send_data, is_limited, benchmark_send,
  websocket_benchmark_send,
}

-- Whole chunks, one pause for each if the rate is limited, and a valid meter.
pub record IsCounted (limited : Bool) (s : Sent) : Type 0 where
  pub valid : IsValid s.meter
  pub whole : s.meter.bytes ≡ chunk_size * s.meter.chunks
  pub paused : s.pauses ≡ (if limited then s.meter.chunks else 0)

send_chunk-IsCounted :
    (limited : Bool) (now : ℕ) (s : Sent)
    → IsCounted limited s
    → IsCounted limited (send_chunk limited now s)
unfolding send_chunk count
send_chunk-IsCounted limited now s c =
    let same = report_progress_keeps now (count chunk_size s.meter) in
    record {
      valid = report_progress-IsValid now _ (count-IsValid chunk_size s.meter c.valid);
      whole = omega (arith, same, c.whole);
      paused = ground (arith, same.1, c.paused);
    }

final_statistics-EndsAs :
    (now : ℕ) (s : Sent)
    → s.meter.bytes ≡ chunk_size * s.meter.chunks
    → EndsAs s.meter.start_time (some (ok now)) (final_statistics now s.meter) s
final_statistics-EndsAs now s h = elim (Bool-cases (now == s.meter.start_time)) [
  | inl zero_time ↦ rw zero_time (inl (ground arith, refl))
  | inr some_time ↦ rw some_time (inr (ground arith, _, refl, refl, refl, refl, h))
]

send_chunk_keeps :
    (limited : Bool) (now : ℕ) (s : Sent)
    → ((send_chunk limited now s).meter.start_time ≡ s.meter.start_time)
      × ((send_chunk limited now s).meter.chunks ≡ suc s.meter.chunks)
unfolding send_chunk count
send_chunk_keeps limited now s =
    let same = report_progress_keeps now (count chunk_size s.meter) in
    (same.2, omega (arith, same.1))

-- What the loop does from a state that is counted.
abbrev IsLooped : Bool → ℕ → List Round → Sent → Ending × Sent → Type 0
IsLooped limited deadline rounds s (ending, s') =
    IsCounted limited s'
    × (s'.meter.chunks ≡ s.meter.chunks + sends_before deadline rounds)
    × EndsAs s.meter.start_time (stop_before deadline rounds) ending s'

send_loop-IsLooped :
    (limited : Bool) (duration deadline : ℕ) (rounds : List Round) (s : Sent)
    → s.meter.start_time + duration ≡ deadline
    → IsCounted limited s
    → IsLooped limited deadline rounds s (send_loop limited duration rounds s)
unfolding send_loop
send_loop-IsLooped limited duration deadline [] s e c = (c, omega arith, refl)
send_loop-IsLooped limited duration deadline (r ∷ rounds) s e c =
    elim (Bool-cases (ltb r.check deadline)) [
      | inr late ↦
          let timed_out : ltb r.check (s.meter.start_time + duration) ≡ false = rw e late in
          rw (late, timed_out, send_loop) (c, omega arith, final_statistics-EndsAs r.now s c.whole)
      | inl soon ↦
          let in_time : ltb r.check (s.meter.start_time + duration) ≡ true = rw e soon in
          rw (soon, in_time, send_loop)
            (elim (Result-cases r.sending) [
              | inr (x, breaks) ↦ rw breaks (c, omega arith, refl)
              | inl goes ↦
                  let (start, more) = send_chunk_keeps limited r.now s in
                  let (counted, chunks, ends) =
                    send_loop-IsLooped limited duration deadline rounds (send_chunk limited r.now s)
                      (omega (arith, start, e)) (send_chunk-IsCounted limited r.now s c) in
                  rw goes (
                    counted,
                    omega (arith, chunks, more),
                    subst
                        (λ t.
                          EndsAs t (stop_before deadline rounds)
                            (send_loop limited duration rounds (send_chunk limited r.now s)).0
                            (send_loop limited duration rounds (send_chunk limited r.now s)).1)
                        start ends,
                  )
            ])
    ]

nothing_sent-IsCounted : (limited : Bool) (now : ℕ) → IsCounted limited (nothing_sent now)
nothing_sent-IsCounted limited now = record {
  valid = started-IsValid now;
  whole = omega arith;
  paused = ground arith;
}

-- A test goes on or leaves no open socket; what it sent is every chunk before its deadline and its
-- first failure, whole and with one pause for each if the rate is limited; its progress lines are a
-- second or more apart, and their intervals add up to what was counted by then; and it ends as it
-- stops.
abbrev pub IsSound : Bool → ℕ → ℕ → Option (Result ℕ) → Benchmark → Type 0
IsSound limited now n stop b =
    IsCounted limited b.sent
    × (b.sent.meter.chunks ≡ n)
    × EndsAs now stop b.ending b.sent
    × ((b.ending ≡ sending_on) ⊎ (b.socket ≢ live))

run_benchmark-IsSound :
    (connecting : Result None) (limited : Bool) (duration now : ℕ) (rounds : List Round)
    → IsSound limited now
        (sends_of (connecting ∷ []) (now + duration) rounds)
        (stop_of (connecting ∷ []) (now + duration) rounds)
        (run_benchmark connecting limited duration now rounds)
run_benchmark-IsSound (err e) limited duration now rounds =
    (nothing_sent-IsCounted limited now, refl, refl, ground arith)
run_benchmark-IsSound (ok _) limited duration now rounds =
    let (counted, chunks, ends) =
      send_loop-IsLooped limited duration (now + duration) rounds (nothing_sent now) refl
        (nothing_sent-IsCounted limited now) in
    (counted, omega (arith, chunks), ends, ground arith)

-- The unix sender, on any clock and answers: what it counts is every chunk before its deadline and
-- the first failure, whole and without a pause; its progress lines are a second or more apart and
-- add up; at the deadline it reports just these numbers, unless no time has passed; and it still
-- sends or has no open socket.
send_data-IsSound :
    (connecting : Result None) (duration now : ℕ) (rounds : List Round)
    → IsSound false now
        (sends_of (connecting ∷ []) (now + duration) rounds)
        (stop_of (connecting ∷ []) (now + duration) rounds)
        (send_data connecting duration now rounds)
unfolding send_data
send_data-IsSound connecting duration now rounds =
    run_benchmark-IsSound connecting false duration now rounds

-- The TCP sender, on any clock and answers: if it is set up and connects, what it counts is every
-- chunk before its deadline and the first failure, whole and with a pause for each exactly if its
-- target is positive, and nothing otherwise. Its progress lines are a second or more apart and add
-- up. At the deadline it reports just these numbers and the time that has passed, and fails if none
-- has; a failure before it ends it without numbers; otherwise it still sends. If it ends, it has no
-- open socket.
pub benchmark_send-IsSound :
    (context wrapping connecting : Result None) (target : Option ℕ) (duration now : ℕ)
    (rounds : List Round)
    → IsSound
        (is_limited target)
        now
        (sends_of (context ∷ wrapping ∷ connecting ∷ []) (now + duration) rounds)
        (stop_of (context ∷ wrapping ∷ connecting ∷ []) (now + duration) rounds)
        (benchmark_send context wrapping connecting target duration now rounds)
unfolding benchmark_send
benchmark_send-IsSound (err e) w c target duration now rounds =
    (nothing_sent-IsCounted (is_limited target) now, refl, refl, ground arith)
benchmark_send-IsSound (ok _) (err e) c target duration now rounds =
    (nothing_sent-IsCounted (is_limited target) now, refl, refl, ground arith)
benchmark_send-IsSound (ok _) (ok _) c target duration now rounds =
    run_benchmark-IsSound c (is_limited target) duration now rounds

-- So is the websocket sender.
websocket_benchmark_send-IsSound :
    (context connecting : Result None) (target : Option ℕ) (duration now : ℕ) (rounds : List Round)
    → IsSound
        (is_limited target)
        now
        (sends_of (context ∷ connecting ∷ []) (now + duration) rounds)
        (stop_of (context ∷ connecting ∷ []) (now + duration) rounds)
        (websocket_benchmark_send context connecting target duration now rounds)
unfolding websocket_benchmark_send
websocket_benchmark_send-IsSound (err e) c target duration now rounds =
    (nothing_sent-IsCounted (is_limited target) now, refl, refl, ground arith)
websocket_benchmark_send-IsSound (ok _) (err e) target duration now rounds =
    (nothing_sent-IsCounted (is_limited target) now, refl, refl, ground arith)
websocket_benchmark_send-IsSound (ok _) (ok _) target duration now rounds =
    run_benchmark-IsSound (ok tt) (is_limited target) duration now rounds

-- A sending loop of length zero whose clock has not moved fails in its own statistics: the average
-- is then a division by zero, and no result is reported.
send_loop_zero_time :
    (limited : Bool) (r : Round) (rounds : List Round) (now : ℕ)
    → now ≤ r.check
    → r.now ≡ now
    → send_loop limited 0 (r ∷ rounds) (nothing_sent now) ≡ (failed exception, nothing_sent now)
unfolding send_loop
send_loop_zero_time limited r rounds now le same = ground arith
