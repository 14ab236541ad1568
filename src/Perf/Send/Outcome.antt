-- ===== src/Perf/Send/Outcome.antt =====
-- What a sender is to send, and how it is to end.
use migration_transport_hack.Base.{
  ℕ, suc, ◌-◌, none, some, ◌*◌, ◌≡◌, ◌≢◌, ◌⊎◌, Option, List, [], ◌∷◌, ltb, if◌then◌else◌,
}
use migration_transport_hack.Async.{exception, Result, ok, err, None}
use migration_transport_hack.Perf.Send.{
  Final, chunk_size, Round, Sent, Ending, reported, failed, sending_on,
}

-- How many chunks go out before the deadline and the first failure.
abbrev sends_then : Result None → ℕ → ℕ
sends_then (ok _) n = suc n
sends_then (err e) n = 0

abbrev pub sends_before : ℕ → List Round → ℕ
sends_before deadline [] = 0
sends_before deadline (r ∷ rounds) =
    let n = sends_before deadline rounds in
    if ltb r.check deadline then sends_then r.sending n else 0

-- How the sending stops, if it does: by an exception, or at the deadline, with the clock then.
abbrev stop_then : Result None → Option (Result ℕ) → Option (Result ℕ)
stop_then (ok _) stop = stop
stop_then (err e) stop = some (err e)

abbrev pub stop_before : ℕ → List Round → Option (Result ℕ)
stop_before deadline [] = none
stop_before deadline (r ∷ rounds) =
    let stop = stop_before deadline rounds in
    if ltb r.check deadline then stop_then r.sending stop else some (ok r.now)

-- The ending for such a stop. At the deadline the numbers are reported, those of the meter and whole
-- chunks, unless no time has passed, where the average is a division by zero.
abbrev pub EndsAs : ℕ → Option (Result ℕ) → Ending → Sent → Type 0
EndsAs start none ending s = ending ≡ sending_on
EndsAs start (some (err e)) ending s = ending ≡ failed e
EndsAs start (some (ok now)) ending s =
    ((now ≡ start) × (ending ≡ failed exception))
    ⊎ ((now ≢ start)
        × (f : Final) × (ending ≡ reported f)
        × (f.total_time ≡ now - start)
        × (f.bytes ≡ s.meter.bytes)
        × (f.chunks ≡ s.meter.chunks)
        × (f.bytes ≡ chunk_size * f.chunks))

-- What a test is to send, and how it is to stop, after the steps that set it up.
abbrev pub sends_of : List (Result None) → ℕ → List Round → ℕ
sends_of [] deadline rounds = sends_before deadline rounds
sends_of (err e ∷ steps) deadline rounds = 0
sends_of (ok _ ∷ steps) deadline rounds = sends_of steps deadline rounds

abbrev pub stop_of : List (Result None) → ℕ → List Round → Option (Result ℕ)
stop_of [] deadline rounds = stop_before deadline rounds
stop_of (err e ∷ steps) deadline rounds = some (err e)
stop_of (ok _ ∷ steps) deadline rounds = stop_of steps deadline rounds
