-- ===== src/Perf/Unix/Receiving.antt =====
-- What `UnixReceiver.receive_data` counts and leaves behind.
use migration_transport_hack.Base.{
  ℕ, ◌+◌, ◌≡◌, refl, ◌⊎◌, inl, inr, Bool, true, false, List, [], ◌∷◌, arith, length, Bool-cases,
  ltb, ◌&&◌, if◌then◌else◌,
}
use migration_transport_hack.Async.{Result, ok, err, None}
use migration_transport_hack.Forward.{Chunk}
use migration_transport_hack.Proxy.{absent, live}
use migration_transport_hack.Perf.Meter.{count}
use migration_transport_hack.Perf.Meter.Laws.{IsValid, started-IsValid, report_progress_keeps}
use migration_transport_hack.Perf.Receive.{
  Event, receives, nothing_yet, disconnects, forward_raises, breaks, Stop, stopped, receiving,
  Received, nothing_received, received,
}
use migration_transport_hack.Perf.Receive.Laws.{Takes, none-Takes, more-Takes, received-IsValid}
use migration_transport_hack.Perf.Unix.{Round, receive_round, timed_loop, receive_data}
use migration_transport_hack.Perf.Unix.Laws.{Leaves, over_at-Leaves}

-- The chunks that come in before a signal, the deadline, the end of the stream and any exception but
-- a timeout.
abbrev pub taken_then : Event → List Chunk → List Chunk
taken_then (receives [] now) ds = []
taken_then (receives (b ∷ bs) now) ds = (b ∷ bs) ∷ ds
taken_then nothing_yet ds = ds
taken_then _ ds = []

abbrev pub taken : ℕ → List Round → List Chunk
taken deadline [] = []
taken deadline (t ∷ rest) =
    let ds = taken deadline rest in
    if t.running && ltb t.check deadline then taken_then t.event ds else []

-- How the receiver stops: never by an exception, since its loop ends there as at the end of the
-- stream, the deadline and a signal; a timeout lets it go on.
abbrev pub timed_stop_then : Event → Stop → Stop
timed_stop_then (receives (b ∷ bs) now) stop = stop
timed_stop_then nothing_yet stop = stop
timed_stop_then _ stop = stopped

abbrev pub timed_stop : ℕ → List Round → Stop
timed_stop deadline [] = receiving
timed_stop deadline (t ∷ rest) =
    let stop = timed_stop deadline rest in
    if t.running && ltb t.check deadline then timed_stop_then t.event stop else stopped

received_start :
    (d : Chunk) (now : ℕ) (r : Received) → (received d now r).meter.start_time ≡ r.meter.start_time
unfolding received count
received_start d now r = (report_progress_keeps now (count (length d) r.meter)).2

receive_round-Takes :
    (e : Event) (go_on : Received → Stop × Received) (ds : List Chunk) (r : Received)
    → ((s : Received)
        → s.meter.start_time ≡ r.meter.start_time
        → IsValid s.meter
        → Takes ds s (go_on s).1)
    → IsValid r.meter
    → Takes (taken_then e ds) r (receive_round e go_on r).1
unfolding receive_round
receive_round-Takes (receives [] now) go_on ds r later v = none-Takes r v
receive_round-Takes (receives (b ∷ bs) now) go_on ds r later v = more-Takes (b ∷ bs) now ds r _ (
    later (received (b ∷ bs) now r) (received_start (b ∷ bs) now r)
      (received-IsValid (b ∷ bs) now r v))
receive_round-Takes nothing_yet go_on ds r later v = later r refl v
receive_round-Takes disconnects go_on ds r later v = none-Takes r v
receive_round-Takes (forward_raises d) go_on ds r later v = none-Takes r v
receive_round-Takes breaks go_on ds r later v = none-Takes r v

timed_loop-Takes :
    (duration deadline : ℕ) (rounds : List Round) (r : Received)
    → r.meter.start_time + duration ≡ deadline
    → IsValid r.meter
    → Takes (taken deadline rounds) r (timed_loop duration rounds r).1
unfolding timed_loop
timed_loop-Takes duration deadline [] r e v = none-Takes r v
timed_loop-Takes duration deadline (t ∷ rest) r e v =
    elim (Bool-cases (t.running && ltb t.check deadline)) [
      | inr late ↦
          let still : (t.running && ltb t.check (r.meter.start_time + duration)) ≡ false =
            rw e late in
          rw (late, still, timed_loop) (none-Takes r v)
      | inl soon ↦
          let still : (t.running && ltb t.check (r.meter.start_time + duration)) ≡ true =
            rw e soon in
          rw (soon, still, timed_loop)
            (receive_round-Takes t.event (timed_loop duration rest) (taken deadline rest) r
              (λ s same valid.
                timed_loop-Takes duration deadline rest s (omega (arith, same, e)) valid)
              v)
    ]

receive_round-timed_stop_then :
    (e : Event) (go_on : Received → Stop × Received) (stop : Stop) (r : Received)
    → ((s : Received) → s.meter.start_time ≡ r.meter.start_time → (go_on s).0 ≡ stop)
    → (receive_round e go_on r).0 ≡ timed_stop_then e stop
unfolding receive_round
receive_round-timed_stop_then (receives [] now) go_on stop r later = refl
receive_round-timed_stop_then (receives (b ∷ bs) now) go_on stop r later =
    later (received (b ∷ bs) now r) (received_start (b ∷ bs) now r)
receive_round-timed_stop_then nothing_yet go_on stop r later = later r refl
receive_round-timed_stop_then disconnects go_on stop r later = refl
receive_round-timed_stop_then (forward_raises d) go_on stop r later = refl
receive_round-timed_stop_then breaks go_on stop r later = refl

timed_loop-timed_stop :
    (duration deadline : ℕ) (rounds : List Round) (r : Received)
    → r.meter.start_time + duration ≡ deadline
    → (timed_loop duration rounds r).0 ≡ timed_stop deadline rounds
unfolding timed_loop
timed_loop-timed_stop duration deadline [] r e = refl
timed_loop-timed_stop duration deadline (t ∷ rest) r e =
    elim (Bool-cases (t.running && ltb t.check deadline)) [
      | inr late ↦
          let still : (t.running && ltb t.check (r.meter.start_time + duration)) ≡ false =
            rw e late in
          rw (late, still, timed_loop) refl
      | inl soon ↦
          let still : (t.running && ltb t.check (r.meter.start_time + duration)) ≡ true =
            rw e soon in
          rw (soon, still, timed_loop)
            (receive_round-timed_stop_then t.event (timed_loop duration rest)
              (timed_stop deadline rest) r
              (λ s same. timed_loop-timed_stop duration deadline rest s (omega (arith, same, e))))
    ]

-- Whether the receiver listens, and a sender comes.
abbrev pub both_ok : Result None → Result None → Bool
both_ok (ok _) (ok _) = true
both_ok _ _ = false

-- The unix receiver, on any answers: if it listens and a sender comes, it stops at a signal, the
-- deadline, the end of the stream and any exception but a timeout, prints then exactly the sum of
-- the chunks that came in before that, and has closed and removed everything; until then it goes on
-- with its sockets open. If not, its own socket stays open.
pub receive_data-Leaves :
    (binding accepting : Result None) (duration now over : ℕ) (rounds : List Round)
    → let l = receive_data binding accepting duration now over rounds in
      ((both_ok binding accepting ≡ true)
        × Leaves now over (taken (now + duration) rounds) (timed_stop (now + duration) rounds) l)
      ⊎ ((both_ok binding accepting ≡ false) × (l.server ≡ live))
unfolding receive_data
receive_data-Leaves (err e) a duration now over rounds = inr (refl, refl)
receive_data-Leaves (ok _) (err e) duration now over rounds = inr (refl, refl)
receive_data-Leaves (ok _) (ok _) duration now over rounds = inl (
  refl,
  over_at-Leaves now over (taken (now + duration) rounds) (timed_stop (now + duration) rounds)
      absent _ (timed_loop-timed_stop duration (now + duration) rounds (nothing_received now) refl)
      (timed_loop-Takes duration (now + duration) rounds (nothing_received now) refl
        (started-IsValid now)),
)
