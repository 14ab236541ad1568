-- ===== src/Perf/Unix/Stops.antt =====
-- How the relay of `benchmark_send_unix` stops.
use migration_transport_hack.Base.{
  ℕ, ◌+◌, ◌≡◌, refl, inl, inr, true, false, List, [], ◌∷◌, arith, length, Bool-cases, ltb,
  if◌then◌else◌,
}
use migration_transport_hack.Forward.{Chunk}
use migration_transport_hack.Perf.Meter.{count, report_progress}
use migration_transport_hack.Perf.Meter.Laws.{report_progress_keeps}
use migration_transport_hack.Perf.Receive.{
  Stop, stopped, raised, receiving, Received, received, forward,
}
use migration_transport_hack.Perf.Unix.{
  Pick, relays, idles, loses, passes, fails, Turn, relay_round, relay_loop,
}

-- How the relay stops: at the end of the stream and at its deadline without an exception, at any
-- exception but a `socket.error` by that, and otherwise not yet.
abbrev pub stop_then : Pick → Stop → Stop
stop_then (relays [] now) stop = stopped
stop_then fails stop = raised
stop_then _ stop = stop

abbrev pub relay_stop : ℕ → List Turn → Stop
relay_stop deadline [] = receiving
relay_stop deadline (t ∷ rest) =
    let stop = relay_stop deadline rest in
    if ltb t.check deadline then stop_then t.pick stop else stopped

pub forward_start :
    (d : Chunk) (now : ℕ) (r : Received) → (forward d now r).meter.start_time ≡ r.meter.start_time
unfolding forward received count
forward_start d now r = (report_progress_keeps now (count (length d) r.meter)).2

relay_round-stop_then :
    (p : Pick) (go_on : Received → Stop × Received) (stop : Stop) (r : Received)
    → ((s : Received) → s.meter.start_time ≡ r.meter.start_time → (go_on s).0 ≡ stop)
    → (relay_round p go_on r).0 ≡ stop_then p stop
unfolding relay_round
relay_round-stop_then (relays [] now) go_on stop r later = refl
relay_round-stop_then (relays (b ∷ bs) now) go_on stop r later =
    later (forward (b ∷ bs) now r) (forward_start (b ∷ bs) now r)
relay_round-stop_then (idles now) go_on stop r later =
    later (record r { meter = report_progress now r.meter }) (report_progress_keeps now r.meter).2
relay_round-stop_then (loses d) go_on stop r later = later r refl
relay_round-stop_then passes go_on stop r later = later r refl
relay_round-stop_then fails go_on stop r later = refl

-- A relaying loop stops where and as `relay_stop` says.
pub relay_loop-relay_stop :
    (duration deadline : ℕ) (turns : List Turn) (r : Received)
    → r.meter.start_time + duration ≡ deadline
    → (relay_loop duration turns r).0 ≡ relay_stop deadline turns
unfolding relay_loop
relay_loop-relay_stop duration deadline [] r e = refl
relay_loop-relay_stop duration deadline (t ∷ rest) r e = elim (Bool-cases (ltb t.check deadline)) [
  | inr late ↦
      let still : ltb t.check (r.meter.start_time + duration) ≡ false = rw e late in
      rw (late, still, relay_loop) refl
  | inl soon ↦
      let still : ltb t.check (r.meter.start_time + duration) ≡ true = rw e soon in
      rw (soon, still, relay_loop)
        (relay_round-stop_then t.pick (relay_loop duration rest) (relay_stop deadline rest) r
          (λ s same. relay_loop-relay_stop duration deadline rest s (omega (arith, same, e))))
]
