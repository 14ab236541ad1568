-- ===== src/Perf/Unix/Laws.antt =====
-- What the ends on a unix socket count, relay and leave behind.
use mathlib.Core.List.{append-nil, append_assoc}
use migration_transport_hack.Base.{
  ℕ, ◌+◌, ◌-◌, ◌≡◌, ◌≢◌, refl, sym, ◌∙◌, ◌⊎◌, inl, inr, Bool, true, false, List, [], ◌∷◌, ◌++◌,
  arith, length, Bool-cases, ltb, if◌then◌else◌,
}
use migration_transport_hack.Async.{Result, ok, err, None}
use migration_transport_hack.Forward.{Chunk}
use migration_transport_hack.Forward.Counts.{size}
use migration_transport_hack.Proxy.{Socket, live, closed}
use migration_transport_hack.Perf.Meter.{report_progress}
use migration_transport_hack.Perf.Meter.Laws.{
  IsValid, started-IsValid, report_progress-IsValid, report_progress_keeps,
}
use migration_transport_hack.Perf.Send.{Final}
use migration_transport_hack.Perf.Receive.{
  Stop, stopped, raised, receiving, Received, nothing_received, received, forward, no_results,
  printed,
}
use migration_transport_hack.Perf.Receive.Laws.{Takes, none-Takes, more-Takes, received-IsValid}
use migration_transport_hack.Perf.Unix.Stops.{relay_stop, forward_start, relay_loop-relay_stop}
use migration_transport_hack.Perf.Unix.{
  Pick, relays, idles, loses, passes, fails, Turn, relay_round, relay_loop, Left, over_at,
  benchmark_send_unix,
}

-- The chunks that a relay hands on: those that `sendall` takes before the deadline, the end of the
-- stream and any exception but a `socket.error`. A chunk whose `sendall` raises that is left out.
abbrev pub picked_then : Pick → List Chunk → List Chunk
picked_then (relays [] now) ds = []
picked_then (relays (b ∷ bs) now) ds = (b ∷ bs) ∷ ds
picked_then fails ds = []
picked_then _ ds = ds

abbrev pub picked : ℕ → List Turn → List Chunk
picked deadline [] = []
picked deadline (t ∷ rest) =
    let ds = picked deadline rest in if ltb t.check deadline then picked_then t.pick ds else []

-- What a loop does that hands on the chunks `ds`: it counts them, and has handed on no others.
abbrev pub Relays : List Chunk → Received → Received → Type 0
Relays ds r s = Takes ds r s × (s.forwarded ≡ r.forwarded ++ ds)

none-Relays : (r : Received) → IsValid r.meter → Relays [] r r
none-Relays r v = (none-Takes r v, sym (append-nil _))

more-Relays :
    (d : Chunk) (now : ℕ) (ds : List Chunk) (r s : Received)
    → Relays ds (forward d now r) s
    → Relays (d ∷ ds) r s
unfolding forward received
more-Relays d now ds r s (t, sent) = (
  more-Takes d now ds r s
      (record { bytes = t.bytes; chunks = t.chunks; start_time = t.start_time; valid = t.valid }),
  sent ∙ append_assoc r.forwarded (d ∷ []) ds,
)

idle-Relays :
    (now : ℕ) (ds : List Chunk) (r s : Received)
    → Relays ds (record r { meter = report_progress now r.meter }) s
    → Relays ds r s
idle-Relays now ds r s (t, sent) =
    let same = report_progress_keeps now r.meter in
    (
      record {
        bytes = omega (arith, same, t.bytes);
        chunks = omega (arith, same, t.chunks);
        start_time = t.start_time ∙ same.2;
        valid = t.valid;
      },
      sent,
    )

forward-IsValid :
    (d : Chunk) (now : ℕ) (r : Received) → IsValid r.meter → IsValid (forward d now r).meter
unfolding forward received
forward-IsValid d now r v = received-IsValid d now (record r { forwarded = [] }) v

relay_round-Relays :
    (p : Pick) (go_on : Received → Stop × Received) (ds : List Chunk) (r : Received)
    → ((s : Received)
        → s.meter.start_time ≡ r.meter.start_time
        → IsValid s.meter
        → Relays ds s (go_on s).1)
    → IsValid r.meter
    → Relays (picked_then p ds) r (relay_round p go_on r).1
unfolding relay_round
relay_round-Relays (relays [] now) go_on ds r later v = none-Relays r v
relay_round-Relays (relays (b ∷ bs) now) go_on ds r later v = more-Relays (b ∷ bs) now ds r _ (
    later (forward (b ∷ bs) now r) (forward_start (b ∷ bs) now r)
      (forward-IsValid (b ∷ bs) now r v))
relay_round-Relays (idles now) go_on ds r later v = idle-Relays now ds r _ (
    later (record r { meter = report_progress now r.meter }) (report_progress_keeps now r.meter).2
      (report_progress-IsValid now r.meter v))
relay_round-Relays (loses d) go_on ds r later v = later r refl v
relay_round-Relays passes go_on ds r later v = later r refl v
relay_round-Relays fails go_on ds r later v = none-Relays r v

-- A relaying loop hands on what it picks up before its deadline, chunk for chunk and in order, and
-- it counts exactly that.
relay_loop-Relays :
    (duration deadline : ℕ) (turns : List Turn) (r : Received)
    → r.meter.start_time + duration ≡ deadline
    → IsValid r.meter
    → Relays (picked deadline turns) r (relay_loop duration turns r).1
unfolding relay_loop
relay_loop-Relays duration deadline [] r e v = none-Relays r v
relay_loop-Relays duration deadline (t ∷ rest) r e v = elim (Bool-cases (ltb t.check deadline)) [
  | inr late ↦
      let still : ltb t.check (r.meter.start_time + duration) ≡ false = rw e late in
      rw (late, still, relay_loop) (none-Relays r v)
  | inl soon ↦
      let still : ltb t.check (r.meter.start_time + duration) ≡ true = rw e soon in
      rw (soon, still, relay_loop)
        (relay_round-Relays t.pick (relay_loop duration rest) (picked deadline rest) r
          (λ s same valid.
            relay_loop-Relays duration deadline rest s (omega (arith, same, e)) valid)
          v)
]

-- What is left where the loop stops so: everything while it goes on; after it nothing but closed
-- sockets, with the numbers of all it handed on, or with no results where it ended by an exception.
abbrev pub Leaves : ℕ → ℕ → List Chunk → Stop → Left → Type 0
Leaves now over ds stop l =
    (l.stop ≡ stop)
    × (((stop ≡ receiving) × (l.client ≡ live) × (l.server ≡ live) × (l.socket_file ≡ true))
        ⊎ ((l.client ≡ closed)
            × (l.server ≡ closed)
            × (l.ssl_sock ≢ live)
            × (l.socket_file ≡ false)
            × (((stop ≡ raised) × (l.results ≡ no_results))
                ⊎ ((f : Final) × (stop ≡ stopped)
                    × (l.results ≡ printed f)
                    × (f.bytes ≡ size ds)
                    × (f.chunks ≡ length ds)
                    × (f.total_time ≡ over - now)))))

over_at-forwarded :
    (over : ℕ) (ssl : Socket) (p : Stop × Received)
    → (over_at over ssl p).received.forwarded ≡ p.1.forwarded
over_at-forwarded over ssl (receiving, r) = refl
over_at-forwarded over ssl (stopped, r) = refl
over_at-forwarded over ssl (raised, r) = refl

pub over_at-Leaves :
    (now over : ℕ) (ds : List Chunk) (stop : Stop) (ssl : Socket) (p : Stop × Received)
    → p.0 ≡ stop
    → Takes ds (nothing_received now) p.1
    → Leaves now over ds stop (over_at over ssl p)
over_at-Leaves now over ds stop ssl (receiving, r) e t = (e, inl (sym e, refl, refl, refl))
over_at-Leaves now over ds stop ssl (raised, r) e t =
    (e, inr (refl, refl, ground arith, refl, inl (sym e, refl)))
over_at-Leaves now over ds stop ssl (stopped, r) e t = (
  e,
  inr (
    refl,
    refl,
    ground arith,
    refl,
    inr (
      _,
      sym e,
      refl,
      omega (arith, t.bytes),
      omega (arith, t.chunks),
      omega (arith, t.start_time),
    ),
  ),
)

-- Whether the TLS socket can be made and connected, and a unix client comes.
abbrev pub all_ok : Result None → Result None → Result None → Bool
all_ok (ok _) (ok _) (ok _) = true
all_ok _ _ _ = false

-- The relay of send.py, once its unix socket listens, on any answers: if the TLS connection and a
-- unix client are there, it hands on, in order, the chunks that it picks up before its deadline,
-- and not those whose `sendall` raises a `socket.error`. At its deadline and at the end of the
-- stream it stops and prints exactly the sum of these, at any other exception it stops without a
-- summary, and either way it has closed and removed everything; until then it goes on with all of
-- it open. If not, it leaves the unix server open and its file in place.
pub benchmark_send_unix-Leaves :
    (wrapping connecting accepting : Result None) (duration now over : ℕ) (turns : List Turn)
    → let l = benchmark_send_unix wrapping connecting accepting duration now over turns in
      ((all_ok wrapping connecting accepting ≡ true)
        × (l.received.forwarded ≡ picked (now + duration) turns)
        × Leaves now over (picked (now + duration) turns) (relay_stop (now + duration) turns) l)
      ⊎ ((all_ok wrapping connecting accepting ≡ false)
          × (l.received.forwarded ≡ [])
          × (l.server ≡ live)
          × (l.socket_file ≡ true))
unfolding benchmark_send_unix
benchmark_send_unix-Leaves (err e) c a duration now over turns = inr (refl, refl, refl, refl)
benchmark_send_unix-Leaves (ok _) (err e) a duration now over turns = inr (refl, refl, refl, refl)
benchmark_send_unix-Leaves (ok _) (ok _) (err e) duration now over turns =
    inr (refl, refl, refl, refl)
benchmark_send_unix-Leaves (ok _) (ok _) (ok _) duration now over turns =
    let ds : List Chunk = picked (now + duration) turns in
    let (t, sent) =
      relay_loop-Relays duration (now + duration) turns (nothing_received now) refl
        (started-IsValid now) in
    inl (
      refl,
      over_at-forwarded over live (relay_loop duration turns (nothing_received now)) ∙ sent,
      over_at-Leaves now over ds (relay_stop (now + duration) turns) live _
          (relay_loop-relay_stop duration (now + duration) turns (nothing_received now) refl) t,
    )
