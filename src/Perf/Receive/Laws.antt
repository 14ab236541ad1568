-- ===== src/Perf/Receive/Laws.antt =====
-- What the receivers count, forward and leave behind.
use migration_transport_hack.Base.{
  inr, ◌⊎◌, ◌==◌, inl, ◌≢◌, Bool-cases, ◌<◌, ℕ, ◌+◌, ◌-◌, ◌≡◌, refl, ◌∙◌, List, [], ◌∷◌, arith,
  length,
}
use migration_transport_hack.Forward.{Chunk}
use migration_transport_hack.Forward.Counts.{size}
use migration_transport_hack.Perf.Meter.{count}
use migration_transport_hack.Perf.Meter.Laws.{
  started-IsValid, IsValid, count-IsValid, report_progress-IsValid, report_progress_keeps,
}
use migration_transport_hack.Perf.Send.{Final}
use migration_transport_hack.Perf.Receive.{
  raised, zero_division, no_results, printed, Results, final_results, Handled, handle_client,
  stopped, receiving, nothing_received, Stop, finish, Event, receives, nothing_yet, disconnects,
  forward_raises, breaks, Received, received, receive_loop,
}
use migration_transport_hack.Proxy.{Socket, absent, live, closed}

-- The chunks up to the end of the stream or the first event that ends a loop.
abbrev pub incoming : List Event → List Chunk
incoming [] = []
incoming (receives [] now ∷ rest) = []
incoming (receives (b ∷ bs) now ∷ rest) = (b ∷ bs) ∷ incoming rest
incoming (nothing_yet ∷ rest) = incoming rest
incoming (_ ∷ rest) = []

-- A loop that takes in these chunks has counted them and their bytes, and its meter is valid.
pub record Takes (ds : List Chunk) (r s : Received) : Type 0 where
  pub bytes : s.meter.bytes ≡ r.meter.bytes + size ds
  pub chunks : s.meter.chunks ≡ r.meter.chunks + length ds
  pub start_time : s.meter.start_time ≡ r.meter.start_time
  pub valid : IsValid s.meter

pub none-Takes : (r : Received) → IsValid r.meter → Takes [] r r
none-Takes r v = record { bytes = omega arith; chunks = omega arith; start_time = refl; valid = v }

pub received-IsValid :
    (d : Chunk) (now : ℕ) (r : Received) → IsValid r.meter → IsValid (received d now r).meter
unfolding received
received-IsValid d now r v = report_progress-IsValid now _ (count-IsValid (length d) r.meter v)

pub more-Takes :
    (d : Chunk) (now : ℕ) (ds : List Chunk) (r s : Received)
    → Takes ds (received d now r) s
    → Takes (d ∷ ds) r s
unfolding received count
more-Takes d now ds r s t =
    let same = report_progress_keeps now (count (length d) r.meter) in
    record {
      bytes = omega (arith, same, t.bytes);
      chunks = omega (arith, same, t.chunks);
      start_time = t.start_time ∙ same.2;
      valid = t.valid;
    }

-- The measuring loop takes in all that comes up to the end of the stream or the first failure.
receive_loop-Takes :
    (events : List Event) (r : Received)
    → IsValid r.meter
    → Takes (incoming events) r (receive_loop events r).1
unfolding receive_loop
receive_loop-Takes [] r v = none-Takes r v
receive_loop-Takes (receives [] now ∷ rest) r v = none-Takes r v
receive_loop-Takes (receives (b ∷ bs) now ∷ rest) r v =
    more-Takes (b ∷ bs) now (incoming rest) r _
      (receive_loop-Takes rest (received (b ∷ bs) now r) (received-IsValid (b ∷ bs) now r v))
receive_loop-Takes (nothing_yet ∷ rest) r v = receive_loop-Takes rest r v
receive_loop-Takes (disconnects ∷ rest) r v = none-Takes r v
receive_loop-Takes (forward_raises d ∷ rest) r v = none-Takes r v
receive_loop-Takes (breaks ∷ rest) r v = none-Takes r v

-- What `final_results` says of the chunks `ds` between the clock readings `now` and `over`: nothing,
-- for want of data; the numbers of all of them; or a division by zero, if no time has passed.
pub data Sums (now over : ℕ) (ds : List Chunk) : Results → Type 0 where
  no_data : size ds ≡ 0 → Sums now over ds no_results
  divides : 0 < size ds → over ≡ now → Sums now over ds zero_division
  prints :
      (f : Final)
      → f.bytes ≡ size ds
      → f.chunks ≡ length ds
      → f.total_time ≡ over - now
      → over ≢ now
      → Sums now over ds (printed f)

pub final_results-Sums :
    (now over : ℕ) (ds : List Chunk) (r : Received)
    → Takes ds (nothing_received now) r
    → Sums now over ds (final_results over r.meter)
unfolding final_results
final_results-Sums now over ds r t = elim (Bool-cases (r.meter.bytes == 0)) [
  | inl none_in ↦ rw none_in (no_data (ground (arith, t.bytes)))
  | inr some_in ↦ elim (Bool-cases (over == r.meter.start_time)) [
    | inl zero_time ↦
        rw (some_in, zero_time) (divides (ground (arith, t.bytes)) (ground (arith, t.start_time)))
    | inr some_time ↦
        rw (some_in, some_time)
          (prints _ (omega (arith, t.bytes)) (omega (arith, t.chunks)) (omega (arith, t.start_time))
            (ground (arith, t.start_time)))
  ]
]

-- The sockets after these results: closed, or as they were if the results raised.
abbrev pub Sockets : Results → Socket → Socket → Socket → Type 0
Sockets zero_division unix ssl_after unix_after = (ssl_after ≡ live) × (unix_after ≡ unix)
Sockets _ unix ssl_after unix_after = (ssl_after ≡ closed) × (unix_after ≢ live)

-- A handler still receives and has its sockets; or its results sum up what it took in, and it has
-- closed its sockets unless the results raised.
abbrev pub Handles : ℕ → ℕ → List Chunk → Socket → Handled → Type 0
Handles now over ds unix h =
    ((h.stop ≡ receiving) × (h.ssl_sock ≡ live) × (h.unix_sock ≡ unix))
    ⊎ (Sums now over ds h.results × Sockets h.results unix h.ssl_sock h.unix_sock)

finish-Sockets :
    (over : ℕ) (unix : Socket) (stop : Stop) (r : Received) (f : Results)
    → stop ≢ receiving
    → f ≡ final_results over r.meter
    → Sockets f unix (finish over unix (stop, r)).ssl_sock (finish over unix (stop, r)).unix_sock
unfolding finish
finish-Sockets over unix receiving r f n e = absurd (n refl)
finish-Sockets over unix stopped r no_results n e = rw (← e) (refl, ground arith)
finish-Sockets over unix stopped r (printed _) n e = rw (← e) (refl, ground arith)
finish-Sockets over unix stopped r zero_division n e = rw (← e) (refl, refl)
finish-Sockets over unix raised r no_results n e = rw (← e) (refl, ground arith)
finish-Sockets over unix raised r (printed _) n e = rw (← e) (refl, ground arith)
finish-Sockets over unix raised r zero_division n e = rw (← e) (refl, refl)

finish-Handles :
    (now over : ℕ) (ds : List Chunk) (unix : Socket) (stop : Stop) (r : Received)
    → Takes ds (nothing_received now) r
    → Handles now over ds unix (finish over unix (stop, r))
unfolding finish
finish-Handles now over ds unix receiving r t = inl (refl, refl, refl)
finish-Handles now over ds unix stopped r t =
    inr (final_results-Sums now over ds r t, finish-Sockets over unix stopped r _ (λ e. cc) refl)
finish-Handles now over ds unix raised r t =
    inr (final_results-Sums now over ds r t, finish-Sockets over unix raised r _ (λ e. cc) refl)

-- The measuring handler, on any events: it still receives, or it sums up exactly the chunks that
-- came in before the end, and closes its socket unless no time has passed since data came in.
handle_client-Handles :
    (events : List Event) (now over : ℕ)
    → Handles now over (incoming events) absent (handle_client events now over)
unfolding handle_client
handle_client-Handles events now over =
    finish-Handles now over (incoming events) absent _ _
      (receive_loop-Takes events (nothing_received now) (started-IsValid now))
