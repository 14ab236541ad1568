-- ===== src/Proxy/System/Shared.antt =====
-- What connections share: the numbers and the histogram.
use migration_transport_hack.Base.{
  ℕ, suc, ◌+◌, ◌≡◌, refl, sym, ap, ◌∙◌, Option, none, some, List, [], ◌∷◌, ◌++◌, ◌==◌, length,
  Bool-cases, Option-cases, inl, inr, arith,
}
use migration_transport_hack.Histogram.{Histogram, total_reads}
use migration_transport_hack.Histogram.Laws.{
  total_bytes_read, total_reads-count_read, total_bytes_read-count_read,
}
use migration_transport_hack.Forward.{Chunk, Forward, Turn}
use migration_transport_hack.Forward.Order.{read_by}
use migration_transport_hack.Forward.Counts.{size}
use migration_transport_hack.Forward.Shared.{counted, counted-append, step-share}
use migration_transport_hack.Proxy.System.{
  Side, System, Event, connects, links, turns, step, run, turn, moved, links_now,
}

-- The chunk that an event reads.
abbrev read_at : Turn → Option Forward → List Chunk
read_at t none = []
read_at t (some f) = read_by t f.read_task

abbrev pub read_in : Event → System → List Chunk
read_in (turns i side t) s = read_at t (s.forwards i side)
read_in _ s = []

-- What all the connections read, in the order of the schedule.
abbrev pub all_reads : List Event → System → List Chunk
all_reads [] s = []
all_reads (e ∷ es) s = read_in e s ++ all_reads es (step e s)

moved-counted :
    (i : ℕ) (side : Side) (t : Turn) (o : Option Forward) (s : System)
    → (turn i side (moved t s.read_histogram o) s).read_histogram
      ≡ counted (read_at t o) s.read_histogram
moved-counted i side t none s = refl
moved-counted i side t (some f) s = ap (λ g. g.read_histogram) (step-share t s.read_histogram f)

step-counted :
    (e : Event) (s : System) → (step e s).read_histogram ≡ counted (read_in e s) s.read_histogram
unfolding step
step-counted connects s = refl
step-counted (links i) s = ground arith
step-counted (turns i side t) s = moved-counted i side t (s.forwards i side) s

pub run-counted :
    (es : List Event) (s : System)
    → (run es s).read_histogram ≡ counted (all_reads es s) s.read_histogram
unfolding run
run-counted [] s = refl
run-counted (e ∷ es) s =
    run-counted es (step e s)
    ∙ ap (counted (all_reads es (step e s))) (step-counted e s)
    ∙ sym (counted-append (read_in e s) (all_reads es (step e s)) s.read_histogram)

total_reads-counted :
    (ds : List Chunk) (h : Histogram) → total_reads (counted ds h) ≡ total_reads h + length ds
total_reads-counted [] h = omega arith
total_reads-counted (d ∷ ds) h =
    omega (arith, total_reads-counted ds _, total_reads-count_read (length d) h)

total_bytes_read-counted :
    (ds : List Chunk) (h : Histogram)
    → total_bytes_read (counted ds h) ≡ total_bytes_read h + size ds
total_bytes_read-counted [] h = omega arith
total_bytes_read-counted (d ∷ ds) h =
    omega (arith, total_bytes_read-counted ds _, total_bytes_read-count_read (length d) h)

-- The histogram of the server is that of all the chunks that its connections have read, one after
-- another in the order of the schedule; so its totals are the number of these chunks and their
-- bytes.
pub run_histogram :
    (es : List Event) (s : System)
    → let h = (run es s).read_histogram in
      let ds = all_reads es s in
      (h ≡ counted ds s.read_histogram)
      × (total_reads h ≡ total_reads s.read_histogram + length ds)
      × (total_bytes_read h ≡ total_bytes_read s.read_histogram + size ds)
run_histogram es s =
    let ds : List Chunk = all_reads es s in
    let e = run-counted es s in
    (
      e,
      ap total_reads e ∙ total_reads-counted ds s.read_histogram,
      ap total_bytes_read e ∙ total_bytes_read-counted ds s.read_histogram,
    )

-- No number beyond the counter has a forwarder, so a new connection never meets an old one's.
abbrev IsNumbered : System → Type 0
IsNumbered s = (k : ℕ) (side : Side) → s.forwards (s.connection_counter + suc k) side ≡ none

step-IsNumbered : (e : Event) (s : System) → IsNumbered s → IsNumbered (step e s)
unfolding step
step-IsNumbered connects s n k side =
    ap (λ (m : ℕ). s.forwards m side) (omega arith) ∙ n (suc k) side
step-IsNumbered (links j) s n k side = elim (Bool-cases (links_now j s)) [
  | inr no_link ↦ rw no_link (n k side)
  | inl now ↦ rw now (ground (arith, now, n k side))
]
step-IsNumbered (turns j other t) s n k side = elim (Option-cases (s.forwards j other)) [
  | inl e ↦ rw e (n k side)
  | inr (f, e) ↦ rw e (elim (Bool-cases (j == s.connection_counter + suc k)) [
    | inl same ↦
        let number : s.connection_counter + suc k ≡ j = ground (arith, same) in
        cc (e, ap (λ (m : ℕ). s.forwards m other) number, n k other)
    | inr apart ↦ rw apart (n k side)
  ])
]

-- From a server whose forwarders all have numbers up to the counter, every run keeps it so.
run-IsNumbered : (es : List Event) (s : System) → IsNumbered s → IsNumbered (run es s)
unfolding run
run-IsNumbered [] s n = n
run-IsNumbered (e ∷ es) s n = run-IsNumbered es (step e s) (step-IsNumbered e s n)
