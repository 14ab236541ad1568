-- ===== src/Forward/Counts.antt =====
-- The counters of `forward_data` and of the histogram that all connections share.
use migration_transport_hack.Base.{
  false, true, length-append, ℕ, ◌+◌, ◌≡◌, refl, ap, inl, inr, Bool, List, [], ◌∷◌, ◌++◌, arith,
  length,
}
use migration_transport_hack.Histogram.{total_reads}
use migration_transport_hack.Histogram.Laws.{
  total_bytes_read, total_reads-count_read, total_bytes_read-count_read,
}
use migration_transport_hack.Forward.{
  write_cancelled, write_raises, write_runs, read_cancelled, read_runs, waiting, read_raises,
  getting, start, read_returns, stopped, Histogram, WriteTask, failed, Turn, run, step,
  on_write_cancel, on_read_run, on_read_cancel, on_read_error, Chunk, ReadTask, reading, holding,
  closing, ended, Forward, on_write, on_read, write, received,
}
use migration_transport_hack.Forward.Round.{Round, sleeps, drains, writes, loses, on_write-Round}
use migration_transport_hack.Forward.Order.{reads, read_by, read_chunk}

-- how many bytes a list of chunks holds
abbrev pub size : List Chunk → ℕ
size [] = 0
size (d ∷ ds) = length d + size ds

pub size-append : (xs ys : List Chunk) → size (xs ++ ys) ≡ size xs + size ys
size-append [] ys = omega arith
size-append (d ∷ xs) ys = omega (arith, size-append xs ys)

-- `total_bytes` counts what was written.
abbrev IsCounted : Forward → Type 0
IsCounted s = s.total_bytes ≡ size s.written

Round-IsCounted : (fine : Bool) (s r : Forward) → Round fine s r → IsCounted s → IsCounted r
unfolding write
Round-IsCounted fine s r (sleeps _ _ e) h = rw e h
Round-IsCounted fine s r (drains _ _ e) h = rw e h
Round-IsCounted fine s r (writes d rest _ q e) h =
    rw e (omega (arith, size-append s.written (d ∷ [])))
Round-IsCounted fine s r (loses d rest _ q e) h = rw e h

write-IsCounted :
    (fine : Bool) (s : Forward) → IsCounted s → IsCounted (on_write s.write_task fine s)
write-IsCounted fine s h = elim (on_write-Round s.write_task fine s) [
  | inl idle ↦ rw idle h
  | inr round ↦ Round-IsCounted fine s _ round h
]

-- What the read task's turns leave alone, and the histogram's totals after each turn.
record Tally (s r : Forward) (ds : List Chunk) : Type 0 where
  same_count : IsCounted s → IsCounted r
  reads_up : total_reads r.read_histogram ≡ total_reads s.read_histogram + length ds
  bytes_up : total_bytes_read r.read_histogram ≡ total_bytes_read s.read_histogram + size ds

still :
    (s r : Forward)
    → (IsCounted s → IsCounted r)
    → r.read_histogram ≡ s.read_histogram
    → Tally s r []
still s r h e = record {
  same_count = h;
  reads_up = omega (arith, ap total_reads e);
  bytes_up = omega (arith, ap total_bytes_read e);
}

read-Tally : (r : ReadTask) (d : Chunk) (s : Forward) → Tally s (on_read r d s) (read_chunk r d)
unfolding received
read-Tally reading [] s = still s _ (λ h. h) refl
read-Tally reading (b ∷ bs) s = record {
  same_count = λ h. h;
  reads_up = omega (arith, total_reads-count_read (length (b ∷ bs)) s.read_histogram);
  bytes_up = omega (arith, total_bytes_read-count_read (length (b ∷ bs)) s.read_histogram);
}
read-Tally (holding _) d s = still s _ (λ h. h) refl
read-Tally (closing _) d s = still s _ (λ h. h) refl
read-Tally (ended _) d s = still s _ (λ h. h) refl

read_error-Tally : (r : ReadTask) (s : Forward) → Tally s (on_read_error r failed s) []
read_error-Tally reading s = still s _ (λ h. h) refl
read_error-Tally (holding _) s = still s _ (λ h. h) refl
read_error-Tally (closing _) s = still s _ (λ h. h) refl
read_error-Tally (ended _) s = still s _ (λ h. h) refl

read_cancel-Tally : (r : ReadTask) (s : Forward) → Tally s (on_read_cancel r s) []
read_cancel-Tally reading s = still s _ (λ h. h) refl
read_cancel-Tally (holding _) s = still s _ (λ h. h) refl
read_cancel-Tally (closing _) s = still s _ (λ h. h) refl
read_cancel-Tally (ended _) s = still s _ (λ h. h) refl

read_run-Tally : (r : ReadTask) (s : Forward) → Tally s (on_read_run r s) []
read_run-Tally reading s = still s _ (λ h. h) refl
read_run-Tally (holding _) s = still s _ (λ h. h) refl
read_run-Tally (closing _) s = still s _ (λ h. h) refl
read_run-Tally (ended _) s = still s _ (λ h. h) refl

write_cancel-Tally : (w : WriteTask) (s : Forward) → Tally s (on_write_cancel w s) []
unfolding on_write_cancel
write_cancel-Tally getting s = still s _ (λ h. h) refl
write_cancel-Tally waiting s = still s _ (λ h. h) refl
write_cancel-Tally (stopped why) s = still s _ (λ h. h) refl

Round-histogram :
    (fine : Bool) (s r : Forward) → Round fine s r → r.read_histogram ≡ s.read_histogram
unfolding write
Round-histogram fine s r (sleeps _ _ e) = ap (λ t. t.read_histogram) e
Round-histogram fine s r (drains _ _ e) = ap (λ t. t.read_histogram) e
Round-histogram fine s r (writes d rest _ q e) = ap (λ t. t.read_histogram) e
Round-histogram fine s r (loses d rest _ q e) = ap (λ t. t.read_histogram) e

write-Tally : (fine : Bool) (s : Forward) → Tally s (on_write s.write_task fine s) []
write-Tally fine s = elim (on_write-Round s.write_task fine s) [
  | inl idle ↦ rw idle (still s s (λ h. h) refl)
  | inr round ↦ still s _ (write-IsCounted fine s) (Round-histogram fine s _ round)
]

step-Tally : (t : Turn) (s : Forward) → Tally s (step t s) (read_by t s.read_task)
unfolding step
step-Tally (read_returns d) s = read-Tally s.read_task d s
step-Tally read_raises s = read_error-Tally s.read_task s
step-Tally read_runs s = read_run-Tally s.read_task s
step-Tally read_cancelled s = read_cancel-Tally s.read_task s
step-Tally write_runs s = write-Tally true s
step-Tally write_raises s = write-Tally false s
step-Tally write_cancelled s = write_cancel-Tally s.write_task s

run-Tally : (ts : List Turn) (s : Forward) → Tally s (run ts s) (reads ts s)
unfolding run
run-Tally [] s = still s s (λ h. h) refl
run-Tally (t ∷ ts) s =
    let one : Tally s (step t s) (read_by t s.read_task) = step-Tally t s in
    let rest : Tally (step t s) (run ts (step t s)) (reads ts (step t s)) =
      run-Tally ts (step t s) in
    record {
      same_count = λ h. rest.same_count (one.same_count h);
      reads_up = omega (
        arith,
        one.reads_up,
        rest.reads_up,
        length-append {0} (read_by t s.read_task) (reads ts (step t s)),
      );
      bytes_up = omega (
        arith,
        one.bytes_up,
        rest.bytes_up,
        size-append (read_by t s.read_task) (reads ts (step t s)),
      );
    }

-- Under every schedule `total_bytes` is the number of bytes handed to `writer.write`, and the
-- histogram that connections share grows by one entry for each chunk read and by that chunk's size,
-- whatever becomes of the chunk later.
pub run_counts :
    (ts : List Turn) (h : Histogram)
    → let s = run ts (start h) in
      (s.total_bytes ≡ size s.written)
      × (total_reads s.read_histogram ≡ total_reads h + length (reads ts (start h)))
      × (total_bytes_read s.read_histogram ≡ total_bytes_read h + size (reads ts (start h)))
run_counts ts h =
    let t : Tally (start h) (run ts (start h)) (reads ts (start h)) = run-Tally ts (start h) in
    (t.same_count refl, t.reads_up, t.bytes_up)
