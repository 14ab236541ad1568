-- ===== src/Forward/Bounded.antt =====
-- How much `forward_data` holds at a time.
use migration_transport_hack.Base.{
  ℕ, ◌≤◌, ◌≡◌, refl, ap, ◌∙◌, inl, inr, Bool, true, false, Bool-cases, List, [], ◌∷◌, ◌++◌, length,
  length-append, ltb, arith,
}
use migration_transport_hack.Histogram.{Histogram}
use migration_transport_hack.Queue.{
  CircularQueue, append_bounded, drop_first, put, close, forget_waiter,
}
use migration_transport_hack.Forward.{
  Chunk, failed, ReadTask, reading, holding, closing, ended, WriteTask, getting, waiting, stopped,
  Forward, Turn, read_returns, read_raises, read_runs, read_cancelled, write_runs, write_raises,
  write_cancelled, start, step, run, received, write, on_read, on_read_error, on_read_run,
  on_read_cancel, on_write, on_write_cancel,
}
use migration_transport_hack.Forward.Round.{Round, sleeps, drains, writes, loses, on_write-Round}
use migration_transport_hack.Forward.Order.{in_hand}

-- The queue keeps within its size, of a thousand.
abbrev IsBounded : Forward → Type 0
IsBounded s = (length s.queue.queue ≤ s.queue.maxsize) × (s.queue.maxsize ≡ 1000)

length-drop_first : (xs : List Chunk) (d : Chunk) → length (drop_first (xs ++ d ∷ [])) ≡ length xs
length-drop_first [] d = refl
length-drop_first (x ∷ xs) d = omega (arith, length-append xs (d ∷ []))

append_bounded-length :
    (n : ℕ) (xs : List Chunk) (d : Chunk) → length xs ≤ n → length (append_bounded n xs d) ≤ n
append_bounded-length n xs d h = elim (Bool-cases (ltb (length xs) n)) [
  | inl room ↦ rw room (ground (arith, length-append xs (d ∷ [])))
  | inr full ↦ rw full (omega (arith, length-drop_first xs d))
]

put-IsBounded :
    (d : Chunk) (q : CircularQueue Chunk)
    → length q.queue ≤ q.maxsize
    → (length (put d q).queue ≤ q.maxsize) × ((put d q).maxsize ≡ q.maxsize)
unfolding put
put-IsBounded d q h = elim (Bool-cases q.closed) [
  | inl shut ↦ rw shut (h, refl)
  | inr open_still ↦ rw open_still (append_bounded-length q.maxsize q.queue d h, refl)
]

fewer :
    (s : Forward) (d : Chunk) (rest : List Chunk)
    → s.queue.queue ≡ d ∷ rest
    → IsBounded s
    → (length rest ≤ s.queue.maxsize) × (s.queue.maxsize ≡ 1000)
fewer s d rest e (le, size) = (omega (arith, le, ap length e), size)

on_read-IsBounded :
    (r : ReadTask) (d : Chunk) (s : Forward) → IsBounded s → IsBounded (on_read r d s)
unfolding received
on_read-IsBounded reading [] s h = h
on_read-IsBounded reading (b ∷ bs) s h = h
on_read-IsBounded (holding _) d s h = h
on_read-IsBounded (closing _) d s h = h
on_read-IsBounded (ended _) d s h = h

on_read_error-IsBounded :
    (r : ReadTask) (s : Forward) → IsBounded s → IsBounded (on_read_error r failed s)
on_read_error-IsBounded reading s h = h
on_read_error-IsBounded (holding _) s h = h
on_read_error-IsBounded (closing _) s h = h
on_read_error-IsBounded (ended _) s h = h

on_read_cancel-IsBounded :
    (r : ReadTask) (s : Forward) → IsBounded s → IsBounded (on_read_cancel r s)
on_read_cancel-IsBounded reading s h = h
on_read_cancel-IsBounded (holding _) s h = h
on_read_cancel-IsBounded (closing _) s h = h
on_read_cancel-IsBounded (ended _) s h = h

on_read_run-IsBounded : (r : ReadTask) (s : Forward) → IsBounded s → IsBounded (on_read_run r s)
unfolding close
on_read_run-IsBounded reading s h = h
on_read_run-IsBounded (holding d) s (le, size) =
    let (le', same) = put-IsBounded d s.queue le in (omega (arith, le', same), same ∙ size)
on_read_run-IsBounded (closing _) s h = h
on_read_run-IsBounded (ended _) s h = h

Round-IsBounded : (fine : Bool) (s r : Forward) → Round fine s r → IsBounded s → IsBounded r
unfolding write
Round-IsBounded fine s r (sleeps _ _ e) h = rw e h
Round-IsBounded fine s r (drains _ _ e) h = rw e h
Round-IsBounded fine s r (writes d rest _ q e) h = rw e (fewer s d rest q h)
Round-IsBounded fine s r (loses d rest _ q e) h = rw e (fewer s d rest q h)

on_write-IsBounded :
    (fine : Bool) (s : Forward) → IsBounded s → IsBounded (on_write s.write_task fine s)
on_write-IsBounded fine s h = elim (on_write-Round s.write_task fine s) [
  | inl idle ↦ rw idle h
  | inr round ↦ Round-IsBounded fine s _ round h
]

on_write_cancel-IsBounded :
    (w : WriteTask) (s : Forward) → IsBounded s → IsBounded (on_write_cancel w s)
unfolding on_write_cancel forget_waiter
on_write_cancel-IsBounded getting s h = h
on_write_cancel-IsBounded waiting s h = h
on_write_cancel-IsBounded (stopped why) s h = h

step-IsBounded : (t : Turn) (s : Forward) → IsBounded s → IsBounded (step t s)
unfolding step
step-IsBounded (read_returns d) s h = on_read-IsBounded s.read_task d s h
step-IsBounded read_raises s h = on_read_error-IsBounded s.read_task s h
step-IsBounded read_runs s h = on_read_run-IsBounded s.read_task s h
step-IsBounded read_cancelled s h = on_read_cancel-IsBounded s.read_task s h
step-IsBounded write_runs s h = on_write-IsBounded true s h
step-IsBounded write_raises s h = on_write-IsBounded false s h
step-IsBounded write_cancelled s h = on_write_cancel-IsBounded s.write_task s h

run-IsBounded : (ts : List Turn) (s : Forward) → IsBounded s → IsBounded (run ts s)
unfolding run
run-IsBounded [] s h = h
run-IsBounded (t ∷ ts) s h = run-IsBounded ts (step t s) (step-IsBounded t s h)

in_hand_most : (r : ReadTask) → length (in_hand r) ≤ 1
in_hand_most reading = omega arith
in_hand_most (holding d) = omega arith
in_hand_most (closing why) = omega arith
in_hand_most (ended why) = omega arith

-- Under every schedule a forwarder has at most a thousand chunks in its queue, and one more at most
-- in the hands of its read task: however slow the writer is, it never holds more.
pub run_holds :
    (ts : List Turn) (h : Histogram)
    → let s = run ts (start h) in
      (length s.queue.queue ≤ 1000) × (length (s.queue.queue ++ in_hand s.read_task) ≤ 1001)
run_holds ts h =
    let s : Forward = run ts (start h) in
    let (le, size) = run-IsBounded ts (start h) (omega arith, refl) in
    (
      omega (arith, le, size),
      omega (
        arith,
        le,
        size,
        length-append s.queue.queue (in_hand s.read_task),
        in_hand_most s.read_task,
      ),
    )
