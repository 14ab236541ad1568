-- ===== src/Forward/Drain.antt =====
-- A write task that completes has written all that was queued.
use mathlib.Core.List.{append-nil}
use mathlib.Core.Path.{subst}
use migration_transport_hack.Base.{
  ◌≡◌, refl, sym, Bool, true, false, List, [], ◌∷◌, arith, inl, inr, ◌∙◌,
}
use migration_transport_hack.Histogram.{Histogram}
use migration_transport_hack.Queue.{CircularQueue, put, close}
use migration_transport_hack.Forward.{
  Chunk, completed, failed, cancelled, ReadTask, reading, holding, closing, ended, WriteTask,
  getting, waiting, stopped, Forward, Turn, read_returns, read_raises, read_runs, read_cancelled,
  write_runs, write_raises, write_cancelled, step, run, on_write, on_write_cancel, on_read,
  on_read_run, on_read_cancel, on_read_error, write, start, received,
}
use migration_transport_hack.Forward.Round.{Round, sleeps, drains, writes, loses, on_write-Round}
use migration_transport_hack.Forward.Order.{in_hand, kept, reads}
use migration_transport_hack.Forward.Wakeup.{IsAwake, is_ended, start-IsAwake, run-IsAwake}
use migration_transport_hack.Forward.Delivery.{IsRoomy, run-kept_eq}

-- A write task that has completed left a closed and empty queue.
abbrev pub IsDrained : WriteTask → CircularQueue Chunk → Type 0
IsDrained (stopped completed) q = (q.queue ≡ []) × (q.closed ≡ true)
IsDrained _ q = Unit

put-IsDrained :
    (w : WriteTask) (d : Chunk) (q : CircularQueue Chunk) → IsDrained w q → IsDrained w (put d q)
unfolding put
put-IsDrained (stopped completed) d q h = ground arith
put-IsDrained (stopped cancelled) d q h = tt
put-IsDrained (stopped failed) d q h = tt
put-IsDrained getting d q h = tt
put-IsDrained waiting d q h = tt

close-IsDrained : (w : WriteTask) (q : CircularQueue Chunk) → IsDrained w q → IsDrained w (close q)
unfolding close
close-IsDrained (stopped completed) q h = (h.0, refl)
close-IsDrained (stopped cancelled) q h = tt
close-IsDrained (stopped failed) q h = tt
close-IsDrained getting q h = tt
close-IsDrained waiting q h = tt

abbrev DrainedAt : Forward → Type 0
DrainedAt s = IsDrained s.write_task s.queue

read_run-IsDrained : (r : ReadTask) (s : Forward) → DrainedAt s → DrainedAt (on_read_run r s)
read_run-IsDrained reading s h = h
read_run-IsDrained (holding d) s h = put-IsDrained s.write_task d s.queue h
read_run-IsDrained (closing why) s h = close-IsDrained s.write_task s.queue h
read_run-IsDrained (ended _) s h = h

read-IsDrained : (r : ReadTask) (d : Chunk) (s : Forward) → DrainedAt s → DrainedAt (on_read r d s)
unfolding received
read-IsDrained reading [] s h = h
read-IsDrained reading (b ∷ bs) s h = h
read-IsDrained (holding _) d s h = h
read-IsDrained (closing _) d s h = h
read-IsDrained (ended _) d s h = h

read_error-IsDrained :
    (r : ReadTask) (s : Forward) → DrainedAt s → DrainedAt (on_read_error r failed s)
read_error-IsDrained reading s h = h
read_error-IsDrained (holding _) s h = h
read_error-IsDrained (closing _) s h = h
read_error-IsDrained (ended _) s h = h

read_cancel-IsDrained : (r : ReadTask) (s : Forward) → DrainedAt s → DrainedAt (on_read_cancel r s)
read_cancel-IsDrained reading s h = h
read_cancel-IsDrained (holding _) s h = h
read_cancel-IsDrained (closing _) s h = h
read_cancel-IsDrained (ended _) s h = h

Round-IsDrained : (fine : Bool) (s r : Forward) → Round fine s r → DrainedAt r
unfolding write
Round-IsDrained fine s r (sleeps _ _ e) = rw e tt
Round-IsDrained fine s r (drains empty shut e) = rw e (empty, shut)
Round-IsDrained fine s r (writes d rest _ q e) = rw e tt
Round-IsDrained fine s r (loses d rest _ q e) = rw e tt

write-IsDrained :
    (fine : Bool) (s : Forward) → DrainedAt s → DrainedAt (on_write s.write_task fine s)
write-IsDrained fine s h = elim (on_write-Round s.write_task fine s) [
  | inl idle ↦ rw idle h
  | inr round ↦ Round-IsDrained fine s _ round
]

write_cancel-IsDrained :
    (w : WriteTask) (s : Forward) → DrainedAt s → DrainedAt (on_write_cancel w s)
unfolding on_write_cancel
write_cancel-IsDrained getting s h = tt
write_cancel-IsDrained waiting s h = tt
write_cancel-IsDrained (stopped why) s h = h

step-IsDrained : (t : Turn) (s : Forward) → DrainedAt s → DrainedAt (step t s)
unfolding step
step-IsDrained (read_returns d) s h = read-IsDrained s.read_task d s h
step-IsDrained read_raises s h = read_error-IsDrained s.read_task s h
step-IsDrained read_runs s h = read_run-IsDrained s.read_task s h
step-IsDrained read_cancelled s h = read_cancel-IsDrained s.read_task s h
step-IsDrained write_runs s h = write-IsDrained true s h
step-IsDrained write_raises s h = write-IsDrained false s h
step-IsDrained write_cancelled s h = write_cancel-IsDrained s.write_task s h

run-IsDrained : (ts : List Turn) (s : Forward) → DrainedAt s → DrainedAt (run ts s)
unfolding run
run-IsDrained [] s h = h
run-IsDrained (t ∷ ts) s h = run-IsDrained ts (step t s) (step-IsDrained t s h)

ended_in_hand : (r : ReadTask) → is_ended r ≡ true → in_hand r ≡ []
ended_in_hand (ended why) e = refl
ended_in_hand reading e = refl
ended_in_hand (holding d) e = cc
ended_in_hand (closing why) e = refl

-- Once the write task has completed, nothing is left behind.
kept_completed :
    (s : Forward) → IsAwake s → DrainedAt s → s.write_task ≡ stopped completed → kept s ≡ s.written
kept_completed s a h e =
    let drained : IsDrained (stopped completed) s.queue = subst (λ w. IsDrained w s.queue) e h in
    let none_left : in_hand s.read_task ≡ [] =
      ended_in_hand s.read_task (sym a.closes ∙ drained.1) in
    simp (drained.0, none_left, append-nil)

-- A run that has room in the queue throughout, loses no turn to a cancelled read or a failed
-- write, and whose write task completes has written exactly what it has read.
pub written-eq-reads :
    (ts : List Turn) (h : Histogram)
    → IsRoomy ts (start h)
    → (run ts (start h)).write_task ≡ stopped completed
    → (run ts (start h)).written ≡ reads ts (start h)
written-eq-reads ts h roomy done =
    sym (
      kept_completed (run ts (start h)) (run-IsAwake ts (start h) (start-IsAwake h))
        (run-IsDrained ts (start h) tt) done)
    ∙ run-kept_eq ts (start h) (start-IsAwake h) roomy
