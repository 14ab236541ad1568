-- ===== src/Forward/Wakeup.antt =====
-- The two tasks of `forward_data` never wait for one another in vain.
use migration_transport_hack.Base.{
  Bool-cases, ◌==◌, ap, ◌∙◌, ◌≡◌, refl, Bool, true, false, List, [], ◌∷◌, arith, ◌⊎◌, inl, inr,
}
use migration_transport_hack.Histogram.{Histogram}
use migration_transport_hack.Queue.{CircularQueue, put, close, forget_waiter}
use migration_transport_hack.Forward.{
  Chunk, completed, failed, cancelled, ReadTask, reading, holding, closing, ended, WriteTask,
  getting, waiting, stopped, Forward, Turn, read_returns, read_raises, read_runs, read_cancelled,
  write_runs, write_raises, write_cancelled, step, run, on_write, on_write_cancel, on_read,
  on_read_run, on_read_cancel, on_read_error, write, start, received,
}
use migration_transport_hack.Forward.Round.{Round, sleeps, drains, writes, loses, write_round-Round}

abbrev pub is_ended : ReadTask → Bool
is_ended (ended _) = true
is_ended _ = false

-- What the condition's waiters say about the write task, by where it stands.
abbrev pub IsSleep : WriteTask → CircularQueue Chunk → Type 0
IsSleep waiting q = (q.waiters ≡ 0) ⊎ ((q.waiters ≡ 1) × (q.queue ≡ []) × (q.closed ≡ false))
IsSleep _ q = q.waiters ≡ 0

-- The write task sleeps only over an open and empty queue, and the queue is closed exactly when
-- the read task has ended.
pub record IsAwake (s : Forward) : Type 0 where
  pub sleep : IsSleep s.write_task s.queue
  pub closes : s.queue.closed ≡ is_ended s.read_task

pub start-IsAwake : (h : Histogram) → IsAwake (start h)
start-IsAwake h = record { sleep = refl; closes = refl }

put-IsSleep :
    (w : WriteTask) (d : Chunk) (q : CircularQueue Chunk) → IsSleep w q → IsSleep w (put d q)
unfolding put
put-IsSleep waiting d q h = elim (Bool-cases q.closed) [
  | inl shut ↦ simp shut (rw shut at h)
  | inr unshut ↦ simp unshut (ground arith)
]
put-IsSleep getting d q h = ground arith
put-IsSleep (stopped _) d q h = ground arith

-- A write task that goes on is no waiter any more.
goes_on :
    (w : WriteTask) (fine : Bool) (s : Forward)
    → IsSleep w s.queue
    → (on_write w fine s ≡ s) ⊎ ((s.queue.waiters ≡ 0) × Round fine s (on_write w fine s))
unfolding on_write
goes_on getting fine s h = inr (h, write_round-Round fine s)
goes_on waiting fine s h = elim (Bool-cases (s.queue.waiters == 0)) [
  | inl woken ↦ inr (ground arith, rw woken (write_round-Round fine s))
  | inr asleep ↦ inl (rw asleep refl)
]
goes_on (stopped why) fine s h = inl refl

Round-IsAwake :
    (fine : Bool) (s r : Forward) → Round fine s r → s.queue.waiters ≡ 0 → IsAwake s → IsAwake r
unfolding write
Round-IsAwake fine s r (sleeps empty unshut e) z a =
    rw e (record { sleep = inr (omega arith, empty, unshut); closes = a.closes })
Round-IsAwake fine s r (drains empty shut e) z a = rw e (record { sleep = z; closes = a.closes })
Round-IsAwake fine s r (writes d rest _ q e) z a = rw e (record { sleep = z; closes = a.closes })
Round-IsAwake fine s r (loses d rest _ q e) z a = rw e (record { sleep = z; closes = a.closes })

write-IsAwake : (fine : Bool) (s : Forward) → IsAwake s → IsAwake (on_write s.write_task fine s)
write-IsAwake fine s a = elim (goes_on s.write_task fine s a.sleep) [
  | inl same ↦ rw same a
  | inr (z, round) ↦ Round-IsAwake fine s _ round z a
]

-- The lemma for the turns of the read task that do not touch the queue.
keep_reading :
    (s : Forward) (r : ReadTask)
    → is_ended s.read_task ≡ is_ended r
    → IsAwake s
    → IsAwake (record s { read_task = r })
keep_reading s r e a = record { sleep = a.sleep; closes = a.closes ∙ e }

closes_at : (s : Forward) {r : ReadTask} → s.read_task ≡ r → IsAwake s → s.queue.closed ≡ is_ended r
closes_at s e a = a.closes ∙ ap is_ended e

put-closed : (d : Chunk) (q : CircularQueue Chunk) → (put d q).closed ≡ q.closed
unfolding put
put-closed d q = ground arith

read-IsAwake :
    (r : ReadTask) (d : Chunk) (s : Forward) → s.read_task ≡ r → IsAwake s → IsAwake (on_read r d s)
unfolding received
read-IsAwake reading [] s e a = keep_reading s (closing completed) (ap is_ended e) a
read-IsAwake reading (b ∷ bs) s e a = record { sleep = a.sleep; closes = closes_at s e a }
read-IsAwake (holding _) d s e a = a
read-IsAwake (closing _) d s e a = a
read-IsAwake (ended _) d s e a = a

read_error-IsAwake :
    (r : ReadTask) (s : Forward) → s.read_task ≡ r → IsAwake s → IsAwake (on_read_error r failed s)
read_error-IsAwake reading s e a = keep_reading s (closing failed) (ap is_ended e) a
read_error-IsAwake (holding _) s e a = a
read_error-IsAwake (closing _) s e a = a
read_error-IsAwake (ended _) s e a = a

read_cancel-IsAwake :
    (r : ReadTask) (s : Forward) → s.read_task ≡ r → IsAwake s → IsAwake (on_read_cancel r s)
read_cancel-IsAwake reading s e a = keep_reading s (closing cancelled) (ap is_ended e) a
read_cancel-IsAwake (holding _) s e a = keep_reading s (closing cancelled) (ap is_ended e) a
read_cancel-IsAwake (closing _) s e a = a
read_cancel-IsAwake (ended _) s e a = a

close-IsSleep : (w : WriteTask) (q : CircularQueue Chunk) → IsSleep w q → IsSleep w (close q)
unfolding close
close-IsSleep waiting q h = inl refl
close-IsSleep getting q h = refl
close-IsSleep (stopped _) q h = refl

read_run-IsAwake :
    (r : ReadTask) (s : Forward) → s.read_task ≡ r → IsAwake s → IsAwake (on_read_run r s)
unfolding close
read_run-IsAwake reading s e a = a
read_run-IsAwake (holding d) s e a = record {
  sleep = put-IsSleep s.write_task d s.queue a.sleep;
  closes = put-closed d s.queue ∙ closes_at s e a;
}
read_run-IsAwake (closing why) s e a = record {
  sleep = close-IsSleep s.write_task s.queue a.sleep;
  closes = refl;
}
read_run-IsAwake (ended _) s e a = a

write_cancel-IsAwake :
    (w : WriteTask) (s : Forward)
    → s.write_task ≡ w
    → IsSleep w s.queue
    → IsAwake s
    → IsAwake (on_write_cancel w s)
unfolding on_write_cancel forget_waiter
write_cancel-IsAwake getting s e h a = record { sleep = h; closes = a.closes }
write_cancel-IsAwake waiting s e h a = record { sleep = ground arith; closes = a.closes }
write_cancel-IsAwake (stopped why) s e h a = a

-- Every turn, in any order, keeps the two tasks from waiting in vain.
pub step-IsAwake : (t : Turn) (s : Forward) → IsAwake s → IsAwake (step t s)
unfolding step
step-IsAwake (read_returns d) s a = read-IsAwake s.read_task d s refl a
step-IsAwake read_raises s a = read_error-IsAwake s.read_task s refl a
step-IsAwake read_runs s a = read_run-IsAwake s.read_task s refl a
step-IsAwake read_cancelled s a = read_cancel-IsAwake s.read_task s refl a
step-IsAwake write_runs s a = write-IsAwake true s a
step-IsAwake write_raises s a = write-IsAwake false s a
step-IsAwake write_cancelled s a = write_cancel-IsAwake s.write_task s refl a.sleep a

-- Every schedule keeps the invariant: a write task that still has to be notified sleeps over an
-- open and empty queue, and the queue is closed exactly when the read task has ended.
pub run-IsAwake : (ts : List Turn) (s : Forward) → IsAwake s → IsAwake (run ts s)
unfolding run
run-IsAwake [] s a = a
run-IsAwake (t ∷ ts) s a = run-IsAwake ts (step t s) (step-IsAwake t s a)
