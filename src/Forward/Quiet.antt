-- ===== src/Forward/Quiet.antt =====
-- When the tasks of `forward_data` read and write no more, and what a cancellation does to them.
use migration_transport_hack.Base.{◌≡◌, ◌∙◌, refl, Bool, true, false, ◌&&◌, arith}
use migration_transport_hack.Forward.{
  Chunk, failed, ReadTask, reading, holding, closing, ended, WriteTask, getting, waiting, stopped,
  Forward, Turn, read_returns, read_raises, read_runs, read_cancelled, write_runs, write_raises,
  write_cancelled, step, on_read, on_read_error, on_read_run, on_read_cancel, on_write,
  on_write_cancel, has_ended, finished, cancel_both,
}
use migration_transport_hack.Forward.Finish.{is_stopped}
use migration_transport_hack.Forward.Wakeup.{is_ended}

-- A read task that takes in nothing more.
abbrev pub reads_no_more : ReadTask → Bool
reads_no_more reading = false
reads_no_more (holding d) = false
reads_no_more _ = true

-- A forwarder whose tasks read and write no more.
abbrev pub is_quiet : Forward → Bool
is_quiet f = reads_no_more f.read_task && is_stopped f.write_task

-- What a turn of such a forwarder leaves as it was.
abbrev Stays : Forward → Forward → Type 0
Stays f g =
    (reads_no_more g.read_task ≡ true) × (g.write_task ≡ f.write_task) × (g.written ≡ f.written)

module _ (f : Forward) where
  on_read-Stays :
      (r : ReadTask) (d : Chunk)
      → f.read_task ≡ r
      → reads_no_more r ≡ true
      → Stays f (on_read r d f)
  unfolding on_read
  on_read-Stays (closing why) d e h = (rw e refl, refl, refl)
  on_read-Stays (ended why) d e h = (rw e refl, refl, refl)
  on_read-Stays reading d e h = cc
  on_read-Stays (holding c) d e h = cc

  on_read_error-Stays :
      (r : ReadTask) → f.read_task ≡ r → reads_no_more r ≡ true → Stays f (on_read_error r failed f)
  on_read_error-Stays (closing why) e h = (rw e refl, refl, refl)
  on_read_error-Stays (ended why) e h = (rw e refl, refl, refl)
  on_read_error-Stays reading e h = cc
  on_read_error-Stays (holding c) e h = cc

  on_read_run-Stays :
      (r : ReadTask) → f.read_task ≡ r → reads_no_more r ≡ true → Stays f (on_read_run r f)
  on_read_run-Stays (closing why) e h = (refl, refl, refl)
  on_read_run-Stays (ended why) e h = (rw e refl, refl, refl)
  on_read_run-Stays reading e h = cc
  on_read_run-Stays (holding c) e h = cc

  on_read_cancel-Stays :
      (r : ReadTask) → f.read_task ≡ r → reads_no_more r ≡ true → Stays f (on_read_cancel r f)
  on_read_cancel-Stays (closing why) e h = (rw e refl, refl, refl)
  on_read_cancel-Stays (ended why) e h = (rw e refl, refl, refl)
  on_read_cancel-Stays reading e h = cc
  on_read_cancel-Stays (holding c) e h = cc

  on_write-stopped : (w : WriteTask) (fine : Bool) → is_stopped w ≡ true → on_write w fine f ≡ f
  unfolding on_write
  on_write-stopped (stopped why) fine h = refl
  on_write-stopped getting fine h = cc
  on_write-stopped waiting fine h = cc

  on_write_cancel-stopped : (w : WriteTask) → is_stopped w ≡ true → on_write_cancel w f ≡ f
  unfolding on_write_cancel
  on_write_cancel-stopped (stopped why) h = refl
  on_write_cancel-stopped getting h = cc
  on_write_cancel-stopped waiting h = cc

step-Stays :
    (t : Turn) (f : Forward)
    → reads_no_more f.read_task ≡ true
    → is_stopped f.write_task ≡ true
    → Stays f (step t f)
unfolding step
step-Stays (read_returns d) f r w = on_read-Stays f f.read_task d refl r
step-Stays read_raises f r w = on_read_error-Stays f f.read_task refl r
step-Stays read_runs f r w = on_read_run-Stays f f.read_task refl r
step-Stays read_cancelled f r w = on_read_cancel-Stays f f.read_task refl r
step-Stays write_runs f r w = rw (on_write-stopped f f.write_task true w) (r, refl, refl)
step-Stays write_raises f r w = rw (on_write-stopped f f.write_task false w) (r, refl, refl)
step-Stays write_cancelled f r w = rw (on_write_cancel-stopped f f.write_task w) (r, refl, refl)

-- Whatever turn it gets, a quiet forwarder stays quiet and writes nothing.
pub step-quiet :
    (t : Turn) (f : Forward)
    → is_quiet f ≡ true
    → (is_quiet (step t f) ≡ true) × ((step t f).written ≡ f.written)
step-quiet t f h =
    let (r, w, same) = step-Stays t f (ground arith) (ground arith) in
    (rw (r, w) (ground arith), same)

has_ended-quiet :
    (r : ReadTask) (w : WriteTask) → has_ended r w ≡ true → reads_no_more r && is_stopped w ≡ true
has_ended-quiet (ended why) (stopped other) h = refl
has_ended-quiet (ended why) getting h = cc
has_ended-quiet (ended why) waiting h = cc
has_ended-quiet reading w h = cc
has_ended-quiet (holding c) w h = cc
has_ended-quiet (closing why) w h = cc

pub finished-quiet : (f : Forward) → finished f ≡ true → is_quiet f ≡ true
unfolding finished
finished-quiet f h = has_ended-quiet f.read_task f.write_task h

module _ (f : Forward) where
  on_read_cancel-Cuts :
      (r : ReadTask)
      → f.read_task ≡ r
      → let g = on_read_cancel r f in
        (reads_no_more g.read_task ≡ true) × (g.write_task ≡ f.write_task) × (g.written ≡ f.written)
  on_read_cancel-Cuts reading e = (refl, refl, refl)
  on_read_cancel-Cuts (holding c) e = (refl, refl, refl)
  on_read_cancel-Cuts (closing why) e = (rw e refl, refl, refl)
  on_read_cancel-Cuts (ended why) e = (rw e refl, refl, refl)

  on_write_cancel-Cuts :
      (w : WriteTask)
      → f.write_task ≡ w
      → let g = on_write_cancel w f in
        (is_stopped g.write_task ≡ true) × (g.read_task ≡ f.read_task) × (g.written ≡ f.written)
  unfolding on_write_cancel
  on_write_cancel-Cuts getting e = (refl, refl, refl)
  on_write_cancel-Cuts waiting e = (refl, refl, refl)
  on_write_cancel-Cuts (stopped why) e = (rw e refl, refl, refl)

-- A forwarder whose tasks are cancelled is quiet, and has written what it had.
pub cancel_both-quiet :
    (f : Forward) → (is_quiet (cancel_both f) ≡ true) × ((cancel_both f).written ≡ f.written)
unfolding cancel_both step
cancel_both-quiet f =
    let (r, w, same) = on_read_cancel-Cuts f f.read_task refl in
    let g : Forward = step read_cancelled f in
    let (stops, keeps, same') = on_write_cancel-Cuts g g.write_task refl in
    (rw (stops, keeps, r) refl, same' ∙ same)

closing_ends :
    (r : ReadTask) (f : Forward)
    → f.read_task ≡ r
    → reads_no_more r ≡ true
    → is_ended (on_read_run r f).read_task ≡ true
closing_ends (closing why) f e h = refl
closing_ends (ended why) f e h = rw e refl
closing_ends reading f e h = cc
closing_ends (holding c) f e h = cc

ended_both :
    (r : ReadTask) (w : WriteTask) → is_ended r ≡ true → is_stopped w ≡ true → has_ended r w ≡ true
ended_both (ended why) (stopped other) e h = refl
ended_both (ended why) getting e h = cc
ended_both (ended why) waiting e h = cc
ended_both reading w e h = cc
ended_both (holding c) w e h = cc
ended_both (closing why) w e h = cc

-- A quiet forwarder has finished after one more turn of its read task.
pub quiet-finishes : (f : Forward) → is_quiet f ≡ true → finished (step read_runs f) ≡ true
unfolding finished step
quiet-finishes f h =
    ended_both (on_read_run f.read_task f).read_task (on_read_run f.read_task f).write_task
      (closing_ends f.read_task f refl (ground arith))
      (rw ((on_read_run-Stays f f.read_task refl (ground arith)).1) (ground arith))
