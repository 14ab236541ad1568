-- ===== src/Forward/Shared.antt =====
-- A forwarder only ever adds to the histogram, and nothing else of it depends on that.
use migration_transport_hack.Base.{
  ◌≡◌, refl, Bool, true, false, List, [], ◌∷◌, ◌++◌, length, Bool-cases, inl, inr, ◌==◌,
}
use migration_transport_hack.Histogram.{Histogram, count_read}
use migration_transport_hack.Queue.{Got, item, nothing, wait, get}
use migration_transport_hack.Forward.{
  Chunk, failed, ReadTask, reading, holding, closing, ended, WriteTask, getting, waiting, stopped,
  Forward, Turn, read_returns, read_raises, read_runs, read_cancelled, write_runs, write_raises,
  write_cancelled, received, on_read, on_read_error, on_read_run, on_read_cancel, on_write,
  on_write_cancel, write, deliver, write_round, step,
}
use migration_transport_hack.Forward.Order.{read_chunk, read_by}

-- The forwarder with this histogram.
abbrev pub share : Histogram → Forward → Forward
share h f = record f { read_histogram = h }

-- The histogram after these reads.
abbrev pub counted : List Chunk → Histogram → Histogram
counted [] h = h
counted (d ∷ ds) h = counted ds (count_read (length d) h)

pub counted-append :
    (ds es : List Chunk) (h : Histogram) → counted (ds ++ es) h ≡ counted es (counted ds h)
counted-append [] es h = refl
counted-append (d ∷ ds) es h = counted-append ds es (count_read (length d) h)

module _ (h : Histogram) (f : Forward) where
  on_read-share :
      (r : ReadTask) (d : Chunk)
      → on_read r d (share h f) ≡ share (counted (read_chunk r d) h) (on_read r d f)
  unfolding received
  on_read-share reading [] = refl
  on_read-share reading (b ∷ bs) = refl
  on_read-share (holding _) d = refl
  on_read-share (closing _) d = refl
  on_read-share (ended _) d = refl

  on_read_error-share :
      (r : ReadTask) → on_read_error r failed (share h f) ≡ share h (on_read_error r failed f)
  on_read_error-share reading = refl
  on_read_error-share (holding _) = refl
  on_read_error-share (closing _) = refl
  on_read_error-share (ended _) = refl

  on_read_run-share : (r : ReadTask) → on_read_run r (share h f) ≡ share h (on_read_run r f)
  on_read_run-share reading = refl
  on_read_run-share (holding _) = refl
  on_read_run-share (closing _) = refl
  on_read_run-share (ended _) = refl

  on_read_cancel-share :
      (r : ReadTask) → on_read_cancel r (share h f) ≡ share h (on_read_cancel r f)
  on_read_cancel-share reading = refl
  on_read_cancel-share (holding _) = refl
  on_read_cancel-share (closing _) = refl
  on_read_cancel-share (ended _) = refl

  deliver-share :
      (fine : Bool) (got : Got Chunk) → deliver fine got (share h f) ≡ share h (deliver fine got f)
  unfolding deliver write
  deliver-share true (item d) = refl
  deliver-share false (item d) = refl
  deliver-share true nothing = refl
  deliver-share false nothing = refl
  deliver-share true wait = refl
  deliver-share false wait = refl

  on_write_cancel-share :
      (w : WriteTask) → on_write_cancel w (share h f) ≡ share h (on_write_cancel w f)
  unfolding on_write_cancel
  on_write_cancel-share getting = refl
  on_write_cancel-share waiting = refl
  on_write_cancel-share (stopped _) = refl

module _ (h : Histogram) where
  write_round-share :
      (fine : Bool) (f : Forward) → write_round fine (share h f) ≡ share h (write_round fine f)
  unfolding write_round
  write_round-share fine f =
      deliver-share h (record f { queue = (get f.queue).1 }) fine (get f.queue).0

  on_write-share :
      (w : WriteTask) (fine : Bool) (f : Forward)
      → on_write w fine (share h f) ≡ share h (on_write w fine f)
  unfolding on_write
  on_write-share getting fine f = write_round-share fine f
  on_write-share waiting fine f = elim (Bool-cases (f.queue.waiters == 0)) [
    | inl woken ↦ rw woken (write_round-share fine f)
    | inr asleep ↦ rw asleep refl
  ]
  on_write-share (stopped why) fine f = refl

-- A turn with another histogram does the same, and adds the same to that histogram.
pub step-share :
    (t : Turn) (h : Histogram) (f : Forward)
    → step t (share h f) ≡ share (counted (read_by t f.read_task) h) (step t f)
unfolding step
step-share (read_returns d) h f = on_read-share h f f.read_task d
step-share read_raises h f = on_read_error-share h f f.read_task
step-share read_runs h f = on_read_run-share h f f.read_task
step-share read_cancelled h f = on_read_cancel-share h f f.read_task
step-share write_runs h f = on_write-share h f.write_task true f
step-share write_raises h f = on_write-share h f.write_task false f
step-share write_cancelled h f = on_write_cancel-share h f f.write_task
