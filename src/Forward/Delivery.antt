-- ===== src/Forward/Delivery.antt =====
-- When the forwarder delivers all that it reads.
use mathlib.Core.List.{append-nil, append_assoc}
use migration_transport_hack.Base.{
  ◌<◌, ◌≡◌, refl, sym, true, List, [], ◌∷◌, length, ◌++◌, inl, inr, ap, ◌∙◌,
}
use migration_transport_hack.Queue.{close, forget_waiter}
use migration_transport_hack.Queue.Laws.{put_room}
use migration_transport_hack.Forward.{
  Chunk, failed, ReadTask, reading, holding, closing, ended, WriteTask, getting, waiting, stopped,
  Forward, Turn, read_returns, read_raises, read_runs, read_cancelled, write_runs, write_raises,
  write_cancelled, step, run, on_write, on_write_cancel, on_read, on_read_run, on_read_error, write,
  received,
}
use migration_transport_hack.Forward.Round.{Round, sleeps, drains, writes, loses, on_write-Round}
use migration_transport_hack.Forward.Order.{in_hand, kept, read_chunk, read_by, reads}
use migration_transport_hack.Forward.Wakeup.{IsAwake, is_ended, step-IsAwake}

-- The turns that lose no chunk by themselves.
abbrev pub IsCalm : Turn → Type 0
IsCalm read_cancelled = ⊥
IsCalm write_raises = ⊥
IsCalm _ = Unit

-- Before each turn of the run the queue has room.
abbrev pub IsRoomy : List Turn → Forward → Type 0
IsRoomy [] s = Unit
IsRoomy (t ∷ ts) s = IsCalm t × (length s.queue.queue < s.queue.maxsize) × IsRoomy ts (step t s)

-- `kept`, with the read task given apart.
kept_at : ReadTask → Forward → List Chunk
kept_at r s = s.written ++ (s.queue.queue ++ in_hand r)

same : (s : Forward) {r : ReadTask} → s.read_task ≡ r → kept s ≡ kept_at r s
unfolding kept_at
same s e = ap (λ r. kept_at r s) e

read_run-kept :
    (r : ReadTask) (s : Forward)
    → s.read_task ≡ r
    → s.queue.closed ≡ is_ended r
    → length s.queue.queue < s.queue.maxsize
    → kept (on_read_run r s) ≡ kept_at r s
unfolding kept_at close
read_run-kept reading s e c h = same s e
read_run-kept (holding d) s e c h = simp (put_room d s.queue c h, append-nil)
read_run-kept (closing why) s e c h = refl
read_run-kept (ended why) s e c h = same s e

read_returns-kept :
    (r : ReadTask) (d : Chunk) (s : Forward)
    → s.read_task ≡ r
    → kept (on_read r d s) ≡ kept_at r s ++ read_chunk r d
unfolding kept_at received
read_returns-kept reading [] s e = simp append-nil
read_returns-kept reading (b ∷ bs) s e = simp (append-nil, append_assoc)
read_returns-kept (holding _) d s e = same s e ∙ sym (append-nil _)
read_returns-kept (closing _) d s e = same s e ∙ sym (append-nil _)
read_returns-kept (ended _) d s e = same s e ∙ sym (append-nil _)

read_error-kept :
    (r : ReadTask) (s : Forward) → s.read_task ≡ r → kept (on_read_error r failed s) ≡ kept_at r s
unfolding kept_at
read_error-kept reading s e = refl
read_error-kept (holding _) s e = same s e
read_error-kept (closing _) s e = same s e
read_error-kept (ended _) s e = same s e

Round-kept : (s r : Forward) → Round true s r → kept r ≡ kept s
unfolding write
Round-kept s r (sleeps _ _ e) = rw e refl
Round-kept s r (drains _ _ e) = rw e refl
Round-kept s r (writes d rest _ q e) = rw e (simp (q, append_assoc))
Round-kept s r (loses d rest f q e) = cc

write-kept : (s : Forward) → kept (on_write s.write_task true s) ≡ kept s
write-kept s = elim (on_write-Round s.write_task true s) [
  | inl idle ↦ rw idle
  | inr round ↦ Round-kept s _ round
]

write_cancel-kept : (w : WriteTask) (s : Forward) → kept (on_write_cancel w s) ≡ kept s
unfolding on_write_cancel forget_waiter
write_cancel-kept getting s = refl
write_cancel-kept waiting s = refl
write_cancel-kept (stopped why) s = refl

step-kept :
    (t : Turn) (s : Forward)
    → IsAwake s
    → IsCalm t
    → length s.queue.queue < s.queue.maxsize
    → kept (step t s) ≡ kept s ++ read_by t s.read_task
unfolding step kept_at
step-kept (read_returns d) s a c h = read_returns-kept s.read_task d s refl
step-kept read_raises s a c h = read_error-kept s.read_task s refl ∙ sym (append-nil _)
step-kept read_runs s a c h = read_run-kept s.read_task s refl a.closes h ∙ sym (append-nil _)
step-kept read_cancelled s a c h = absurd c
step-kept write_runs s a c h = write-kept s ∙ sym (append-nil _)
step-kept write_raises s a c h = absurd c
step-kept write_cancelled s a c h = write_cancel-kept s.write_task s ∙ sym (append-nil _)

-- With room in the queue nothing is lost: what is written, queued and in hand is what there was,
-- followed by all that the run reads.
pub run-kept_eq :
    (ts : List Turn) (s : Forward)
    → IsAwake s
    → IsRoomy ts s
    → kept (run ts s) ≡ kept s ++ reads ts s
unfolding run
run-kept_eq [] s a h = sym (append-nil _)
run-kept_eq (t ∷ ts) s a h =
    run-kept_eq ts (step t s) (step-IsAwake t s a) h.2
    ∙ ap (λ xs. xs ++ reads ts (step t s)) (step-kept t s a h.0 h.1)
    ∙ append_assoc (kept s) (read_by t s.read_task) (reads ts (step t s))
